-- ===== src/L3/Priority.antt =====
-- What an incoming order trades, in price-time priority, and how much.
use hfttoolset.Base.{
  ℕ, ℤ, pos, min_ℤ, min_ℤ_least, min_ℤ_right, ◌≤ℤ◌, ◌+ℤ◌, ◌-ℤ◌, ◌≡◌, ap, ◌∙◌, ◌⊎◌, inl, inr, false,
  [], map, int_laws, parts_of_eq,
}
use hfttoolset.Types.{Order}
use hfttoolset.L3.State.{OrderQueue, Book, levels, opposite}
use hfttoolset.L3.Match.{Matching, match_against, match_incoming, fok_blocked}
use hfttoolset.L3.Valid.{IsValid}
use hfttoolset.L3.Match.Walk.{crossing, walk, match_against-walk}
use hfttoolset.L3.Match.Run.{Run, walk-Run}
use hfttoolset.L3.Match.Fills.{
  traded_qty_nil, ends-Run, fill_of, allot, traded_qty, open_total, fills-Run, wanted-Run,
  offered-Run,
}
use hfttoolset.L3.Match.Update.{IsOpen-crossing}
use hfttoolset.L3.Add.{start, match_incoming_open}

plus_nothing : (n : ℤ) → n +ℤ traded_qty [] ≡ n
plus_nothing n = omega (int_laws, traded_qty_nil)

-- Two quantities that the same amount is taken from, until one of them is used up.
least :
    (q a r t o : ℤ)
    → r +ℤ t ≡ q
    → o +ℤ t ≡ a
    → pos 0 ≤ℤ r
    → pos 0 ≤ℤ o
    → (r ≤ℤ pos 0) ⊎ (o ≤ℤ pos 0)
    → (t ≡ min_ℤ q a) × (r ≡ q -ℤ min_ℤ q a)
least q a r t o h g x y (inl z) =
    let le : q ≤ℤ a = omega (int_laws, parts_of_eq _ _ h, parts_of_eq _ _ g) in
    rw (min_ℤ_least q a le)
      (omega (int_laws, parts_of_eq _ _ h), omega (int_laws, parts_of_eq _ _ h))
least q a r t o h g x y (inr z) =
    let le : a ≤ℤ q = omega (int_laws, parts_of_eq _ _ h, parts_of_eq _ _ g) in
    rw (min_ℤ_right q a le)
      (omega (int_laws, parts_of_eq _ _ g), omega (int_laws, parts_of_eq _ _ h, parts_of_eq _ _ g))

-- The resting orders that an order crosses, in price-time priority.
abbrev pub near : Book → Order → OrderQueue
near b order = crossing order (levels (opposite order.side) b)

module _ (b : Book) (order : Order) (ts : ℕ) (v : IsValid b) where
  walked : OrderQueue × Matching
  walked = walk b.symbol order ts (near b order) (start b order)

  run : Run b.symbol order ts (opposite order.side) (near b order) (start b order) walked.0 walked.1
  unfolding walked
  run =
      let s = opposite order.side in
      walk-Run b.symbol order ts s (near b order) (start b order)
        (IsOpen-crossing s order (levels s b) (v.level s))

  matching-walked :
      (match_against b.symbol order ts (levels (opposite order.side) b) (start b order)).1
      ≡ walked.1
  unfolding walked
  matching-walked =
      (match_against-walk b.symbol order ts (opposite order.side) (levels (opposite order.side) b)
        (start b order) (v.level (opposite order.side))).1

  module _ (e : fok_blocked b order ≡ false) where
    trades-walked : (match_incoming b order ts).trades ≡ walked.1.trades
    trades-walked =
        ap (λ r. r.trades) (match_incoming_open b order ts e) ∙ ap (λ m. m.trades) matching-walked

    remaining-walked : (match_incoming b order ts).remaining_qty ≡ walked.1.remaining
    remaining-walked =
        ap (λ r. r.remaining_qty) (match_incoming_open b order ts e)
        ∙ ap (λ m. m.remaining) matching-walked

    -- On a well-formed book, the trades of an order that the fill-or-kill check lets pass are
    -- those of price-time priority: the order's quantity is allotted to the orders that it
    -- crosses, best price first and oldest first, each at its own price.
    pub trades-match_incoming :
        map fill_of (match_incoming b order ts).trades ≡ allot order.quantity (near b order)
    trades-match_incoming = ap (map fill_of) trades-walked ∙ fills-Run run

    conserved-walked : walked.1.remaining +ℤ traded_qty walked.1.trades ≡ order.quantity
    conserved-walked = wanted-Run run ∙ plus_nothing order.quantity

    offered-walked : open_total walked.0 +ℤ traded_qty walked.1.trades ≡ open_total (near b order)
    offered-walked = offered-Run run ∙ plus_nothing (open_total (near b order))

    -- On a well-formed book, an order of no negative quantity that the fill-or-kill check lets
    -- pass trades the minimum of what it wants and what the orders that it crosses offer, and
    -- the rest remains.
    pub traded_qty-match_incoming :
        pos 0 ≤ℤ order.quantity
        → let r = match_incoming b order ts in
          (traded_qty r.trades ≡ min_ℤ order.quantity (open_total (near b order)))
          × (r.remaining_qty ≡ order.quantity -ℤ min_ℤ order.quantity (open_total (near b order)))
    traded_qty-match_incoming h =
        let s = opposite order.side in
        let (x, y, z) = ends-Run run h (IsOpen-crossing s order (levels s b) (v.level s)) in
        let (t, r) =
          least order.quantity (open_total (near b order)) _ _ _ conserved-walked offered-walked x y
            z in
        (ap traded_qty trades-walked ∙ t, remaining-walked ∙ r)
