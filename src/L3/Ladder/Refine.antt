-- ===== src/L3/Ladder/Refine.antt =====
-- `add_order`, `cancel_order` and `replace_order` show what the specification says.
use hfttoolset.Base.{
  ℕ, ℤ, pos, ltb_ℤ, ◌≡◌, refl, sym, ap, ◌∙◌, inl, inr, true, false, ◌&&◌, ◌||◌, Bool, All, [], map,
  List, Option, none, if◌then◌else◌, Bool-cases, ℕ_discrete, arith,
}
use hfttoolset.Base.Assoc.{find}
use hfttoolset.Types.{Side, Order, TimeInForce, day, ioc, fok, gtc}
use hfttoolset.L3.State.{L3Order, Book, levels, opposite}
use hfttoolset.L3.Match.{is_limit, is_fok, MatchResult, match_incoming, fok_blocked}
use hfttoolset.L3.Match.Fills.{fill_of}
use hfttoolset.L3.Match.Update.{match_incoming-IsValid}
use hfttoolset.L3.Book.{rests, is_some, settle, add_order, add_resting_order}
use hfttoolset.L3.Valid.{IsValid, IsLevel, IsSorted, locate}
use hfttoolset.L3.Add.{book-settle, match_incoming_blocked}
use hfttoolset.L3.Fok.{fok_blocked_lem}
use hfttoolset.L3.Ladder.{
  Entry, Swept, sweep, offered, sides, place, has, entry_of, settled, spec_add,
}
use hfttoolset.L3.Ladder.Without.{has-find_order}
use hfttoolset.L3.Ladder.View.{view, seen, view-sides, fills-settle}
use hfttoolset.L3.Ladder.Matched.{match_incoming-IsMatched, offered-near}
use hfttoolset.L3.Ladder.Rested.{view-add_resting_order}

module _ (order : Order) (ts : ℕ) (r : MatchResult) where
  abbrev s : Side
  s = order.side

  view-rested :
      (t : Bool) (n : ℤ)
      → All (IsLevel s) (levels s r.book)
      → IsSorted s (levels s r.book)
      → view (if t then add_resting_order r.book order n ts else r.book)
        ≡ sides s
            (if t then place s (entry_of order n) (view r.book s) else view r.book s)
            (view r.book (opposite s))
  view-rested true n v a = view-add_resting_order r.book order n ts v a
  view-rested false n v a = view-sides s (view r.book) _ _ refl refl

  settle-seen :
      (own : List Entry) (w : Swept)
      → All (IsLevel s) (levels s r.book)
      → IsSorted s (levels s r.book)
      → view r.book (opposite s) ≡ w.left
      → view r.book s ≡ own
      → r.remaining_qty ≡ w.wanted
      → map fill_of r.trades ≡ w.fills
      → seen (settle order ts r) ≡ settled order own w
  settle-seen own w v a left same wanted fills =
      let shown = ap view (book-settle order ts r) ∙ view-rested _ r.remaining_qty v a in
      let matched : settled order (view r.book s) (record {
        left = view r.book (opposite s);
        wanted = r.remaining_qty;
        fills = map fill_of r.trades;
      })
          ≡ settled order own w =
        λ i.
          settled order (same i) (record { left = left i; wanted = wanted i; fills = fills i }) in
      (λ i. (shown i, fills-settle order ts r i)) ∙ matched

some_of : (a b : Option L3Order) → (is_some a || is_some b) ≡ is_some (locate a (locate b none))
some_of a b = ground arith

-- The index knows an id exactly if a side has it.
pub known-indexed :
    (b : Book) (s : Side) (i : ℕ)
    → IsValid b
    → (has i (view b s) || has i (view b (opposite s))) ≡ is_some (find ℕ_discrete i b.order_index)
known-indexed b s i v = rw (has-find_order, has-find_order, v.indexed s i) (some_of _ _)

-- The fill-or-kill check.
blocked-offered :
    (b : Book) (order : Order)
    → IsValid b
    → (is_fok order.tif && ltb_ℤ (offered order (view b (opposite order.side))) order.quantity)
      ≡ fok_blocked b order
blocked-offered b order v =
    ap (λ n. is_fok order.tif && ltb_ℤ n order.quantity) (offered-near b order 0 v)
    ∙ sym (fok_blocked_lem b order v)

fok-not-rests : (t : TimeInForce) (x : Bool) → (is_fok t && x) ≡ true → rests t ≡ false
fok-not-rests day x h = cc
fok-not-rests ioc x h = refl
fok-not-rests fok x h = refl
fok-not-rests gtc x h = cc

and_false : (a b : Bool) → b ≡ false → (a && b) ≡ false
and_false a b h = ground arith

module _ (b : Book) (order : Order) (ts : ℕ) (v : IsValid b) where
  abbrev other : List Entry
  other = view b (opposite order.side)

  abbrev own : List Entry
  own = view b order.side

  open-seen :
      fok_blocked b order ≡ false
      → seen (settle order ts (match_incoming b order ts))
        ≡ settled order own (sweep order order.quantity other)
  open-seen e =
      let w = match_incoming-IsValid b order ts v in
      let (left, same, wanted, fills) = match_incoming-IsMatched b order ts v e in
      settle-seen order ts (match_incoming b order ts) own (sweep order order.quantity other)
        (w.level order.side) (w.sorted order.side) left same wanted fills

  blocked-seen :
      fok_blocked b order ≡ true → seen (settle order ts (match_incoming b order ts)) ≡ (view b, [])
  blocked-seen e =
      let w : Swept = record { left = other; wanted = order.quantity; fills = [] } in
      let never = fok-not-rests order.tif _ (blocked-offered b order v ∙ e) in
      rw (match_incoming_blocked b order ts e) (
        settle-seen order ts
          (record { book = b; trades = []; remaining_qty = order.quantity; fully_filled = false })
          own w (v.level order.side) (v.sorted order.side) refl refl refl refl
        ∙ ap
            (λ t. (
              sides order.side
                  (if t then place order.side (entry_of order order.quantity) own else own) other,
              [],
            ))
            (and_false (ltb_ℤ (pos 0) order.quantity && is_limit order.type) (rests order.tif)
              never)
        ∙ ap (λ l. (l, [])) (sym (view-sides order.side (view b) own other refl refl)))

  pub add_order-seen : seen (add_order b order ts) ≡ spec_add order (view b)
  unfolding add_order spec_add
  add_order-seen = elim (Bool-cases (is_some (find ℕ_discrete order.id b.order_index))) [
    | inl e ↦ rw (known-indexed b order.side order.id v, e) refl
    | inr e ↦ elim (Bool-cases (fok_blocked b order)) [
      | inl f ↦
          rw (known-indexed b order.side order.id v, e, blocked-offered b order v, f)
            (blocked-seen f)
      | inr f ↦
          rw (known-indexed b order.side order.id v, e, blocked-offered b order v, f) (open-seen f)
    ]
  ]
