-- ===== src/Market/Conserved.antt =====
-- `matchIncoming`: what the resting orders lose is traded.
use hfttoolset.Base.{
  ℕ, ℤ, pos, ltb_ℤ, eqb_ℤ, min_ℤ, ◌≤ℤ◌, ◌+ℤ◌, ◌-ℤ◌, ◌≡◌, refl, sym, ap, subst, inl, inr, not, ◌&&◌,
  [], ◌∷◌, map, All, Bool-cases, int_laws, parts_of_eq, eqb_ℤ_eq,
}
use hfttoolset.Base.Assoc.{Assoc}
use hfttoolset.Types.{Side, buy, sell, Symbol, BookOrder}
use hfttoolset.Market.{
  Queue, NodeLocation, Levels, SimpleBook, Fills, stops_at, next_level, fill_front, fill_queue,
  fill_levels_of, match_in_book, levels_of, with_levels_of, other_side,
}
use hfttoolset.Market.Spending.{crossed, spend, offered, IsOrdered}
use hfttoolset.Market.Priority.{
  queue_stops, queue_keeps, queue_pops, part, without_front, levels_stop, levels_go,
  match_in_book-spends,
}
use hfttoolset.L3.Match.Fills.{fill_of, traded_qty, traded_qty-snoc, traded_qty_nil}

-- What the orders of a queue, and of a side, are for.
abbrev pub queued : Queue → ℤ
queued [] = pos 0
queued ((k, o) ∷ os) = o.qty +ℤ queued os

abbrev pub held : Levels → ℤ
held [] = pos 0
held ((p, os) ∷ ls) = queued os +ℤ held ls

abbrev queue_sum : Queue × Fills → ℤ
queue_sum (os, m) = queued os +ℤ traded_qty m.trades

abbrev side_sum : Levels × Fills → ℤ
side_sum (ls, m) = held ls +ℤ traded_qty m.trades

module _ (symbol : Symbol) (inc : BookOrder) (ts : ℕ) where
  traded-fill_front :
      (p n : ℤ) (o : BookOrder) (m : Fills)
      → traded_qty (fill_front symbol inc ts p o n m).trades ≡ traded_qty m.trades +ℤ n
  unfolding fill_front
  traded-fill_front p n o m = traded_qty-snoc m.trades _

  queue-conserved :
      (p : ℤ) (os : Queue) (m : Fills)
      → queue_sum (fill_queue symbol inc ts p os m) ≡ queue_sum (os, m)
  unfolding fill_queue
  queue-conserved p [] m = refl
  queue-conserved p ((k, o) ∷ os) m = elim (Bool-cases (ltb_ℤ (pos 0) m.left)) [
    | inr e ↦
        subst (λ r. queue_sum r ≡ queue_sum ((k, o) ∷ os, m))
          (sym (queue_stops symbol inc ts p k o os m e)) refl
    | inl e ↦
        let n = part symbol inc ts p k o os m in
        let traded = traded-fill_front p n o m in
        elim (Bool-cases (eqb_ℤ (o.qty -ℤ n) (pos 0))) [
          | inr f ↦
              subst (λ r. queue_sum r ≡ queue_sum ((k, o) ∷ os, m))
                (sym (queue_keeps symbol inc ts p k o os m e f))
                (omega (int_laws, parts_of_eq _ _ traded))
          | inl f ↦
              let whole = eqb_ℤ_eq (o.qty -ℤ n) (pos 0) f in
              let rest = queue-conserved p os (without_front symbol inc ts p k o os m) in
              subst (λ r. queue_sum r ≡ queue_sum ((k, o) ∷ os, m))
                (sym (queue_pops symbol inc ts p k o os m e f))
                (omega
                  (int_laws, parts_of_eq _ _ rest, parts_of_eq _ _ traded, parts_of_eq _ _ whole))
        ]
  ]

  next-conserved :
      (p : ℤ) (os os' : Queue) (ls : Levels) (m m' : Fills) (rest : Levels × Fills)
      → queue_sum (os', m') ≡ queue_sum (os, m)
      → side_sum rest ≡ side_sum (ls, m')
      → side_sum (next_level p os' rest ls m') ≡ side_sum ((p, os) ∷ ls, m)
  next-conserved p os [] ls m m' rest h k = omega (int_laws, parts_of_eq _ _ h, parts_of_eq _ _ k)
  next-conserved p os ((i, o) ∷ os') ls m m' rest h k = omega (int_laws, parts_of_eq _ _ h)

  levels-conserved :
      (ls : Levels) (m : Fills) → side_sum (fill_levels_of symbol inc ts ls m) ≡ side_sum (ls, m)
  unfolding fill_levels_of
  levels-conserved [] m = refl
  levels-conserved ((p, os) ∷ ls) m =
      elim (Bool-cases (ltb_ℤ (pos 0) m.left && not (stops_at inc p))) [
        | inr e ↦
            subst (λ r. side_sum r ≡ side_sum ((p, os) ∷ ls, m))
              (sym (levels_stop symbol inc ts p os ls m e)) refl
        | inl e ↦
            let (os', m') = fill_queue symbol inc ts p os m in
            subst (λ r. side_sum r ≡ side_sum ((p, os) ∷ ls, m))
              (sym (levels_go symbol inc ts p os ls m e))
              (next-conserved p os os' ls m m' (fill_levels_of symbol inc ts ls m')
                (queue-conserved p os m) (levels-conserved ls m'))
      ]

levels-with_levels_of :
    (s : Side) (ls : Levels) (b : SimpleBook) (index : Assoc ℕ NodeLocation)
    → levels_of s (record (with_levels_of s ls b) { order_index = index }) ≡ ls
levels-with_levels_of buy ls b index = refl
levels-with_levels_of sell ls b index = refl

levels-match_in_book :
    (b : SimpleBook) (inc : BookOrder) (ts : ℕ)
    → let s = other_side inc.side in
      let start : Fills = record { index = b.order_index; left = inc.qty; trades = [] } in
      levels_of s (match_in_book inc ts b).0
      ≡ (fill_levels_of b.symbol inc ts (levels_of s b) start).0
unfolding match_in_book
levels-match_in_book b inc ts = levels-with_levels_of (other_side inc.side) _ b _

held-match_in_book :
    (b : SimpleBook) (inc : BookOrder) (ts : ℕ)
    → let s = other_side inc.side in
      let r = match_in_book inc ts b in
      held (levels_of s r.0) +ℤ traded_qty r.1 ≡ held (levels_of s b)
unfolding match_in_book
held-match_in_book b inc ts =
    let s = other_side inc.side in
    let start : Fills = record { index = b.order_index; left = inc.qty; trades = [] } in
    let all = levels-conserved b.symbol inc ts (levels_of s b) start in
    omega (
      int_laws,
      parts_of_eq _ _ all,
      traded_qty_nil,
      parts_of_eq _ _ (ap held (levels-match_in_book b inc ts)),
    )

-- On a book whose other side is in the order of its map, where neither the incoming order nor an
-- order at a price that it takes is of a negative quantity, the incoming order trades in price-time
-- priority: its quantity is spent on the orders at the prices that it takes, best price first and
-- oldest first, each at its own price. What is left of it is its quantity less the minimum of that
-- and what those orders offer, and the other side holds less by what was traded.
pub match_in_book-matched :
    (b : SimpleBook) (inc : BookOrder) (ts : ℕ)
    → let s = other_side inc.side in
      let near = crossed inc (levels_of s b) in
      let (b', trades, left) = match_in_book inc ts b in
      IsOrdered s (levels_of s b)
      → pos 0 ≤ℤ inc.qty
      → All (λ o. pos 0 ≤ℤ o.1.qty) near
      → (map fill_of trades ≡ spend inc.qty near)
        × (left ≡ inc.qty -ℤ min_ℤ inc.qty (offered near))
        × (held (levels_of s b') +ℤ traded_qty trades ≡ held (levels_of s b))
match_in_book-matched b inc ts v h a =
    let (x, y) = match_in_book-spends b inc ts v h a in (x, y, held-match_in_book b inc ts)
