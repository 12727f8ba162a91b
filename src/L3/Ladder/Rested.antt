-- ===== src/L3/Ladder/Rested.antt =====
-- `add_resting_order` shows the placing of the specification.
use hfttoolset.Base.{
  ℕ, ℤ, pos, ◌+ℤ◌, ◌≡◌, int_laws, length, ◌%◌, ◌^◌, ap, ◌∙◌, [], ◌∷◌, ◌++◌, map, All,
}
use hfttoolset.Types.{Side, Order}
use hfttoolset.L3.State.{Tally, Book, L3Order, levels, opposite, set_level, find_level}
use hfttoolset.L3.Insert.{queue_or_nil}
use hfttoolset.L3.Update.{updated}
use hfttoolset.L3.Book.{add_resting_order, resting_order}
use hfttoolset.L3.Valid.{IsLevel, IsSorted, flat}
use hfttoolset.L3.Rest.{orders_at_price_lem}
use hfttoolset.L3.Ladder.{sides, place, entry_of}
use hfttoolset.L3.Ladder.Sweep.{entry}
use hfttoolset.L3.Ladder.Place.{place-set_level}
use hfttoolset.L3.Ladder.View.{view, levels-updated, view-sides}

view_placed :
    (b : Book) (s : Side) (o : L3Order) (t : Tally)
    → All (IsLevel s) (levels s b)
    → IsSorted s (levels s b)
    → view (
        updated s
          (set_level s o.price
            (queue_or_nil (find_level o.price (levels s b)) ++ o ∷ [])
            (levels s b))
          t
          b)
      ≡ sides s (place s (entry o) (view b s)) (view b (opposite s))
view_placed b s o t v a =
    let ls =
      set_level s o.price (queue_or_nil (find_level o.price (levels s b)) ++ o ∷ []) (levels s b) in
    let (own, other) = levels-updated s ls t b in
    view-sides s (view (updated s ls t b)) _ _
      (ap (λ k. map entry (flat k)) own ∙ place-set_level s o (levels s b) v a)
      (ap (λ k. map entry (flat k)) other)

plus_nothing : (n : ℤ) → n +ℤ pos 0 ≡ n
plus_nothing n = omega int_laws

entry-resting_order :
    (order : Order) (n : ℤ) (ts k : ℕ) → entry (resting_order order n ts k) ≡ entry_of order n
unfolding resting_order
entry-resting_order order n ts k = ap (entry_of order) (plus_nothing n)

pub view-add_resting_order :
    (b : Book) (order : Order) (n : ℤ) (ts : ℕ)
    → All (IsLevel order.side) (levels order.side b)
    → IsSorted order.side (levels order.side b)
    → view (add_resting_order b order n ts)
      ≡ sides order.side
          (place order.side (entry_of order n) (view b order.side))
          (view b (opposite order.side))
unfolding add_resting_order resting_order
view-add_resting_order b order n ts v a =
    let s = order.side in
    rw (orders_at_price_lem b s order.price) (
      view_placed b s (resting_order order n ts _) _ v a
      ∙ ap (λ e. sides s (place s e (view b s)) (view b (opposite s)))
          (entry-resting_order order n ts
            (length (queue_or_nil (find_level order.price (levels s b))) % 2 ^ 32)))
