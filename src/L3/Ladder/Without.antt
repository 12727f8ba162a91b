-- ===== src/L3/Ladder/Without.antt =====
-- `cancel_order` on the levels of a side is the removal of the specification, and ids are found by
-- the index exactly if the specification has them.
use mathlib.Core.List.{map-append}
use hfttoolset.Base.{
  ℕ, ◌≡◌, refl, sym, ap, ◌∙◌, inl, inr, [], ◌∷◌, ◌++◌, map, Bool-cases, none, ◌==◌, ==_iff, arith,
  List,
}
use hfttoolset.L3.State.{L3Order, OrderQueue, find_order}
use hfttoolset.L3.Book.{is_some}
use hfttoolset.L3.Shape.{SameShape, unplaced}
use hfttoolset.L3.Remove.{Holds}
use hfttoolset.L3.Ladder.{Entry, has, without}
use hfttoolset.L3.Ladder.Sweep.{entry}

pub has-find_order : (i : ℕ) (os : OrderQueue) → has i (map entry os) ≡ is_some (find_order i os)
unfolding has find_order
has-find_order i [] = refl
has-find_order i (o ∷ os) = ground (arith, has-find_order i os)

without-append : (i : ℕ) (xs ys : List Entry) → without i (xs ++ ys) ≡ without i xs ++ without i ys
unfolding without
without-append i [] ys = refl
without-append i (x ∷ xs) ys = elim (Bool-cases (x.id == i)) [
  | inl e ↦ rw e (without-append i xs ys)
  | inr e ↦ rw e (ap (λ l. x ∷ l) (without-append i xs ys))
]

pub without-absent :
    (i : ℕ) (os : OrderQueue) → find_order i os ≡ none → without i (map entry os) ≡ map entry os
unfolding without find_order
without-absent i [] h = refl
without-absent i (o ∷ os) h = elim (Bool-cases (o.id == i)) [
  | inl e ↦ ground (arith, h, e)
  | inr e ↦ rw e (ap (λ l. entry o ∷ l) (without-absent i os (ground arith)))
]

without_it :
    (i : ℕ) (o : L3Order) (es : List Entry) → o.id ≡ i → without i (entry o ∷ es) ≡ without i es
unfolding without
without_it i o es h = rw ((==_iff o.id i).1 h) refl

entry_shape : (os : OrderQueue) → map entry (map unplaced os) ≡ map entry os
entry_shape [] = refl
entry_shape (o ∷ os) = ap (λ l. entry o ∷ l) (entry_shape os)

pub entries-SameShape : (xs ys : OrderQueue) → SameShape xs ys → map entry xs ≡ map entry ys
entries-SameShape xs ys h = sym (entry_shape xs) ∙ ap (map entry) h ∙ entry_shape ys

pub without-Holds :
    (i : ℕ) (o : L3Order) (old rest : OrderQueue)
    → o.id ≡ i
    → Holds o old rest
    → find_order i rest ≡ none
    → without i (map entry old) ≡ map entry rest
without-Holds i o old rest h (xs, ys, e, f) gone =
    ap (λ os. without i (map entry os)) e
    ∙ ap (without i) (map-append entry xs (o ∷ ys))
    ∙ without-append i (map entry xs) (entry o ∷ map entry ys)
    ∙ ap (λ es. without i (map entry xs) ++ es) (without_it i o (map entry ys) h)
    ∙ sym (without-append i (map entry xs) (map entry ys))
    ∙ ap (without i) (sym (map-append entry xs ys))
    ∙ ap (λ os. without i (map entry os)) (sym f)
    ∙ without-absent i rest gone
