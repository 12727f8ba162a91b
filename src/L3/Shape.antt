-- ===== src/L3/Shape.antt =====
-- Queues that agree but for the queue positions, which `update_queue_positions` counts anew.
use hfttoolset.Base.{
  ℕ, ℤ, ◌≡◌, refl, sym, subst, ap, ◌∙◌, [], ◌∷◌, map, All, Option, none, some, suc, length, ◌+◌,
  ◌%◌, ◌^◌, arith,
}
use hfttoolset.Types.{Side}
use hfttoolset.L3.State.{L3Order, OrderLocation, OrderQueue, find_order, renumber}
use hfttoolset.L3.Valid.{IsResting, IsDistinct, locate}

abbrev pub unplaced : L3Order → L3Order
unplaced o = record o { queue_pos = 0 }

abbrev pub SameShape : OrderQueue → OrderQueue → Type 0
SameShape xs ys = map unplaced xs ≡ map unplaced ys

map_some : Option L3Order → Option L3Order
map_some none = none
map_some (some o) = some (unplaced o)

find-unplaced :
    (i : ℕ) (os : OrderQueue) → find_order i (map unplaced os) ≡ map_some (find_order i os)
unfolding find_order map_some
find-unplaced i [] = refl
find-unplaced i (o ∷ os) = ground (arith, find-unplaced i os)

locate-map_some :
    (a : Option L3Order) (z : Option OrderLocation) → locate (map_some a) z ≡ locate a z
unfolding map_some
locate-map_some none z = refl
locate-map_some (some o) z = refl

none-map_some : (a : Option L3Order) → map_some a ≡ none → a ≡ none
unfolding map_some
none-map_some none h = refl
none-map_some (some o) h = cc

IsDistinct-unplaced : (os : OrderQueue) → IsDistinct os → IsDistinct (map unplaced os)
unfolding map_some
IsDistinct-unplaced [] d = tt
IsDistinct-unplaced (o ∷ os) d = (rw (find-unplaced o.id os, d.0), IsDistinct-unplaced os d.1)

IsDistinct-placed : (os : OrderQueue) → IsDistinct (map unplaced os) → IsDistinct os
IsDistinct-placed [] d = tt
IsDistinct-placed (o ∷ os) d = (
  none-map_some (find_order o.id os) (sym (find-unplaced o.id os) ∙ d.0),
  IsDistinct-placed os d.1,
)

length-unplaced : (os : OrderQueue) → length (map unplaced os) ≡ length os
length-unplaced [] = refl
length-unplaced (o ∷ os) = ap suc (length-unplaced os)

module _ (xs ys : OrderQueue) (h : SameShape xs ys) where
  pub length-SameShape : length xs ≡ length ys
  length-SameShape = sym (length-unplaced xs) ∙ ap length h ∙ length-unplaced ys

  pub IsDistinct-SameShape : IsDistinct ys → IsDistinct xs
  IsDistinct-SameShape d =
      IsDistinct-placed xs (subst IsDistinct (sym h) (IsDistinct-unplaced ys d))

  find-SameShape : (i : ℕ) → map_some (find_order i xs) ≡ map_some (find_order i ys)
  find-SameShape i = sym (find-unplaced i xs) ∙ ap (find_order i) h ∙ find-unplaced i ys

  pub locate-SameShape :
      (i : ℕ) (z : Option OrderLocation) → locate (find_order i xs) z ≡ locate (find_order i ys) z
  locate-SameShape i z =
      sym (locate-map_some (find_order i xs) z)
      ∙ ap (λ a. locate a z) (find-SameShape i)
      ∙ locate-map_some (find_order i ys) z

  pub absent-SameShape : (i : ℕ) → find_order i ys ≡ none → find_order i xs ≡ none
  unfolding map_some
  absent-SameShape i a = none-map_some (find_order i xs) (find-SameShape i ∙ ap map_some a)

pub shape-renumber : (n : ℕ) (os : OrderQueue) → SameShape (renumber n os) os
unfolding renumber
shape-renumber n [] = refl
shape-renumber n (o ∷ os) = ap (λ r. unplaced o ∷ r) (shape-renumber ((n + 1) % 2 ^ 32) os)

pub IsResting-renumber :
    (s : Side) (p : ℤ) (n : ℕ) (os : OrderQueue)
    → All (IsResting s p) os
    → All (IsResting s p) (renumber n os)
unfolding renumber
IsResting-renumber s p n [] a = tt
IsResting-renumber s p n (o ∷ os) a = (
  record {
    on_side = a.0.on_side;
    at_price = a.0.at_price;
    shown = a.0.shown;
    hidden = a.0.hidden;
    open_qty = a.0.open_qty;
  },
  IsResting-renumber s p ((n + 1) % 2 ^ 32) os a.1,
)
