-- ===== src/L3/Orders.antt =====
-- Orders found by id in the queues of a side.
use hfttoolset.Base.{ℕ, ◌≡◌, refl, sym, ◌∙◌, ◌⊎◌, inl, [], ◌∷◌, ◌++◌, Option, none, some, arith}
use hfttoolset.L3.State.{L3Order, OrderLocation, OrderQueue, find_order}
use hfttoolset.L3.Valid.{IsDistinct, locate}

abbrev pub first : Option L3Order → Option L3Order → Option L3Order
first none b = b
first (some a) b = some a

pub find_order-append :
    (i : ℕ) (xs ys : OrderQueue)
    → find_order i (xs ++ ys) ≡ first (find_order i xs) (find_order i ys)
unfolding find_order
find_order-append i [] ys = refl
find_order-append i (o ∷ xs) ys = ground (arith, find_order-append i xs ys)

pub first-none : (a b : Option L3Order) → first a b ≡ none → (a ≡ none) × (b ≡ none)
first-none a b h = ground arith

pub absent-append :
    (i : ℕ) (xs ys : OrderQueue)
    → find_order i (xs ++ ys) ≡ none
    → (find_order i xs ≡ none) × (find_order i ys ≡ none)
absent-append i xs ys h = first-none _ _ (sym (find_order-append i xs ys) ∙ h)

pub locate-append :
    (i : ℕ) (xs ys : OrderQueue) (other : Option OrderLocation)
    → locate (find_order i (xs ++ ys)) other
      ≡ locate (find_order i xs) (locate (find_order i ys) other)
locate-append i xs ys other = rw (find_order-append i xs ys) (ground arith)

pub locate_swap :
    (a b : Option L3Order)
    → (a ≡ none) ⊎ (b ≡ none)
    → locate a (locate b none) ≡ locate b (locate a none)
locate_swap a b h = ground arith

abbrev pub NoShared : OrderQueue → OrderQueue → Type 0
NoShared xs ys = (i : ℕ) → (find_order i xs ≡ none) ⊎ (find_order i ys ≡ none)

pub IsDistinct-append :
    (xs ys : OrderQueue) → IsDistinct xs → IsDistinct ys → NoShared xs ys → IsDistinct (xs ++ ys)
unfolding find_order
IsDistinct-append [] ys d e n = e
IsDistinct-append (o ∷ xs) ys d e n = (
  rw (find_order-append o.id xs ys, d.0) (ground (arith, n o.id)),
  IsDistinct-append xs ys d.1 e (λ i. ground (arith, n i)),
)

pub IsDistinct-split :
    (xs ys : OrderQueue) → IsDistinct (xs ++ ys) → IsDistinct xs × IsDistinct ys × NoShared xs ys
unfolding find_order
IsDistinct-split [] ys d = (tt, d, λ i. inl refl)
IsDistinct-split (o ∷ xs) ys d =
    let r = IsDistinct-split xs ys d.1 in
    (
      (ground (arith, d.0, find_order-append o.id xs ys), r.0),
      r.1,
      λ i. ground (arith, r.2 i, d.0, find_order-append o.id xs ys),
    )
