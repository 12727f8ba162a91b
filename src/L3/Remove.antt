-- ===== src/L3/Remove.antt =====
-- An order out of its queue, and its level out of the map: `cancel_order` on the levels.
use mathlib.Core.List.{append_assoc}
use hfttoolset.Base.{
  ℕ, ℤ, eqb_ℤ, ◌≡◌, sym, subst, ap, inl, inr, true, false, [], ◌∷◌, ◌++◌, All, some, Bool-cases,
  eqb_ℤ_eq, arith, ◌==◌,
}
use hfttoolset.Types.{Side, buy, sell}
use hfttoolset.L3.State.{
  L3Order, OrderQueue, PriceLevels, before, find_level, set_level, erase_level, find_order,
  erase_order,
}
use hfttoolset.L3.Valid.{IsResting, IsSorted, flat}

-- `o` is in `old` between `xs` and `ys`.
abbrev pub Holds : L3Order → OrderQueue → OrderQueue → Type 0
Holds o old rest = (xs : OrderQueue) × (ys : OrderQueue) × (old ≡ xs ++ o ∷ ys) × (rest ≡ xs ++ ys)

pub erase_order-Holds :
    (i : ℕ) (os : OrderQueue) (o : L3Order)
    → find_order i os ≡ some o
    → Holds o os (erase_order i os)
unfolding find_order erase_order
erase_order-Holds i [] o h = cc
erase_order-Holds i (q ∷ os) o h = elim (Bool-cases (q.id == i)) [
  | inl e ↦ ([], os, ground arith, rw e)
  | inr e ↦
      let (xs, ys, old, rest) = erase_order-Holds i os o (ground arith) in
      (q ∷ xs, ys, ap (λ l. q ∷ l) old, rw (e, rest))
]

pub find_order-id : (i : ℕ) (os : OrderQueue) (o : L3Order) → find_order i os ≡ some o → o.id ≡ i
unfolding find_order
find_order-id i [] o h = cc
find_order-id i (q ∷ os) o h = ground (arith, find_order-id i os o)

pub IsResting-erase_order :
    (s : Side) (p : ℤ) (i : ℕ) (os : OrderQueue)
    → All (IsResting s p) os
    → All (IsResting s p) (erase_order i os)
unfolding erase_order
IsResting-erase_order s p i [] a = tt
IsResting-erase_order s p i (q ∷ os) a = elim (Bool-cases (q.id == i)) [
  | inl e ↦ rw e a.1
  | inr e ↦ rw e (a.0, IsResting-erase_order s p i os a.1)
]

-- The level at `p` stands between others: erased, or with another queue.
abbrev pub At : Side → ℤ → OrderQueue → PriceLevels → Type 0
At s p os ls =
    (before_it : OrderQueue) × (after_it : OrderQueue) × (flat ls ≡ before_it ++ (os ++ after_it))
    × (flat (erase_level p ls) ≡ before_it ++ after_it)
    × ((qs : OrderQueue) → flat (set_level s p qs ls) ≡ before_it ++ (qs ++ after_it))

not_before : (s : Side) (p q : ℤ) → before s q p ≡ true → before s p q ≡ false
not_before buy p q h = ground arith
not_before sell p q h = ground arith

-- A price that is found has what all prices have.
pub price-find_level :
    (P : ℤ → Type 0) (p : ℤ) (ls : PriceLevels) (os : OrderQueue)
    → find_level p ls ≡ some os
    → All (λ l. P l.0) ls
    → P p
unfolding find_level
price-find_level P p [] os h a = cc
price-find_level P p ((q, qs) ∷ ls) os h a = elim (Bool-cases (eqb_ℤ q p)) [
  | inl e ↦ subst P (eqb_ℤ_eq q p e) a.0
  | inr e ↦ price-find_level P p ls os (rw e at h) a.1
]

pub find_level-At :
    (s : Side) (p : ℤ) (ls : PriceLevels) (os : OrderQueue)
    → IsSorted s ls
    → find_level p ls ≡ some os
    → At s p os ls
unfolding find_level erase_level set_level
find_level-At s p [] os a h = cc
find_level-At s p ((q, qs) ∷ ls) os a h = elim (Bool-cases (eqb_ℤ q p)) [
  | inl e ↦
      let same : qs ≡ os = ground arith in
      ([], flat ls, ap (λ r. r ++ flat ls) same, rw e, λ rs. rw e)
  | inr e ↦
      let (xs, ys, old, gone, new) = find_level-At s p ls os a.1 (rw e at h) in
      let later = price-find_level (λ r. before s q r ≡ true) p ls os (rw e at h) a.0 in
      (
        qs ++ xs,
        ys,
        rw old (sym (append_assoc qs xs (os ++ ys))),
        rw (e, gone) (sym (append_assoc qs xs ys)),
        λ rs. rw (e, not_before s p q later, new rs) (sym (append_assoc qs xs (rs ++ ys))),
      )
]

pub prices-erase_level :
    (P : ℤ × OrderQueue → Type 0) (p : ℤ) (ls : PriceLevels) → All P ls → All P (erase_level p ls)
unfolding erase_level
prices-erase_level P p [] a = tt
prices-erase_level P p ((q, qs) ∷ ls) a = elim (Bool-cases (eqb_ℤ q p)) [
  | inl e ↦ rw e a.1
  | inr e ↦ rw e (a.0, prices-erase_level P p ls a.1)
]

pub IsSorted-erase_level :
    (s : Side) (p : ℤ) (ls : PriceLevels) → IsSorted s ls → IsSorted s (erase_level p ls)
unfolding erase_level
IsSorted-erase_level s p [] a = tt
IsSorted-erase_level s p ((q, qs) ∷ ls) a = elim (Bool-cases (eqb_ℤ q p)) [
  | inl e ↦ rw e a.1
  | inr e ↦
      rw e
        (prices-erase_level (λ l. before s q l.0 ≡ true) p ls a.0, IsSorted-erase_level s p ls a.1)
]
