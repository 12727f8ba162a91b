-- ===== src/L3/Held.antt =====
-- An order that the index finds is in the queue of its own price; taking it out of its side.
use hfttoolset.Base.{
  ℕ, ℤ, eqb_ℤ, ◌≡◌, sym, subst, inl, inr, true, false, [], ◌∷◌, All, none, some, length,
  length-append, suc, ◌==◌, Bool-cases, Option-cases, eqb_ℤ_refl, arith,
}
use hfttoolset.Types.{Side, buy, sell}
use hfttoolset.L3.State.{L3Order, OrderQueue, PriceLevels, before, find_order, find_level}
use hfttoolset.L3.Valid.{IsResting, IsLevel, IsSorted, IsDistinct, flat}
use hfttoolset.L3.Orders.{find_order-append, IsDistinct-append, IsDistinct-split}
use hfttoolset.L3.Remove.{Holds, price-find_level}

-- What the level of an order is.
abbrev pub InLevel : Side → ℕ → L3Order → PriceLevels → Type 0
InLevel s i o ls =
    (os : OrderQueue) × (find_level o.price ls ≡ some os)
    × (find_order i os ≡ some o)
    × IsResting s o.price o

find-IsResting :
    (s : Side) (p : ℤ) (i : ℕ) (os : OrderQueue) (o : L3Order)
    → All (IsResting s p) os
    → find_order i os ≡ some o
    → IsResting s p o
unfolding find_order
find-IsResting s p i [] o a h = cc
find-IsResting s p i (q ∷ os) o a h = elim (Bool-cases (q.id == i)) [
  | inl e ↦ let same : q ≡ o = ground arith in subst (IsResting s p) same a.0
  | inr e ↦ find-IsResting s p i os o a.1 (ground arith)
]

before_ne_later : (s : Side) (p q : ℤ) → before s p q ≡ true → eqb_ℤ p q ≡ false
before_ne_later buy p q h = ground arith
before_ne_later sell p q h = ground arith

nothing_found : (i : ℕ) (o : L3Order) → ¬ (find_order i [] ≡ some o)
unfolding find_order
nothing_found i o h = cc

-- An order found in a side is found in the queue of its own price.
pub flat-InLevel :
    (s : Side) (i : ℕ) (o : L3Order) (ls : PriceLevels)
    → All (IsLevel s) ls
    → IsSorted s ls
    → find_order i (flat ls) ≡ some o
    → InLevel s i o ls
unfolding find_level
flat-InLevel s i o [] v a h = absurd (nothing_found i o h)
flat-InLevel s i o ((p, os) ∷ ls) v a h = elim (Option-cases (find_order i os)) [
  | inr (q, e) ↦
      let same : q ≡ o = ground (arith, find_order-append i os (flat ls)) in
      let found = subst (λ r. find_order i os ≡ some r) same e in
      let r = find-IsResting s p i os o v.0.1 found in
      (
        os,
        rw (eqb_ℤ_refl p o.price (sym r.at_price)),
        found,
        subst (λ c. IsResting s c o) (sym r.at_price) r,
      )
  | inl e ↦
      let (qs, level, found, r) =
        flat-InLevel s i o ls v.1 a.1 (ground (arith, find_order-append i os (flat ls))) in
      let later = price-find_level (λ c. before s p c ≡ true) o.price ls qs level a.0 in
      (qs, rw (before_ne_later s p o.price later) level, found, r)
]

module _ (o : L3Order) (old rest : OrderQueue) (h : Holds o old rest) where
  pub length-Holds : length old ≡ suc (length rest)
  length-Holds =
      let (xs, ys, e, f) = h in
      rw (e, f, length-append xs (o ∷ ys), length-append xs ys) (omega arith)

  pub IsDistinct-Holds : IsDistinct old → IsDistinct rest × (find_order o.id rest ≡ none)
  unfolding find_order
  IsDistinct-Holds d =
      let (xs, ys, e, f) = h in
      let (dx, dy, apart) = IsDistinct-split xs (o ∷ ys) (subst IsDistinct e d) in
      rw f (
        IsDistinct-append xs ys dx dy.1 (λ i. ground (arith, apart i)),
        rw (find_order-append o.id xs ys) (ground (arith, apart o.id, dy.0)),
      )

  pub find-Holds : (j : ℕ) → (o.id == j) ≡ false → find_order j rest ≡ find_order j old
  unfolding find_order
  find-Holds j ne =
      let (xs, ys, e, f) = h in
      ground (arith, e, f, find_order-append j xs ys, find_order-append j xs (o ∷ ys))
