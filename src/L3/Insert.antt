-- ===== src/L3/Insert.antt =====
-- A new order at the back of its price level: `add_resting_order` on the levels.
use mathlib.Core.List.{append_assoc}
use hfttoolset.Base.{
  ℕ, ℤ, eqb_ℤ, ◌≡◌, refl, sym, subst, ap, ◌∙◌, inl, inr, true, false, [], ◌∷◌, ◌++◌, All, All-imp,
  Option, none, some, length, length-append, suc, if◌then◌else◌, Bool-cases, eqb_ℤ_eq, arith, ◌==◌,
}
use hfttoolset.Types.{Side, buy, sell}
use hfttoolset.L3.State.{
  L3Order, OrderQueue, PriceLevels, before, find_level, set_level, find_order,
}
use hfttoolset.L3.Valid.{IsResting, IsLevel, IsSorted, IsDistinct, flat}
use hfttoolset.L3.Orders.{absent-append, find_order-append, IsDistinct-append, IsDistinct-split}

-- The queue of a level, if there is one.
abbrev pub queue_or_nil : Option OrderQueue → OrderQueue
queue_or_nil none = []
queue_or_nil (some os) = os

before_total : (s : Side) (p q : ℤ) → eqb_ℤ q p ≡ false → before s p q ≡ false → before s q p ≡ true
before_total buy p q e h = ground arith
before_total sell p q e h = ground arith

before_trans :
    (s : Side) (p q r : ℤ) → before s p q ≡ true → before s q r ≡ true → before s p r ≡ true
before_trans buy p q r h k = ground arith
before_trans sell p q r h k = ground arith

before_ne : (s : Side) (p q : ℤ) → before s p q ≡ true → eqb_ℤ q p ≡ false
before_ne buy p q h = ground arith
before_ne sell p q h = ground arith

pub All-after :
    (s : Side) (p q : ℤ) (ls : PriceLevels)
    → before s p q ≡ true
    → All (λ l. before s q l.0 ≡ true) ls
    → All (λ l. before s p l.0 ≡ true) ls
All-after s p q ls h =
    All-imp (λ l. before s q l.0 ≡ true) (λ l. before s p l.0 ≡ true)
      (λ l k. before_trans s p q l.0 h k) ls

pub find_level-none :
    (s : Side) (p : ℤ) (ls : PriceLevels)
    → All (λ l. before s p l.0 ≡ true) ls
    → find_level p ls ≡ none
unfolding find_level
find_level-none s p [] a = refl
find_level-none s p ((q, os) ∷ ls) a = rw (before_ne s p q a.0) (find_level-none s p ls a.1)

pub prices-set_level :
    (P : ℤ → Type 0) (s : Side) (p : ℤ) (os : OrderQueue) (ls : PriceLevels)
    → P p
    → All (λ l. P l.0) ls
    → All (λ l. P l.0) (set_level s p os ls)
unfolding set_level
prices-set_level P s p os [] h a = (h, tt)
prices-set_level P s p os ((q, qs) ∷ ls) h a = elim (Bool-cases (eqb_ℤ q p)) [
  | inl e ↦ rw e a
  | inr e ↦ elim (Bool-cases (before s p q)) [
    | inl f ↦ rw (e, f) (h, a)
    | inr f ↦ rw (e, f) (a.0, prices-set_level P s p os ls h a.1)
  ]
]

pub IsSorted-set_level :
    (s : Side) (p : ℤ) (os : OrderQueue) (ls : PriceLevels)
    → IsSorted s ls
    → IsSorted s (set_level s p os ls)
unfolding set_level
IsSorted-set_level s p os [] a = (tt, tt)
IsSorted-set_level s p os ((q, qs) ∷ ls) a = elim (Bool-cases (eqb_ℤ q p)) [
  | inl e ↦ rw e a
  | inr e ↦ elim (Bool-cases (before s p q)) [
    | inl f ↦ rw (e, f) ((f, All-after s p q ls f a.0), a)
    | inr f ↦
        rw (e, f)
          (
            prices-set_level (λ r. before s q r ≡ true) s p os ls (before_total s p q e f) a.0,
            IsSorted-set_level s p os ls a.1,
          )
  ]
]

pub IsLevel-set_level :
    (s : Side) (p : ℤ) (os : OrderQueue) (ls : PriceLevels)
    → IsLevel s (p, os)
    → All (IsLevel s) ls
    → All (IsLevel s) (set_level s p os ls)
unfolding set_level
IsLevel-set_level s p os [] h a = (h, tt)
IsLevel-set_level s p os ((q, qs) ∷ ls) h a = elim (Bool-cases (eqb_ℤ q p)) [
  | inl e ↦ rw e (subst (λ r. IsLevel s (r, os)) (sym (eqb_ℤ_eq q p e)) h, a.1)
  | inr e ↦ elim (Bool-cases (before s p q)) [
    | inl f ↦ rw (e, f) (h, a)
    | inr f ↦ rw (e, f) (a.0, IsLevel-set_level s p os ls h a.1)
  ]
]

pub IsResting-find_level :
    (s : Side) (p : ℤ) (ls : PriceLevels)
    → All (IsLevel s) ls
    → All (IsResting s p) (queue_or_nil (find_level p ls))
unfolding find_level
IsResting-find_level s p [] a = tt
IsResting-find_level s p ((q, os) ∷ ls) a = elim (Bool-cases (eqb_ℤ q p)) [
  | inl e ↦ rw e (subst (λ r. All (IsResting s r) os) (eqb_ℤ_eq q p e) a.0.1)
  | inr e ↦ rw e (IsResting-find_level s p ls a.1)
]

-- `new` is `old` with one more order `o` somewhere in it.
abbrev pub Inserts : L3Order → OrderQueue → OrderQueue → Type 0
Inserts o old new = (xs : OrderQueue) × (ys : OrderQueue) × (old ≡ xs ++ ys) × (new ≡ xs ++ o ∷ ys)

pub find_level_here :
    (p q : ℤ) (os : OrderQueue) (ls : PriceLevels)
    → eqb_ℤ q p ≡ true
    → find_level p ((q, os) ∷ ls) ≡ some os
unfolding find_level
find_level_here p q os ls e = rw e

pub find_level_next :
    (p q : ℤ) (os : OrderQueue) (ls : PriceLevels)
    → eqb_ℤ q p ≡ false
    → find_level p ((q, os) ∷ ls) ≡ find_level p ls
unfolding find_level
find_level_next p q os ls e = rw e

pub find_level_nil : (p : ℤ) → find_level p [] ≡ none
unfolding find_level
find_level_nil p = refl

set_level-Inserts_at :
    (s : Side) (p : ℤ) (o : L3Order) (qs : OrderQueue) (ls : PriceLevels)
    → qs ≡ queue_or_nil (find_level p ls)
    → IsSorted s ls
    → Inserts o (flat ls) (flat (set_level s p (qs ++ o ∷ []) ls))
unfolding set_level
set_level-Inserts_at s p o qs [] h a = ([], [], refl, rw (h, find_level_nil p))
set_level-Inserts_at s p o qs ((q, os) ∷ ls) h a = elim (Bool-cases (eqb_ℤ q p)) [
  | inl e ↦ (
    os,
    flat ls,
    refl,
    rw (h, find_level_here p q os ls e, e) (append_assoc os (o ∷ []) (flat ls)),
  )
  | inr e ↦
      let next = h ∙ ap queue_or_nil (find_level_next p q os ls e) in
      elim (Bool-cases (before s p q)) [
        | inl f ↦
            let none_here = find_level-none s p ls (All-after s p q ls f a.0) in
            ([], os ++ flat ls, refl, rw (e, f, next, none_here))
        | inr f ↦
            let (xs, ys, old, new) = set_level-Inserts_at s p o qs ls next a.1 in
            (
              os ++ xs,
              ys,
              rw old (sym (append_assoc os xs ys)),
              rw (e, f, new) (sym (append_assoc os xs (o ∷ ys))),
            )
      ]
]

pub set_level-Inserts :
    (s : Side) (p : ℤ) (o : L3Order) (ls : PriceLevels)
    → IsSorted s ls
    → Inserts o (flat ls) (flat (set_level s p (queue_or_nil (find_level p ls) ++ o ∷ []) ls))
set_level-Inserts s p o ls = set_level-Inserts_at s p o _ ls refl

module _ (o : L3Order) (old new : OrderQueue) (h : Inserts o old new) where
  pub length-Inserts : length new ≡ suc (length old)
  length-Inserts =
      let (xs, ys, e, f) = h in
      rw (e, f, length-append xs (o ∷ ys), length-append xs ys) (omega arith)

  pub find-Inserts :
      (i : ℕ)
      → find_order o.id old ≡ none
      → find_order i new ≡ (if o.id == i then some o else find_order i old)
  unfolding find_order
  find-Inserts i a =
      let (xs, ys, e, f) = h in
      ground (
        arith,
        f,
        e,
        a,
        find_order-append i xs (o ∷ ys),
        find_order-append i xs ys,
        find_order-append o.id xs ys,
      )

  pub IsDistinct-Inserts : find_order o.id old ≡ none → IsDistinct old → IsDistinct new
  unfolding find_order
  IsDistinct-Inserts a d =
      let (xs, ys, e, f) = h in
      let (dx, dy, apart) = IsDistinct-split xs ys (subst IsDistinct e d) in
      let (ax, ay) = absent-append o.id xs ys (subst (λ os. find_order o.id os ≡ none) e a) in
      rw f (IsDistinct-append xs (o ∷ ys) dx (ay, dy) (λ i. ground (arith, apart i, ax)))
