-- ===== src/Pool/Free.antt =====
-- The free list: a slot is in it or given out, never both.
use hfttoolset.Base.{
  ℕ, zero, suc, Bool, true, false, not, List, [], ◌∷◌, if◌then◌else◌, ◌==◌, ◌≤◌, ◌<◌, ◌≡◌, ◌≢◌,
  refl, sym, subst, length, get_or, set, get_or-set_ne, arith, ◌+◌, ◌^◌,
}
use hfttoolset.Pool.{Slot, MemoryPool, no_slot, slot_at}

abbrev pub is_in : ℕ → List ℕ → Bool
is_in i [] = false
is_in i (j ∷ js) = if j == i then true else is_in i js

abbrev pub IsDistinct : List ℕ → Type 0
IsDistinct [] = Unit
IsDistinct (j ∷ js) = (is_in j js ≡ false) × IsDistinct js

pub is_in-ne : (i j : ℕ) (js : List ℕ) → is_in i (j ∷ js) ≡ false → (i ≢ j) × (is_in i js ≡ false)
is_in-ne i j js h = ground (arith, h)

pub is_in-tail : (i j : ℕ) (js : List ℕ) → j ≢ i → is_in i (j ∷ js) ≡ is_in i js
is_in-tail i j js h = ground (arith, h)

pub is_in_self : (i : ℕ) (js : List ℕ) → is_in i (i ∷ js) ≡ true
is_in_self i js = ground arith

pub not_free : (b : Bool) → not b ≡ true → b ≡ false
not_free true h = cc
not_free false h = refl

abbrev pub one_if : Bool → ℕ
one_if true = 1
one_if false = 0

-- The slots given out.
abbrev pub used {ℓ} : {A : Type ℓ} → List (Slot A) → ℕ
used [] = 0
used (s ∷ ss) = one_if s.in_use + used ss

pub used-set {ℓ} :
    {A : Type ℓ} (ss : List (Slot A)) (i : ℕ) (s : Slot A)
    → i < length ss
    → used (set ss i s) + one_if (get_or ss i no_slot).in_use ≡ used ss + one_if s.in_use
used-set [] i s h = absurd (omega (arith, h))
used-set (r ∷ ss) zero s h = omega arith
used-set (r ∷ ss) (suc i) s h = omega (arith, used-set ss i s (omega (arith, h)))

pub used-ge {ℓ} :
    {A : Type ℓ} (ss : List (Slot A)) (i : ℕ) → one_if (get_or ss i no_slot).in_use ≤ used ss
used-ge [] i = omega arith
used-ge (r ∷ ss) zero = omega arith
used-ge (r ∷ ss) (suc i) = omega (arith, used-ge ss i)

module _ {ℓ} {A : Type ℓ} (capacity : ℕ) where
  -- Following `next_free` from `h` gives the indices, and then the capacity.
  abbrev pub IsChain : List (Slot A) → ℕ → List ℕ → Type 0
  IsChain slots h [] = h ≡ capacity
  IsChain slots h (i ∷ is) =
      (h ≡ i) × (i < capacity) × IsChain slots (get_or slots i no_slot).next_free is

  -- The pool's free slots are those of the list, in the order in which they are given out.
  pub record IsPool (p : MemoryPool A) (free : List ℕ) : Type ℓ where
    pub size : length p.slots ≡ capacity
    pub small : capacity < 2 ^ 32
    pub chain : IsChain p.slots p.free_head free
    pub distinct : IsDistinct free
    pub exact : (i : ℕ) → i < capacity → (slot_at p i).in_use ≡ not (is_in i free)
    pub count : p.allocated ≡ used p.slots
    pub total : used p.slots + length free ≡ capacity

  pub IsChain-set :
      (slots : List (Slot A)) (i h : ℕ) (s : Slot A) (is : List ℕ)
      → is_in i is ≡ false
      → IsChain slots h is
      → IsChain (set slots i s) h is
  IsChain-set slots i h s [] n c = c
  IsChain-set slots i h s (j ∷ js) n c =
      let (ne, m) = is_in-ne i j js n in
      (
        c.0,
        c.1,
        subst (λ x. IsChain (set slots i s) x.next_free js) (sym (get_or-set_ne slots s no_slot ne))
            (IsChain-set slots i (get_or slots j no_slot).next_free s js m c.2),
      )
