-- ===== src/Pool/Threads/Place.antt =====
-- Where a slot is, beside what the code keeps: in the free list, with a thread, or given out.
use hfttoolset.Base.{
  ℕ, Bool, true, false, List, [], ◌∷◌, Option, none, some, if◌then◌else◌, leb, ◌==◌, length, ◌<◌,
  ◌^◌, ◌≡◌, ◌≢◌, ◌⊎◌, refl, arith, inl, inr, Bool-cases,
}
use hfttoolset.Pool.{MemoryPool, slot_at}
use hfttoolset.Pool.Free.{is_in, IsDistinct, IsChain}
use hfttoolset.Pool.Threads.{
  Standing, head_loaded, next_loaded, exchanged, marked, counted, constructed, returning,
  destructed, linking, linked, Sharing, remove,
}

pub data Place : Type 0 where
  outside : Place
  in_list : Place
  given_out : Place
  with_thread : ℕ → Place

abbrev pub is_outside : Place → Bool
is_outside outside = true
is_outside _ = false

abbrev pub is_listed : Place → Bool
is_listed in_list = true
is_listed _ = false

abbrev pub is_given : Place → Bool
is_given given_out = true
is_given _ = false

abbrev pub is_with : ℕ → Place → Bool
is_with t (with_thread u) = u == t
is_with t _ = false

-- The slot that a thread has to itself.
abbrev pub slot_of {ℓ} : {A : Type ℓ} → Standing A → Option ℕ
slot_of (exchanged x i) = some i
slot_of (marked x i) = some i
slot_of (counted x i) = some i
slot_of (constructed i) = some i
slot_of (returning i) = some i
slot_of (destructed i) = some i
slot_of (linking i h) = some i
slot_of (linked i h) = some i
slot_of _ = none

abbrev pub holds : Option ℕ → ℕ → Bool
holds none i = false
holds (some j) i = j == i

-- A slot is with one thread, and then neither in the list nor given out.
pub is_with-excludes :
    (t : ℕ) (p : Place)
    → is_with t p ≡ true
    → (is_listed p ≡ false)
      × (is_given p ≡ false)
      × (is_outside p ≡ false)
      × ((u : ℕ) → t ≢ u → is_with u p ≡ false)
is_with-excludes t outside h = cc
is_with-excludes t in_list h = cc
is_with-excludes t given_out h = cc
is_with-excludes t (with_thread v) h = (refl, refl, refl, λ u n. ground (arith, h, n))

pub is_given-excludes :
    (p : Place)
    → is_given p ≡ true
    → (is_listed p ≡ false) × (is_outside p ≡ false) × ((u : ℕ) → is_with u p ≡ false)
is_given-excludes outside h = cc
is_given-excludes in_list h = cc
is_given-excludes given_out h = (refl, refl, λ u. refl)
is_given-excludes (with_thread v) h = cc

pub is_listed-excludes :
    (p : Place)
    → is_listed p ≡ true
    → (is_given p ≡ false) × (is_outside p ≡ false) × ((u : ℕ) → is_with u p ≡ false)
is_listed-excludes outside h = cc
is_listed-excludes in_list h = (refl, refl, λ u. refl)
is_listed-excludes given_out h = cc
is_listed-excludes (with_thread v) h = cc

module _ {ℓ} {A : Type ℓ} (capacity a : ℕ) where
  -- What a thread knows of the pool where it stands; only thread `a` allocates.
  abbrev pub Knows : MemoryPool A → List ℕ → ℕ → Standing A → Type 0
  Knows p free t (head_loaded x h) = (t ≡ a) × ((h ≡ capacity) ⊎ (is_in h free ≡ true))
  Knows p free t (next_loaded x h n) =
      (t ≡ a) × (is_in h free ≡ true) × ((slot_at p h).next_free ≡ n)
  Knows p free t (linked i h) = (slot_at p i).next_free ≡ h
  Knows p free t _ = Unit

  pub record IsSafe (s : Sharing A) (free : List ℕ) (place : ℕ → Place) : Type ℓ where
    pub size : length s.pool.slots ≡ capacity
    pub small : capacity < 2 ^ 32
    pub chain : IsChain capacity s.pool.slots s.pool.free_head free
    pub distinct : IsDistinct free
    pub given_distinct : IsDistinct s.given
    pub known : (i : ℕ) → is_outside (place i) ≡ leb capacity i
    pub listed : (i : ℕ) → is_in i free ≡ is_listed (place i)
    pub out : (i : ℕ) → is_in i s.given ≡ is_given (place i)
    pub held : (t i : ℕ) → holds (slot_of (s.position t)) i ≡ is_with t (place i)
    pub knows : (t : ℕ) → Knows s.pool free t (s.position t)

pub is_in-remove :
    (i j : ℕ) (js : List ℕ)
    → IsDistinct js
    → is_in j (remove i js) ≡ (if i == j then false else is_in j js)
is_in-remove i j [] d = ground arith
is_in-remove i j (k ∷ js) d = ground (arith, d.0, is_in-remove i j js d.1)

pub IsDistinct-remove : (i : ℕ) (js : List ℕ) → IsDistinct js → IsDistinct (remove i js)
IsDistinct-remove i [] d = tt
IsDistinct-remove i (k ∷ js) d = elim (Bool-cases (k == i)) [
  | inl e ↦ rw e d.1
  | inr e ↦ rw e (ground (arith, d.0, is_in-remove i k js d.1), IsDistinct-remove i js d.1)
]
