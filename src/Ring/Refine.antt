-- ===== src/Ring/Refine.antt =====
-- The ring buffer, and the queue of items that it holds.
use native.Mathlib.Nat.{mod_self, mod-eq_of_lt}
use hfttoolset.Base.{
  ℕ, false, List, [], ◌∷◌, ◌++◌, Option, none, some, if◌then◌else◌, ◌==◌, ltb, set, get_elem?, ◌+◌,
  ◌-◌, ◌%◌, ◌<◌, ◌≡◌, ◌≢◌, ◌⊎◌, inl, inr, refl, sym, ap, subst, ◌∙◌, length, length-set,
  length-replicate, length-append, ltb→lt, not, arith, suc, zero, Bool-cases, dec_lt,
}
use hfttoolset.Ring.{RingBuffer, increment, empty_ring, push, pop, empty, full, size_of, capacity}

-- The first item of a queue, and the queue without it.
abbrev pub front {ℓ} : {A : Type ℓ} → List A → Option A
front [] = none
front (x ∷ xs) = some x

abbrev pub rest {ℓ} : {A : Type ℓ} → List A → List A
rest [] = []
rest (x ∷ xs) = xs

pub get_elem?-set_self {ℓ} :
    {A : Type ℓ} (xs : List A) (i : ℕ) (v : A) → i < length xs → get_elem? (set xs i v) i ≡ some v
get_elem?-set_self [] i v h = absurd (omega arith)
get_elem?-set_self (x ∷ xs) zero v h = refl
get_elem?-set_self (x ∷ xs) (suc i) v h = get_elem?-set_self xs i v (omega arith)

get_elem?-set_ne {ℓ} :
    {A : Type ℓ} (xs : List A) (i j : ℕ) (v : A) → i ≢ j → get_elem? (set xs i v) j ≡ get_elem? xs j
get_elem?-set_ne [] i j v h = refl
get_elem?-set_ne (x ∷ xs) zero zero v h = absurd (h refl)
get_elem?-set_ne (x ∷ xs) zero (suc j) v h = refl
get_elem?-set_ne (x ∷ xs) (suc i) zero v h = refl
get_elem?-set_ne (x ∷ xs) (suc i) (suc j) v h = get_elem?-set_ne xs i j v (λ e. h (ap suc e))

-- One step on the ring goes up by one, or from the last index to zero.
pub increment-cases :
    (size i : ℕ)
    → i < size
    → ((increment size i ≡ i + 1) × (i + 1 < size)) ⊎ ((increment size i ≡ 0) × (i + 1 ≡ size))
unfolding increment
increment-cases size i h = elim (dec_lt (i + 1) size) [
  | yes l ↦ inl (mod-eq_of_lt l, l)
  | no n ↦
      let e : i + 1 ≡ size = omega (arith, n) in
      inr (subst (λ s. (i + 1) % s ≡ 0) e (mod_self (i + 1)), e)
]

-- `n` items stand from index `i` on; the next one has index `h`.
abbrev pub IsEnd : ℕ → ℕ → ℕ → ℕ → Type 0
IsEnd size i n h = (i + n ≡ h) ⊎ (i + n ≡ h + size)

pub IsEnd-increment :
    (size i n h : ℕ)
    → i < size
    → h < size
    → IsEnd size i (suc n) h
    → suc n < size
    → IsEnd size (increment size i) n h × (increment size i < size)
IsEnd-increment size i n h l k e m = elim (increment-cases size i l) [
  | inl (f, g) ↦ rw f (ground (arith, e, m, g, l, k), g)
  | inr (f, g) ↦ rw f (ground (arith, e, m, g, l, k), omega arith)
]

module _ {ℓ} {A : Type ℓ} (size : ℕ) where
  -- The items stand in the buffer one after the other from an index on.
  abbrev pub Stores : List A → ℕ → List A → Type ℓ
  Stores buf i [] = Unit
  Stores buf i (x ∷ xs) = (get_elem? buf i ≡ some x) × Stores buf (increment size i) xs

  pub Stores-set :
      (buf : List A) (i h : ℕ) (v : A) (xs : List A)
      → i < size
      → h < size
      → length xs < size
      → IsEnd size i (length xs) h
      → Stores buf i xs
      → Stores (set buf h v) i xs
  Stores-set buf i h v [] l k m e s = tt
  Stores-set buf i h v (x ∷ xs) l k m e s =
      let (f, g) = IsEnd-increment size i (length xs) h l k e m in
      let ne : h ≢ i = λ q. elim e [ inl p ↦ omega arith | inr p ↦ omega arith ] in
      (
        get_elem?-set_ne buf h i v ne ∙ s.0,
        Stores-set buf (increment size i) h v xs g k (omega arith) f s.1,
      )

  pub Stores-snoc :
      (buf : List A) (i h : ℕ) (v : A) (xs : List A)
      → i < size
      → h < size
      → length xs < size
      → IsEnd size i (length xs) h
      → get_elem? buf h ≡ some v
      → Stores buf i xs
      → Stores buf i (xs ++ v ∷ [])
  Stores-snoc buf i h v [] l k m e w s =
      let same : h ≡ i = elim e [ inl p ↦ omega arith | inr p ↦ omega arith ] in
      (subst (λ j. get_elem? buf j ≡ some v) same w, tt)
  Stores-snoc buf i h v (x ∷ xs) l k m e w s =
      let (f, g) = IsEnd-increment size i (length xs) h l k e m in
      (s.0, Stores-snoc buf (increment size i) h v xs g k (omega arith) f w s.1)

  -- The ring holds the queue `xs`.
  pub record Represents (r : RingBuffer A) (xs : List A) : Type ℓ where
    pub buffer_size : length r.buffer ≡ size
    pub head_in : r.head < size
    pub tail_in : r.tail < size
    pub fits : length xs < size
    pub ends : IsEnd size r.tail (length xs) r.head
    pub stores : Stores r.buffer r.tail xs

module _ {ℓ} {A : Type ℓ} (size : ℕ) (r : RingBuffer A) (xs : List A)
    (v : Represents size r xs) where
  -- The next index is the tail exactly if one slot is free.
  pub full_test : (increment size r.head == r.tail) ≡ not (ltb (length xs) (size - 1))
  full_test = elim (increment-cases size r.head v.head_in) [
    | inl (f, g) ↦ rw f (ground (arith, g, v.ends, v.fits, v.tail_in))
    | inr (f, g) ↦ rw f (ground (arith, g, v.ends, v.fits, v.tail_in))
  ]

  -- The tail is the head exactly if the queue is empty.
  pub empty_test : (r.tail == r.head) ≡ (length xs == 0)
  empty_test = ground (arith, v.ends, v.fits, v.tail_in, v.head_in)

  -- For a ring that holds a queue, `size` is the length of the queue, `empty` says whether that
  -- is 0 and `full` whether it is the capacity.
  pub size_of-Represents :
      (size_of size r ≡ length xs)
      × (empty size r ≡ (length xs == 0))
      × (full size r ≡ (length xs == capacity size))
  unfolding size_of empty full capacity
  size_of-Represents = (
    ground (arith, v.ends, v.fits, v.tail_in, v.head_in),
    ground (arith, v.ends, v.fits, v.tail_in, v.head_in),
    full_test ∙ ground (arith, v.fits),
  )

  pub IsEnd-push :
      length xs < size - 1
      → IsEnd size r.tail (length xs + 1) (increment size r.head) × (increment size r.head < size)
  IsEnd-push m = elim (increment-cases size r.head v.head_in) [
    | inl (f, g) ↦ rw f (ground (arith, m, g, v.ends, v.tail_in), g)
    | inr (f, g) ↦ rw f (ground (arith, m, g, v.ends, v.tail_in), omega (arith, v.tail_in))
  ]

  -- A push on a ring that holds a queue puts the item at the back of the queue if the queue is
  -- shorter than the capacity; otherwise it fails and the queue stays.
  pub push-Represents :
      (x : A)
      → let (ok, r') = push size x r in
        (ok ≡ ltb (length xs) (capacity size))
        × Represents size r' (if ltb (length xs) (capacity size) then xs ++ x ∷ [] else xs)
  unfolding push capacity
  push-Represents x = elim (Bool-cases (ltb (length xs) (size - 1))) [
    | inr e ↦ rw (full_test, e) (refl, v)
    | inl e ↦
        let (f, g) = IsEnd-push (ltb→lt _ _ e) in
        rw (full_test, e)
          (
            refl,
            record {
              buffer_size = length-set r.buffer r.head x ∙ v.buffer_size;
              head_in = g;
              tail_in = v.tail_in;
              fits = omega (arith, ltb→lt (length xs) (size - 1) e, length-append xs (x ∷ []));
              ends =
                  subst (λ n. IsEnd size r.tail n (increment size r.head))
                    (sym (length-append xs (x ∷ []))) f;
              stores =
                  Stores-snoc size (set r.buffer r.head x) r.tail r.head x xs v.tail_in v.head_in
                    v.fits v.ends
                    (get_elem?-set_self r.buffer r.head x (omega (arith, v.head_in, v.buffer_size)))
                    (Stores-set size r.buffer r.tail r.head x xs v.tail_in v.head_in v.fits v.ends
                      v.stores);
            },
          )
  ]

nonzero : (n : ℕ) → (suc n == 0) ≡ false
nonzero n = ground arith

-- A pop on a ring that holds a queue takes the front of the queue; from an empty queue it
-- returns nothing and the queue stays empty.
pub pop-Represents {ℓ} :
    {A : Type ℓ} (size : ℕ) (r : RingBuffer A) (xs : List A)
    → Represents size r xs
    → let (x, r') = pop size r in (x ≡ front xs) × Represents size r' (rest xs)
unfolding pop
pop-Represents size r [] v = rw (empty_test size r [] v) (refl, v)
pop-Represents size r (x ∷ xs) v =
    let (f, g) = IsEnd-increment size r.tail (length xs) r.head v.tail_in v.head_in v.ends v.fits in
    let e : (r.tail == r.head) ≡ false = empty_test size r (x ∷ xs) v ∙ nonzero (length xs) in
    rw e (
      v.stores.0,
      record {
        buffer_size = v.buffer_size;
        head_in = v.head_in;
        tail_in = g;
        fits = omega (arith, v.fits);
        ends = f;
        stores = v.stores.1;
      },
    )

pub empty_ring-Represents {ℓ} :
    {A : Type ℓ} (size : ℕ) (fill : A) → 0 < size → Represents size (empty_ring size fill) []
unfolding empty_ring
empty_ring-Represents size fill h = record {
  buffer_size = length-replicate size fill;
  head_in = h;
  tail_in = h;
  fits = h;
  ends = inl (omega arith);
  stores = tt;
}
