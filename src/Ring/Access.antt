-- ===== src/Ring/Access.antt =====
-- What one access of a thread does to the queue, and what its test tells.
use hfttoolset.Base.{
  ◌+◌, ◌≤◌, ◌⊎◌, min, ℕ, false, List, [], ◌∷◌, ◌++◌, some, ◌==◌, set, get_elem?, ◌-◌, ◌<◌, ◌≡◌, inl,
  inr, refl, sym, ap, subst, ◌∙◌, length, length-set, length-append, arith,
}
use hfttoolset.Ring.{RingBuffer, increment}
use hfttoolset.Ring.Refine.{
  increment-cases, front, Represents, IsEnd, IsEnd-increment, IsEnd-push, Stores-set, Stores-snoc,
}
use hfttoolset.Ring.Spsc.{earlier}

pub min_le : (a b : ℕ) → min a b ≤ b
min_le a b = ground arith

pub has_room_at :
    (size next h t n lag : ℕ)
    → IsEnd size t n h
    → t < size
    → h < size
    → lag + n < size
    → ((next ≡ h + 1) × (h + 1 < size)) ⊎ ((next ≡ 0) × (h + 1 ≡ size))
    → (next == earlier size t lag) ≡ false
    → lag + n < size - 1
has_room_at size next h t n lag e ti hi l c d = ground (arith, e, ti, hi, l, c, d)

pub has_item_at :
    (size h t n lag : ℕ)
    → IsEnd size t n h
    → t < size
    → h < size
    → n < size
    → lag ≤ n
    → (t == earlier size h lag) ≡ false
    → lag < n
has_item_at size h t n lag e ti hi k l d = ground (arith, e, ti, hi, k, l, d)

-- The head that the producer stores: one item more.
pub Represents-snoc {ℓ} :
    {A : Type ℓ} (size : ℕ) (r : RingBuffer A) (xs : List A) (x : A)
    → Represents size r xs
    → length xs < size - 1
    → get_elem? r.buffer r.head ≡ some x
    → Represents size (record r { head = increment size r.head }) (xs ++ x ∷ [])
Represents-snoc size r xs x v l g =
    let (f, k) = IsEnd-push size r xs v l in
    record {
      buffer_size = v.buffer_size;
      head_in = k;
      tail_in = v.tail_in;
      fits = omega (arith, l, length-append xs (x ∷ []));
      ends =
          subst (λ n. IsEnd size r.tail n (increment size r.head)) (sym (length-append xs (x ∷ [])))
            f;
      stores =
          Stores-snoc size r.buffer r.tail r.head x xs v.tail_in v.head_in v.fits v.ends g v.stores;
    }

-- The write of the producer is outside of the queue.
pub Represents-write {ℓ} :
    {A : Type ℓ} (size : ℕ) (r : RingBuffer A) (xs : List A) (x : A)
    → Represents size r xs
    → Represents size (record r { buffer = set r.buffer r.head x }) xs
Represents-write size r xs x v = record {
  buffer_size = length-set r.buffer r.head x ∙ v.buffer_size;
  head_in = v.head_in;
  tail_in = v.tail_in;
  fits = v.fits;
  ends = v.ends;
  stores = Stores-set size r.buffer r.tail r.head x xs v.tail_in v.head_in v.fits v.ends v.stores;
}

-- The tail that the consumer stores: one item less.
pub Represents-rest {ℓ} :
    {A : Type ℓ} (size : ℕ) (r : RingBuffer A) (xs : List A) (x : A)
    → Represents size r (x ∷ xs)
    → Represents size (record r { tail = increment size r.tail }) xs
Represents-rest size r xs x v =
    let (f, g) = IsEnd-increment size r.tail (length xs) r.head v.tail_in v.head_in v.ends v.fits in
    record {
      buffer_size = v.buffer_size;
      head_in = v.head_in;
      tail_in = g;
      fits = omega (arith, v.fits);
      ends = f;
      stores = v.stores.1;
    }

-- What a load that sees an earlier store tells all the same.
pub has_room {ℓ} :
    {A : Type ℓ} (size : ℕ) (r : RingBuffer A) (xs : List A) (lag : ℕ)
    → Represents size r xs
    → lag + length xs < size
    → (increment size r.head == earlier size r.tail lag) ≡ false
    → lag + length xs < size - 1
has_room size r xs lag v l e = elim (increment-cases size r.head v.head_in) [
  | inl (f, g) ↦
      has_room_at size (r.head + 1) r.head r.tail (length xs) lag v.ends v.tail_in v.head_in l
        (inl (refl, g)) (ap (λ i. i == earlier size r.tail lag) (sym f) ∙ e)
  | inr (f, g) ↦
      has_room_at size 0 r.head r.tail (length xs) lag v.ends v.tail_in v.head_in l (inr (refl, g))
        (ap (λ i. i == earlier size r.tail lag) (sym f) ∙ e)
]

pub has_item {ℓ} :
    {A : Type ℓ} (size : ℕ) (r : RingBuffer A) (xs : List A) (lag : ℕ)
    → Represents size r xs
    → lag ≤ length xs
    → (r.tail == earlier size r.head lag) ≡ false
    → lag < length xs
has_item size r xs lag v l e =
    has_item_at size r.head r.tail (length xs) lag v.ends v.tail_in v.head_in v.fits l e

pub first-stored {ℓ} :
    {A : Type ℓ} (size : ℕ) (r : RingBuffer A) (xs : List A) (x : A)
    → Represents size r xs
    → front xs ≡ some x
    → get_elem? r.buffer r.tail ≡ some x
first-stored size r [] x v h = cc
first-stored size r (y ∷ ys) x v h = v.stores.0 ∙ h

pub first_of {ℓ} : {A : Type ℓ} (xs : List A) → 0 < length xs → (x : A) × (front xs ≡ some x)
first_of [] h = absurd (omega (arith, h))
first_of (x ∷ xs) h = (x, refl)
