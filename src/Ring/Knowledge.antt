-- ===== src/Ring/Knowledge.antt =====
-- What each of the two threads knows of the ring between its accesses.
use hfttoolset.Base.{
  ◌+◌, ℕ, List, [], ◌∷◌, ◌++◌, some, get_elem?, ◌-◌, ◌<◌, ◌≡◌, ◌∙◌, length, arith,
}
use hfttoolset.Ring.{RingBuffer}
use hfttoolset.Ring.Refine.{front, Represents}
use hfttoolset.Base.{length-append, ◌≤◌}
use hfttoolset.Ring.Spsc.{
  Producer, ready, head_loaded, admitted, written, Consumer, waiting, tail_loaded, supplied, taken,
  Threads,
}

-- What the producer knows of a ring that holds `xs`, `lag` stores of the tail after the one that it
-- saw last.
pub data Offers {ℓ} {A : Type ℓ} (size : ℕ) (r : RingBuffer A) (xs : List A) (lag : ℕ)
    : Producer A → Type ℓ where
  offers_nothing : Offers size r xs lag ready
  offers_head : (x : A) (h : ℕ) → h ≡ r.head → Offers size r xs lag (head_loaded x h)
  offers_room :
      (x : A) (h : ℕ)
      → h ≡ r.head
      → lag + length xs < size - 1
      → Offers size r xs lag (admitted x h)
  offers_item :
      (x : A) (h : ℕ)
      → h ≡ r.head
      → lag + length xs < size - 1
      → get_elem? r.buffer h ≡ some x
      → Offers size r xs lag (written x h)

-- What the consumer knows of it, `lag` stores of the head after the one that it saw last.
pub data Awaits {ℓ} {A : Type ℓ} (r : RingBuffer A) (xs : List A) (lag : ℕ)
    : Consumer A → Type ℓ where
  awaits_nothing : Awaits r xs lag waiting
  awaits_tail : (t : ℕ) → t ≡ r.tail → Awaits r xs lag (tail_loaded t)
  awaits_item :
      (t : ℕ) (x : A)
      → t ≡ r.tail
      → lag < length xs
      → front xs ≡ some x
      → Awaits r xs lag (supplied t)
  awaits_store :
      (t : ℕ) (x : A)
      → t ≡ r.tail
      → lag < length xs
      → front xs ≡ some x
      → Awaits r xs lag (taken t (some x))

-- The ring holds `xs`, which are the items sent and not received yet; also what each thread saw
-- last fits.
pub record IsQueue {ℓ} {A : Type ℓ} (size : ℕ) (s : Threads A) (xs : List A) : Type ℓ where
  pub held : Represents size s.ring xs
  pub in_order : s.sent ≡ s.received ++ xs
  pub room : s.tail_lag + length xs < size
  pub stock : s.head_lag ≤ length xs
  pub offers : Offers size s.ring xs s.tail_lag s.producer
  pub awaits : Awaits s.ring xs s.head_lag s.consumer

front-append {ℓ} :
    {A : Type ℓ} (xs ys : List A) (x : A) → front xs ≡ some x → front (xs ++ ys) ≡ some x
front-append [] ys x h = cc
front-append (y ∷ xs) ys x h = h

-- The consumer's knowledge is not the producer's to break, and the other way round.
pub Awaits-append {ℓ} :
    {A : Type ℓ} (r r' : RingBuffer A) (xs : List A) (y : A) (lag : ℕ) (c : Consumer A)
    → r.tail ≡ r'.tail
    → Awaits r xs lag c
    → Awaits r' (xs ++ y ∷ []) (lag + 1) c
Awaits-append r r' xs y lag _ e awaits_nothing = awaits_nothing
Awaits-append r r' xs y lag _ e (awaits_tail t p) = awaits_tail t (p ∙ e)
Awaits-append r r' xs y lag _ e (awaits_item t x p l f) =
    awaits_item t x (p ∙ e) (omega (arith, l, length-append xs (y ∷ [])))
      (front-append xs (y ∷ []) x f)
Awaits-append r r' xs y lag _ e (awaits_store t x p l f) =
    awaits_store t x (p ∙ e) (omega (arith, l, length-append xs (y ∷ [])))
      (front-append xs (y ∷ []) x f)

pub Awaits-same {ℓ} :
    {A : Type ℓ} (r r' : RingBuffer A) (xs : List A) (lag : ℕ) (c : Consumer A)
    → r.tail ≡ r'.tail
    → Awaits r xs lag c
    → Awaits r' xs lag c
Awaits-same r r' xs lag _ e awaits_nothing = awaits_nothing
Awaits-same r r' xs lag _ e (awaits_tail t p) = awaits_tail t (p ∙ e)
Awaits-same r r' xs lag _ e (awaits_item t x p l f) = awaits_item t x (p ∙ e) l f
Awaits-same r r' xs lag _ e (awaits_store t x p l f) = awaits_store t x (p ∙ e) l f

pub Offers-rest {ℓ} :
    {A : Type ℓ} (size : ℕ) (r : RingBuffer A) (t : ℕ) (xs : List A) (x : A) (lag : ℕ)
    (p : Producer A)
    → Offers size r (x ∷ xs) lag p
    → Offers size (record r { tail = t }) xs (lag + 1) p
Offers-rest size r t xs x lag _ offers_nothing = offers_nothing
Offers-rest size r t xs x lag _ (offers_head y h e) = offers_head y h e
Offers-rest size r t xs x lag _ (offers_room y h e l) = offers_room y h e (omega (arith, l))
Offers-rest size r t xs x lag _ (offers_item y h e l g) = offers_item y h e (omega (arith, l)) g
