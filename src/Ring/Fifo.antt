-- ===== src/Ring/Fifo.antt =====
-- The interleavings of one producer and one consumer: the ring is a queue between them.
use hfttoolset.Base.{
  ◌+◌, ◌≤◌, min, ℕ, List, [], ◌∷◌, ◌++◌, some, ◌==◌, set, get_elem?, ◌<◌, ◌≡◌, inl, inr, refl, sym,
  ap, subst, ◌∙◌, length, length-append, arith, Bool-cases,
}
use mathlib.Core.List.{append_assoc}
use hfttoolset.Ring.{increment}
use hfttoolset.Ring.Refine.{front, Represents, get_elem?-set_self, empty_ring-Represents}
use hfttoolset.Ring.Spsc.{
  earlier, Producer, Consumer, tail_loaded, supplied, taken, Threads, Move, producing, consuming,
  produce_at, consume_at, move, interleave, new_threads,
}
use hfttoolset.Ring.Knowledge.{
  Offers, offers_nothing, offers_head, offers_room, offers_item, Awaits, awaits_nothing,
  awaits_tail, awaits_item, awaits_store, IsQueue, Awaits-append, Awaits-same, Offers-rest,
}
use hfttoolset.Ring.Access.{
  min_le, Represents-snoc, Represents-write, Represents-rest, has_room, has_item, first-stored,
  first_of,
}

-- After a move some queue is held again.
abbrev pub IsQueued {ℓ} : {A : Type ℓ} → ℕ → Threads A → Type ℓ
IsQueued {A} size s = (xs : List A) × IsQueue size s xs

produce-IsQueued {ℓ} :
    {A : Type ℓ} (size : ℕ) (item : A) (back : ℕ) (s : Threads A) (xs : List A) (p : Producer A)
    → IsQueue size s xs
    → Offers size s.ring xs s.tail_lag p
    → IsQueued size (produce_at size item back p s)
unfolding produce_at
produce-IsQueued size item back s xs _ v offers_nothing = (
  xs,
  record {
    held = v.held;
    in_order = v.in_order;
    room = v.room;
    stock = v.stock;
    offers = offers_head item s.ring.head refl;
    awaits = v.awaits;
  },
)
produce-IsQueued size item back s xs _ v (offers_head x h e) =
    let lag = min back s.tail_lag in
    let fits : lag + length xs < size = omega (arith, v.room, min_le back s.tail_lag) in
    elim (Bool-cases (increment size h == earlier size s.ring.tail lag)) [
      | inl f ↦ rw f (
        xs,
        record {
          held = v.held;
          in_order = v.in_order;
          room = fits;
          stock = v.stock;
          offers = offers_nothing;
          awaits = v.awaits;
        },
      )
      | inr f ↦ rw f (
        xs,
        record {
          held = v.held;
          in_order = v.in_order;
          room = fits;
          stock = v.stock;
          offers = offers_room x h e (
              has_room size s.ring xs lag v.held fits
                (ap (λ i. increment size i == earlier size s.ring.tail lag) (sym e) ∙ f));
          awaits = v.awaits;
        },
      )
    ]
produce-IsQueued size item back s xs _ v (offers_room x h e l) =
    let buf = set s.ring.buffer h x in
    (
      xs,
      record {
        held =
            subst (λ i. Represents size (record s.ring { buffer = set s.ring.buffer i x }) xs)
              (sym e) (Represents-write size s.ring xs x v.held);
        in_order = v.in_order;
        room = v.room;
        stock = v.stock;
        offers = offers_item x h e l (
            get_elem?-set_self s.ring.buffer h x
              (omega (arith, v.held.head_in, v.held.buffer_size, e)));
        awaits =
            Awaits-same s.ring (record s.ring { buffer = buf }) xs s.head_lag s.consumer refl
              v.awaits;
      },
    )
produce-IsQueued size item back s xs _ v (offers_item x h e l g) = (
  xs ++ x ∷ [],
  record {
    held =
        subst (λ i. Represents size (record s.ring { head = increment size i }) (xs ++ x ∷ []))
          (sym e)
          (Represents-snoc size s.ring xs x v.held (omega (arith, l))
            (ap (get_elem? s.ring.buffer) (sym e) ∙ g));
    in_order = ap (λ ys. ys ++ x ∷ []) v.in_order ∙ append_assoc s.received xs (x ∷ []);
    room = omega (arith, l, length-append xs (x ∷ []));
    stock = omega (arith, v.stock, length-append xs (x ∷ []));
    offers = offers_nothing;
    awaits =
        Awaits-append s.ring (record s.ring { head = increment size h }) xs x s.head_lag s.consumer
          refl v.awaits;
  },
)

with_consumer {ℓ} :
    {A : Type ℓ} (size : ℕ) (s : Threads A) (xs : List A) (lag : ℕ) (c : Consumer A)
    → IsQueue size s xs
    → lag ≤ length xs
    → Awaits s.ring xs lag c
    → IsQueue size (record s { consumer = c; head_lag = lag }) xs
with_consumer size s xs lag c v l w = record {
  held = v.held;
  in_order = v.in_order;
  room = v.room;
  stock = l;
  offers = v.offers;
  awaits = w;
}

store-IsQueued {ℓ} :
    {A : Type ℓ} (size back : ℕ) (s : Threads A) (xs : List A) (x : A)
    → IsQueue size s xs
    → s.head_lag < length xs
    → front xs ≡ some x
    → IsQueued size (consume_at size back (taken s.ring.tail (some x)) s)
unfolding consume_at
store-IsQueued size back s [] x v l h = cc
store-IsQueued size back s (y ∷ ys) x v l h =
    let same : y ≡ x = cc in
    (
      ys,
      record {
        held = Represents-rest size s.ring ys y v.held;
        in_order =
            v.in_order
            ∙ ap (λ z. s.received ++ z ∷ ys) same
            ∙ sym (append_assoc s.received (x ∷ []) ys);
        room = omega (arith, v.room);
        stock = omega (arith, l);
        offers =
            Offers-rest size s.ring (increment size s.ring.tail) ys y s.tail_lag s.producer
              v.offers;
        awaits = awaits_nothing;
      },
    )

consume-IsQueued {ℓ} :
    {A : Type ℓ} (size back : ℕ) (s : Threads A) (xs : List A) (c : Consumer A)
    → IsQueue size s xs
    → Awaits s.ring xs s.head_lag c
    → IsQueued size (consume_at size back c s)
unfolding consume_at
consume-IsQueued size back s xs _ v awaits_nothing = (
  xs,
  with_consumer size s xs s.head_lag (tail_loaded s.ring.tail) v v.stock
      (awaits_tail s.ring.tail refl),
)
consume-IsQueued size back s xs _ v (awaits_tail t e) =
    let lag = min back s.head_lag in
    let stocked : lag ≤ length xs = omega (arith, v.stock, min_le back s.head_lag) in
    elim (Bool-cases (t == earlier size s.ring.head lag)) [
      | inl f ↦ rw f (
        xs,
        record {
          held = v.held;
          in_order = v.in_order;
          room = v.room;
          stock = stocked;
          offers = v.offers;
          awaits = awaits_nothing;
        },
      )
      | inr f ↦
          let l =
            has_item size s.ring xs lag v.held stocked
              (ap (λ i. i == earlier size s.ring.head lag) (sym e) ∙ f) in
          let (x, h) = first_of xs (omega (arith, l)) in
          rw f (xs, with_consumer size s xs lag (supplied t) v stocked (awaits_item t x e l h))
    ]
consume-IsQueued size back s xs _ v (awaits_item t x e l h) =
    let g = ap (get_elem? s.ring.buffer) e ∙ first-stored size s.ring xs x v.held h in
    rw g
      (xs, with_consumer size s xs s.head_lag (taken t (some x)) v v.stock (awaits_store t x e l h))
consume-IsQueued size back s xs _ v (awaits_store t x e l h) =
    subst (λ i. IsQueued size (consume_at size back (taken i (some x)) s)) (sym e)
      (store-IsQueued size back s xs x v l h)

pub interleave-IsQueued {ℓ} :
    {A : Type ℓ} (size : ℕ) (ms : List (Move A)) (s : Threads A)
    → IsQueued size s
    → IsQueued size (interleave size ms s)
unfolding interleave move
interleave-IsQueued size [] s v = v
interleave-IsQueued size (producing x back ∷ ms) s (xs, v) =
    interleave-IsQueued size ms (produce_at size x back s.producer s)
      (produce-IsQueued size x back s xs s.producer v v.offers)
interleave-IsQueued size (consuming back ∷ ms) s (xs, v) =
    interleave-IsQueued size ms (consume_at size back s.consumer s)
      (consume-IsQueued size back s xs s.consumer v v.awaits)

pub new_threads-IsQueued {ℓ} :
    {A : Type ℓ} (size : ℕ) (fill : A) → 0 < size → IsQueued size (new_threads size fill)
unfolding new_threads
new_threads-IsQueued size fill h = (
  [],
  record {
    held = empty_ring-Represents size fill h;
    in_order = refl;
    room = h;
    stock = omega arith;
    offers = offers_nothing;
    awaits = awaits_nothing;
  },
)

-- However the accesses of the two threads interleave, and however late each sees the index of the
-- other, from the constructor on the items sent are those received, in the same order, followed
-- by the queue that the ring then holds.
pub interleave-IsQueue {ℓ} :
    {A : Type ℓ} (size : ℕ) (fill : A) (ms : List (Move A))
    → 0 < size
    → let s = interleave size ms (new_threads size fill) in
      (xs : List A) × (s.sent ≡ s.received ++ xs) × Represents size s.ring xs
interleave-IsQueue size fill ms h =
    let (xs, v) =
      interleave-IsQueued size ms (new_threads size fill) (new_threads-IsQueued size fill h) in
    (xs, v.in_order, v.held)
