-- ===== src/Ring/Progress.antt =====
-- A push returns after a few accesses of its thread, whatever the consumer does in between.
use hfttoolset.Base.{
  ℕ, List, [], ◌∷◌, ◌++◌, ◌==◌, ◌+◌, ◌-◌, ◌≤◌, ◌<◌, ◌≡◌, ◌⊎◌, inl, inr, refl, sym, ap, ◌∙◌, subst,
  arith, min, true, Bool-cases, length, length-append,
}
use hfttoolset.Ring.{RingBuffer, increment}
use hfttoolset.Ring.Refine.{Represents, IsEnd, increment-cases}
use hfttoolset.Ring.Spsc.{
  earlier, Producer, ready, head_loaded, admitted, written, Consumer, waiting, tail_loaded,
  supplied, taken, Threads, Move, producing, consuming, produce_at, consume_at, move, interleave,
  new_threads,
}
use hfttoolset.Ring.Knowledge.{IsQueue}
use hfttoolset.Ring.Access.{min_le}
use hfttoolset.Ring.Fifo.{IsQueued, interleave-IsQueued, new_threads-IsQueued}

-- Accesses of the consumer alone.
abbrev pub consumes {ℓ} : {A : Type ℓ} → List ℕ → List (Move A)
consumes [] = []
consumes (back ∷ bs) = consuming back ∷ consumes bs

is_full_at :
    (size next h t n lag : ℕ)
    → IsEnd size t n h
    → t < size
    → h < size
    → lag + n < size
    → ((next ≡ h + 1) × (h + 1 < size)) ⊎ ((next ≡ 0) × (h + 1 ≡ size))
    → (next == earlier size t lag) ≡ true
    → lag + n ≡ size - 1
is_full_at size next h t n lag e ti hi l c d = ground (arith, e, ti, hi, l, c, d)

-- Where the test finds the ring full, it is, but for what the producer has not seen.
is_full {ℓ} :
    {A : Type ℓ} (size : ℕ) (r : RingBuffer A) (xs : List A) (lag : ℕ)
    → Represents size r xs
    → lag + length xs < size
    → (increment size r.head == earlier size r.tail lag) ≡ true
    → lag + length xs ≡ size - 1
is_full size r xs lag v l e = elim (increment-cases size r.head v.head_in) [
  | inl (f, g) ↦
      is_full_at size (r.head + 1) r.head r.tail (length xs) lag v.ends v.tail_in v.head_in l
        (inl (refl, g)) (ap (λ i. i == earlier size r.tail lag) (sym f) ∙ e)
  | inr (f, g) ↦
      is_full_at size 0 r.head r.tail (length xs) lag v.ends v.tail_in v.head_in l (inr (refl, g))
        (ap (λ i. i == earlier size r.tail lag) (sym f) ∙ e)
]

module _ {ℓ} {A : Type ℓ} (size : ℕ) where
  interleave-append :
      (ms ns : List (Move A)) (s : Threads A)
      → interleave size (ms ++ ns) s ≡ interleave size ns (interleave size ms s)
  unfolding interleave
  interleave-append [] ns s = refl
  interleave-append (m ∷ ms) ns s = interleave-append ms ns (move size m s)

  -- The consumer leaves this of the producer as it is.
  abbrev IsUntouched : Threads A → Threads A → Type ℓ
  IsUntouched s s' =
      (s'.producer ≡ s.producer)
      × (s'.sent ≡ s.sent)
      × (s'.pushes ≡ s.pushes)
      × (s'.ring.head ≡ s.ring.head)

  consume-IsUntouched :
      (back : ℕ) (c : Consumer A) (s : Threads A) → IsUntouched s (consume_at size back c s)
  unfolding consume_at
  consume-IsUntouched back waiting s = (refl, refl, refl, refl)
  consume-IsUntouched back (tail_loaded t) s =
      elim (Bool-cases (t == earlier size s.ring.head (min back s.head_lag))) [
        | inl e ↦ rw e (refl, refl, refl, refl)
        | inr e ↦ rw e (refl, refl, refl, refl)
      ]
  consume-IsUntouched back (supplied t) s = (refl, refl, refl, refl)
  consume-IsUntouched back (taken t v) s = (refl, refl, refl, refl)

  consumes-IsUntouched :
      (bs : List ℕ) (s : Threads A) → IsUntouched s (interleave size (consumes bs) s)
  unfolding interleave move
  consumes-IsUntouched [] s = (refl, refl, refl, refl)
  consumes-IsUntouched (b ∷ bs) s =
      let (a, c, d, e) = consume-IsUntouched b s.consumer s in
      let (a', c', d', e') = consumes-IsUntouched bs (consume_at size b s.consumer s) in
      (a' ∙ a, c' ∙ c, d' ∙ d, e' ∙ e)

  -- After accesses of the consumer, one of the producer; `item` is what it pushes if it begins.
  abbrev pub step_of_push : List ℕ → A → ℕ → Threads A → Threads A
  step_of_push bs item back s = interleave size (consumes bs ++ producing item back ∷ []) s

  step_of_push-produce :
      (bs : List ℕ) (item : A) (back : ℕ) (s : Threads A) (p : Producer A)
      → s.producer ≡ p
      → step_of_push bs item back s ≡ produce_at size item back p (interleave size (consumes bs) s)
  unfolding interleave move
  step_of_push-produce bs item back s p h =
      let s' = interleave size (consumes bs) s in
      interleave-append (consumes bs) (producing item back ∷ []) s
      ∙ ap (λ q. produce_at size item back q s') ((consumes-IsUntouched bs s).0 ∙ h)

  -- A push that failed, with the tail that it saw not more than `back` stores late: the items sent
  -- and, as far as the producer has seen, not received fill the ring.
  abbrev pub IsFailed : ℕ → Threads A → Threads A → Type ℓ
  IsFailed back s s' =
      (s'.producer ≡ ready)
      × (s'.sent ≡ s.sent)
      × (s'.pushes ≡ s.pushes + 1)
      × (s'.tail_lag ≤ back)
      × (length s'.sent + s'.tail_lag ≡ length s'.received + (size - 1))

  -- A push that succeeded: the item is sent, and the ring holds what is sent and not received.
  abbrev pub IsPushed : A → Threads A → Threads A → Type ℓ
  IsPushed x s s' =
      (s'.producer ≡ ready)
      × (s'.sent ≡ s.sent ++ x ∷ [])
      × (s'.pushes ≡ s.pushes + 1)
      × ((xs : List A) × (s'.sent ≡ s'.received ++ xs) × Represents size s'.ring xs)

  -- The producer stands here, and has sent and returned what it had.
  abbrev IsAt : Producer A → Threads A → Threads A → Type ℓ
  IsAt p s s' = (s'.producer ≡ p) × (s'.sent ≡ s.sent) × (s'.pushes ≡ s.pushes)

  first_access :
      (bs : List ℕ) (x : A) (back : ℕ) (s : Threads A)
      → s.producer ≡ ready
      → IsAt (head_loaded x s.ring.head) s (step_of_push bs x back s)
        × ((step_of_push bs x back s).ring.head ≡ s.ring.head)
  unfolding produce_at
  first_access bs x back s h =
      let (p, a, b, c) = consumes-IsUntouched bs s in
      rw (step_of_push-produce bs x back s ready h) ((ap (head_loaded x) c, a, b), c)

  counted :
      (back : ℕ) (t : Threads A) (xs : List A)
      → IsQueue size t xs
      → (increment size t.ring.head == earlier size t.ring.tail (min back t.tail_lag)) ≡ true
      → length t.sent + min back t.tail_lag ≡ length t.received + (size - 1)
  counted back t xs v e =
      let lag = min back t.tail_lag in
      let fits : lag + length xs < size = omega (arith, v.room, min_le back t.tail_lag) in
      let full = is_full size t.ring xs lag v.held fits e in
      let sent = ap length v.in_order ∙ length-append t.received xs in omega (arith, full, sent)

  test_access :
      (bs : List ℕ) (x y : A) (h back : ℕ) (s : Threads A)
      → IsQueued size s
      → s.producer ≡ head_loaded x h
      → h ≡ s.ring.head
      → let s' = step_of_push bs y back s in IsFailed back s s' ⊎ IsAt (admitted x h) s s'
  unfolding produce_at
  test_access bs x y h back s q k l =
      let t = interleave size (consumes bs) s in
      let (p, a, b, c) = consumes-IsUntouched bs s in
      let (xs, v) = interleave-IsQueued size (consumes bs) s q in
      let at_head = l ∙ sym c in
      let small : min back t.tail_lag ≤ back = ground arith in
      subst (λ r. IsFailed back s r ⊎ IsAt (admitted x h) s r)
        (sym (step_of_push-produce bs y back s (head_loaded x h) k))
        (elim (Bool-cases (increment size h == earlier size t.ring.tail (min back t.tail_lag))) [
          | inl e ↦
              let full = counted back t xs v (
                ap (λ i. increment size i == earlier size t.ring.tail (min back t.tail_lag))
                  (sym at_head)
                ∙ e) in
              rw e (inl (refl, a, ap (λ n. n + 1) b, small, full))
          | inr e ↦ rw e (inr (refl, a, b))
        ])

  write_access :
      (bs : List ℕ) (x y : A) (h back : ℕ) (s : Threads A)
      → s.producer ≡ admitted x h
      → IsAt (written x h) s (step_of_push bs y back s)
  unfolding produce_at
  write_access bs x y h back s k =
      let (p, a, b, c) = consumes-IsUntouched bs s in
      rw (step_of_push-produce bs y back s (admitted x h) k) (refl, a, b)

  store_access :
      (bs : List ℕ) (x y : A) (h back : ℕ) (s : Threads A)
      → s.producer ≡ written x h
      → let s' = step_of_push bs y back s in
        (s'.producer ≡ ready) × (s'.sent ≡ s.sent ++ x ∷ []) × (s'.pushes ≡ s.pushes + 1)
  unfolding produce_at
  store_access bs x y h back s k =
      let (p, a, b, c) = consumes-IsUntouched bs s in
      rw (step_of_push-produce bs y back s (written x h) k)
        (refl, ap (λ l. l ++ x ∷ []) a, ap (λ n. n + 1) b)

-- However the accesses of the two threads interleaved from the constructor on, and whatever the
-- consumer does between the accesses of the producer: a push that begins returns. Either it has
-- failed after two accesses; then nothing is sent, and the items sent and, as far as the producer
-- has seen, not received fill the ring, where it has seen the tail at most as many stores late as
-- its load. Or it has succeeded after four; then its item is sent, and the ring holds the items
-- sent and not received.
pub push-returns {ℓ} :
    {A : Type ℓ} (size : ℕ) (fill : A) (ms : List (Move A)) (bs cs ds es : List ℕ) (x y : A)
    (b c d e : ℕ)
    → 0 < size
    → (interleave size ms (new_threads size fill)).producer ≡ ready
    → let s = interleave size ms (new_threads size fill) in
      let s2 = step_of_push size cs y c (step_of_push size bs x b s) in
      let s4 = step_of_push size es y e (step_of_push size ds y d s2) in
      IsFailed size c s s2 ⊎ IsPushed size x s s4
push-returns size fill ms bs cs ds es x y b c d e n h =
    let s = interleave size ms (new_threads size fill) in
    let s1 = step_of_push size bs x b s in
    let s2 = step_of_push size cs y c s1 in
    let s3 = step_of_push size ds y d s2 in
    let q0 =
      interleave-IsQueued size ms (new_threads size fill) (new_threads-IsQueued size fill n) in
    let q1 = interleave-IsQueued size (consumes bs ++ producing x b ∷ []) s q0 in
    let ((p1, t1, u1), k1) = first_access size bs x b s h in
    elim (test_access size cs x y s.ring.head c s1 q1 p1 (sym k1)) [
      | inl (p2, t2, u2, l, f) ↦ inl (p2, t2 ∙ t1, u2 ∙ ap (λ i. i + 1) u1, l, f)
      | inr (p2, t2, u2) ↦
          let (p3, t3, u3) = write_access size ds x y s.ring.head d s2 p2 in
          let (p4, t4, u4) = store_access size es x y s.ring.head e s3 p3 in
          let q2 = interleave-IsQueued size (consumes cs ++ producing y c ∷ []) s1 q1 in
          let q3 = interleave-IsQueued size (consumes ds ++ producing y d ∷ []) s2 q2 in
          let (xs, v) = interleave-IsQueued size (consumes es ++ producing y e ∷ []) s3 q3 in
          inr (
            p4,
            t4 ∙ ap (λ l. l ++ x ∷ []) (t3 ∙ t2 ∙ t1),
            u4 ∙ ap (λ i. i + 1) (u3 ∙ u2 ∙ u1),
            (xs, v.in_order, v.held),
          )
    ]
