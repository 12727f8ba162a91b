-- ===== src/Pool/Threads/Safe.antt =====
-- With one allocating thread, and any number of threads that give back, no slot is lost or has two
-- owners.
use hfttoolset.Base.{
  ℕ, true, List, [], ◌∷◌, none, some, ◌==◌, leb, not, ◌&&◌, All, ◌≡◌, ◌<◌, ◌⊎◌, refl, sym, subst,
  ap, ◌∙◌, arith, inl, inr, Bool-cases, get_or-set_self,
}
use hfttoolset.Pool.{Slot, no_slot, slot_at}
use hfttoolset.Pool.Free.{is_in, IsChain}
use hfttoolset.Pool.Threads.{
  Standing, idle, head_loaded, next_loaded, exchanged, marked, counted, constructed, returning,
  destructed, linking, linked, pushed, Sharing, Choice, call_allocate, call_deallocate, go_on,
  may_fail, put, go, with_head, begin, step_at, step, run_all,
}
use hfttoolset.Pool.Threads.Place.{
  Place, in_list, given_out, with_thread, is_with-excludes, slot_of, Knows, IsSafe,
}
use hfttoolset.Pool.Threads.Quiet.{moved, recounted, rewritten}
use hfttoolset.Pool.Threads.Passing.{given, taken_back}
use hfttoolset.Pool.Threads.Exchange.{popped, linked_in}
use hfttoolset.Pool.Threads.Held.{with_it}

-- A step of a schedule in which thread `a` alone calls `allocate`.
abbrev pub Allows {ℓ} : {A : Type ℓ} → ℕ → ℕ × Choice A → Type 0
Allows a (t, call_allocate x) = t ≡ a
Allows a (t, _) = Unit

module _ {ℓ} {A : Type ℓ} (capacity a : ℕ) where
  abbrev pub StaysSafe : Sharing A → Type ℓ
  StaysSafe s = (free : List ℕ) × (place : ℕ → Place) × IsSafe capacity a s free place

  first_free :
      (slots : List (Slot A)) (h : ℕ) (free : List ℕ)
      → IsChain capacity slots h free
      → (h ≡ capacity) ⊎ (is_in h free ≡ true)
  first_free slots h [] c = inl c
  first_free slots h (i ∷ free) c = inr (ground (arith, c.0))

  popped-StaysSafe :
      (s : Sharing A) (place : ℕ → Place) (t : ℕ) (x : A) (h n : ℕ) (free : List ℕ)
      → IsSafe capacity a s free place
      → t ≡ a
      → slot_of (s.position t) ≡ none
      → s.pool.free_head ≡ h
      → is_in h free ≡ true
      → (slot_at s.pool h).next_free ≡ n
      → StaysSafe (go t (exchanged x h) (with_head n s))
  popped-StaysSafe s place t x h n [] v mine none_yet same found next = cc found
  popped-StaysSafe s place t x h n (i ∷ free) v mine none_yet same found next =
      let first : i ≡ h = sym v.chain.0 ∙ same in
      let safe =
        popped capacity a s place t x i n free v mine none_yet
          (ap (λ j. (slot_at s.pool j).next_free) first ∙ next) in
      (
        free,
        put place i (with_thread t),
        subst
            (λ j.
              IsSafe capacity a (go t (exchanged x j) (with_head n s)) free
                (put place i (with_thread t)))
            first safe,
      )

  module _ (s : Sharing A) (free : List ℕ) (place : ℕ → Place) (v : IsSafe capacity a s free place)
      (t : ℕ) (c : Choice A) where
    head_known : (s.pool.free_head ≡ capacity) ⊎ (is_in s.pool.free_head free ≡ true)
    head_known = first_free s.pool.slots s.pool.free_head free v.chain

    Knows-at : (p : Standing A) → s.position t ≡ p → Knows capacity a s.pool free t p
    Knows-at p e = subst (Knows capacity a s.pool free t) e (v.knows t)

    in_range : (i : ℕ) → slot_of (s.position t) ≡ some i → i < capacity
    in_range i mine =
        let inside =
          (is_with-excludes t (place i) (with_it capacity a s free place v t i idle mine)).2 in
        ground (arith, v.known i, inside)

    begin-StaysSafe : Allows a (t, c) → s.position t ≡ idle → StaysSafe (begin t c s)
    unfolding begin
    begin-StaysSafe ok e =
        elim c as (λ d. Allows a (t, d) → StaysSafe (begin t d s)) [
          | call_allocate x ↦ λ mine. (
            free,
            place,
            moved capacity a s free place v t (head_loaded x s.pool.free_head) (sym (ap slot_of e))
                (mine, head_known),
          )
          | call_deallocate i ↦ λ ok. elim (Bool-cases (is_in i s.given)) [
            | inl f ↦ rw f (
              free,
              put place i (with_thread t),
              taken_back capacity a s free place v t i (ap slot_of e) f,
            )
            | inr f ↦ rw f (free, place, v)
          ]
          | go_on b ↦ λ ok. (free, place, v)
        ]
          ok

    step_at-StaysSafe :
        (p : Standing A) → Allows a (t, c) → s.position t ≡ p → StaysSafe (step_at capacity t c p s)
    unfolding step_at
    step_at-StaysSafe idle ok e = begin-StaysSafe ok e
    step_at-StaysSafe (head_loaded x h) ok e =
        let k = Knows-at (head_loaded x h) e in
        elim (Bool-cases (leb capacity h)) [
          | inl f ↦
              rw f (free, place, moved capacity a s free place v t idle (sym (ap slot_of e)) tt)
          | inr f ↦ elim k.1 [
            | inl at_end ↦ absurd (ground (arith, f, at_end))
            | inr found ↦ rw f (
              free,
              place,
              moved capacity a s free place v t (next_loaded x h (slot_at s.pool h).next_free)
                  (sym (ap slot_of e)) (k.0, found, refl),
            )
          ]
        ]
    step_at-StaysSafe (next_loaded x h n) ok e =
        let k = Knows-at (next_loaded x h n) e in
        elim (Bool-cases ((s.pool.free_head == h) && not (may_fail c))) [
          | inl f ↦ rw f (
              popped-StaysSafe s place t x h n free v k.0 (ap slot_of e) (ground (arith, f)) k.1
                k.2)
          | inr f ↦ rw f (
            free,
            place,
            moved capacity a s free place v t (head_loaded x s.pool.free_head) (sym (ap slot_of e))
                (k.0, head_known),
          )
        ]
    step_at-StaysSafe (exchanged x h) ok e = (
      free,
      place,
      rewritten capacity a s free place v t (marked x h) (sym (ap slot_of e)) h _ (ap slot_of e) tt,
    )
    step_at-StaysSafe (marked x h) ok e =
        (free, place, recounted capacity a s free place v t (counted x h) (sym (ap slot_of e)) _ tt)
    step_at-StaysSafe (counted x h) ok e = (
      free,
      place,
      rewritten capacity a s free place v t (constructed h) (sym (ap slot_of e)) h _ (ap slot_of e)
          tt,
    )
    step_at-StaysSafe (constructed h) ok e =
        (free, put place h given_out, given capacity a s free place v t h (ap slot_of e))
    step_at-StaysSafe (returning i) ok e = (
      free,
      place,
      rewritten capacity a s free place v t (destructed i) (sym (ap slot_of e)) i _ (ap slot_of e)
          tt,
    )
    step_at-StaysSafe (destructed i) ok e = (
      free,
      place,
      moved capacity a s free place v t (linking i s.pool.free_head) (sym (ap slot_of e)) tt,
    )
    step_at-StaysSafe (linking i h) ok e = (
      free,
      place,
      rewritten capacity a s free place v t (linked i h) (sym (ap slot_of e)) i _ (ap slot_of e) (
          ap (λ r. r.next_free)
            (get_or-set_self s.pool.slots i _ no_slot
              (omega (arith, v.size, in_range i (ap slot_of e))))),
    )
    step_at-StaysSafe (linked i h) ok e =
        elim (Bool-cases ((s.pool.free_head == h) && not (may_fail c))) [
          | inl f ↦
              let same : s.pool.free_head ≡ h = ground (arith, f) in
              rw f (
                i ∷ free,
                put place i in_list,
                linked_in capacity a s place t i free v (ap slot_of e)
                    (Knows-at (linked i h) e ∙ sym same),
              )
          | inr f ↦ rw f (
            free,
            place,
            moved capacity a s free place v t (linking i s.pool.free_head) (sym (ap slot_of e)) tt,
          )
        ]
    step_at-StaysSafe pushed ok e =
        (free, place, recounted capacity a s free place v t idle (sym (ap slot_of e)) _ tt)

  pub run_all-StaysSafe :
      (moves : List (ℕ × Choice A)) (s : Sharing A)
      → All (Allows a) moves
      → StaysSafe s
      → StaysSafe (run_all capacity moves s)
  unfolding run_all step
  run_all-StaysSafe [] s ok v = v
  run_all-StaysSafe ((t, c) ∷ moves) s ok (free, place, v) =
      run_all-StaysSafe moves (step capacity (t, c) s) ok.1
        (step_at-StaysSafe s free place v t c (s.position t) ok.0 refl)
