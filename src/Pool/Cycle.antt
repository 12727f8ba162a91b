-- ===== src/Pool/Cycle.antt =====
-- The pool from the constructor on, and what is given back.
use hfttoolset.Pool.Release.{IsReleased, release-IsReleased}
use hfttoolset.Base.{
  ℕ, zero, suc, true, false, not, List, [], ◌∷◌, some, ◌==◌, ◌≤◌, ◌<◌, ◌≡◌, refl, sym, ap, ap₂, ◌∙◌,
  subst, length, get_or, lt→ltb, Bool-cases, inl, inr, arith, ◌+◌, ◌%◌, ◌^◌,
}
use hfttoolset.Pool.{
  Slot, MemoryPool, no_slot, slot_at, build_free_list, new_pool, release, deallocate, available,
}
use hfttoolset.Pool.Free.{is_in, IsDistinct, IsChain, IsPool, used}

-- `n` indices from `i` on.
abbrev pub range : ℕ → ℕ → List ℕ
range zero i = []
range (suc n) i = i ∷ range n (suc i)

length-range : (n i : ℕ) → length (range n i) ≡ n
length-range zero i = refl
length-range (suc n) i = ap suc (length-range n (suc i))

is_in-range_below : (n i j : ℕ) → j < i → is_in j (range n i) ≡ false
is_in-range_below zero i j h = refl
is_in-range_below (suc n) i j h =
    ground (arith, h, is_in-range_below n (suc i) j (omega (arith, h)))

pub is_in-range : (n i j : ℕ) → i ≤ j → j < i + n → is_in j (range n i) ≡ true
is_in-range zero i j h k = absurd (omega (arith, h, k))
is_in-range (suc n) i j h k = elim (Bool-cases (i == j)) [
  | inl e ↦ rw e refl
  | inr e ↦ rw e (is_in-range n (suc i) j (ground (arith, e, h)) (omega (arith, k)))
]

pub is_in-range_above : (n i j : ℕ) → i + n ≤ j → is_in j (range n i) ≡ false
is_in-range_above zero i j h = refl
is_in-range_above (suc n) i j h =
    ground (arith, h, is_in-range_above n (suc i) j (omega (arith, h)))

range-IsDistinct : (n i : ℕ) → IsDistinct (range n i)
range-IsDistinct zero i = tt
range-IsDistinct (suc n) i =
    (is_in-range_below n (suc i) i (omega arith), range-IsDistinct n (suc i))

module _ {ℓ} (A : Type ℓ) where
  abbrev built : ℕ → List (Slot A)
  built n = build_free_list n 0

  length-build_free_list : (n i : ℕ) → length (build_free_list {A = A} n i) ≡ n
  unfolding build_free_list
  length-build_free_list zero i = refl
  length-build_free_list (suc n) i = ap suc (length-build_free_list n (suc i))

  used-build_free_list : (n i : ℕ) → used (build_free_list {A = A} n i) ≡ 0
  unfolding build_free_list
  used-build_free_list zero i = refl
  used-build_free_list (suc n) i = omega (arith, used-build_free_list n (suc i))

  in_use-build_free_list :
      (n i j : ℕ) → (get_or (build_free_list {A = A} n i) j no_slot).in_use ≡ false
  unfolding build_free_list
  in_use-build_free_list zero i j = refl
  in_use-build_free_list (suc n) i zero = refl
  in_use-build_free_list (suc n) i (suc j) = in_use-build_free_list n (suc i) j

  next-build_free_list :
      (n i j : ℕ)
      → j < n
      → (get_or (build_free_list {A = A} n i) j no_slot).next_free ≡ (i + j + 1) % 2 ^ 32
  unfolding build_free_list
  next-build_free_list zero i j h = absurd (omega (arith, h))
  next-build_free_list (suc n) i zero h = omega arith
  next-build_free_list (suc n) i (suc j) h =
      next-build_free_list n (suc i) j (omega (arith, h)) ∙ omega arith

  range-IsChain :
      (capacity n i : ℕ)
      → capacity < 2 ^ 32
      → i + n ≡ capacity
      → IsChain capacity (built capacity) i (range n i)
  range-IsChain capacity zero i h e = omega (arith, e)
  range-IsChain capacity (suc n) i h e =
      let k : i < capacity = omega (arith, e) in
      (
        refl,
        k,
        subst (λ x. IsChain capacity (built capacity) x (range n (suc i)))
            (sym (next-build_free_list capacity 0 i k ∙ omega (arith, k, h)))
            (range-IsChain capacity n (suc i) h (omega (arith, e))),
      )

  -- From the constructor on, every slot is free.
  pub new_pool-IsPool :
      (capacity : ℕ)
      → capacity < 2 ^ 32
      → IsPool {A = A} capacity (new_pool capacity) (range capacity 0)
  unfolding new_pool
  new_pool-IsPool capacity h = record {
    size = length-build_free_list capacity 0;
    small = h;
    chain = range-IsChain capacity capacity 0 h (omega arith);
    distinct = range-IsDistinct capacity 0;
    exact = λ i k.
        in_use-build_free_list capacity 0 i
        ∙ sym (ap not (is_in-range capacity 0 i (omega arith) (omega (arith, k))));
    count = sym (used-build_free_list capacity 0);
    total =
        ap₂ (λ x y. x + y) (used-build_free_list capacity 0) (length-range capacity 0)
        ∙ omega arith;
  }

module _ {ℓ} {A : Type ℓ} (capacity : ℕ) where
  -- On a pool with these free slots, `deallocate` of a slot that was given out passes its
  -- assertions and makes the slot the first free one; every other slot stays as it was. The
  -- number of free slots is what `available` says before and after.
  pub deallocate-IsReleased :
      (p : MemoryPool A) (i : ℕ) (free : List ℕ)
      → IsPool capacity p free
      → i < capacity
      → (slot_at p i).in_use ≡ true
      → (p' : MemoryPool A) × (deallocate capacity (some i) p ≡ some p')
        × IsReleased capacity i p free p'
        × (available capacity p ≡ length free)
        × (available capacity p' ≡ suc (length free))
  unfolding deallocate available
  deallocate-IsReleased p i free v l u =
      let w = release-IsReleased capacity p i free v l u in
      (
        release capacity i p,
        rw (lt→ltb i capacity l, u) refl,
        w,
        omega (arith, v.count, v.total, v.small),
        omega (arith, w.0.count, w.0.total, w.0.small),
      )
