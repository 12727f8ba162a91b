-- ===== src/Pool/Threads/Start.antt =====
-- From the constructor on.
use hfttoolset.Base.{ℕ, List, if◌then◌else◌, leb, All, ◌≡◌, ◌<◌, ◌^◌, arith, inl, inr, Bool-cases}
use hfttoolset.Pool.Free.{is_in}
use hfttoolset.Pool.Cycle.{range, is_in-range, is_in-range_above, new_pool-IsPool}
use hfttoolset.Pool.Threads.{Choice, run_all, new_sharing}
use hfttoolset.Pool.Threads.Place.{Place, outside, in_list, is_listed, IsSafe}
use hfttoolset.Pool.Threads.Safe.{Allows, run_all-StaysSafe}

module _ {ℓ} (A : Type ℓ) (capacity : ℕ) where
  -- Where the slots are before any call.
  abbrev at_first : ℕ → Place
  at_first i = if leb capacity i then outside else in_list

  listed_at_first : (i : ℕ) → is_in i (range capacity 0) ≡ is_listed (at_first i)
  listed_at_first i = elim (Bool-cases (leb capacity i)) [
    | inl e ↦ rw e (is_in-range_above capacity 0 i (ground (arith, e)))
    | inr e ↦ rw e (is_in-range capacity 0 i (omega arith) (ground (arith, e)))
  ]

  new_sharing-IsSafe :
      (a : ℕ)
      → capacity < 2 ^ 32
      → IsSafe {A = A} capacity a (new_sharing capacity) (range capacity 0) at_first
  unfolding new_sharing
  new_sharing-IsSafe a h =
      let v = new_pool-IsPool A capacity h in
      record {
        size = v.size;
        small = h;
        chain = v.chain;
        distinct = v.distinct;
        given_distinct = tt;
        known = λ i. ground arith;
        listed = listed_at_first;
        out = λ i. ground arith;
        held = λ t i. ground arith;
        knows = λ t. tt;
      }

  -- However the accesses of any number of threads interleave, and whichever exchanges fail
  -- spuriously, as long as one thread alone calls `allocate`: every slot is in exactly one place.
  -- It is in the free list, which has no slot twice and follows `next_free` from the head, or in
  -- the hands of one thread that is in a call, or given out, and no slot is given out twice.
  pub run_all-StaysSafe_new :
      (a : ℕ) (moves : List (ℕ × Choice A))
      → capacity < 2 ^ 32
      → All (Allows a) moves
      → (free : List ℕ) × (place : ℕ → Place) × IsSafe capacity a
          (run_all capacity moves (new_sharing capacity))
          free
          place
  run_all-StaysSafe_new a moves h ok =
      run_all-StaysSafe capacity a moves (new_sharing capacity) ok
        (range capacity 0, at_first, new_sharing-IsSafe a h)
