-- ===== src/Pool/Tests.antt =====
-- Runs of a pool of three.
use hfttoolset.Pool.Allocate.{IsAllocated, allocate-IsAllocated}
use hfttoolset.Pool.Release.{IsReleased}
use hfttoolset.Base.{ℕ, suc, true, false, List, [], ◌∷◌, none, some, ◌+◌, ◌≡◌, refl, length, arith}
use hfttoolset.Pool.{
  MemoryPool, slot_at, build_free_list, new_pool, allocate, allocate_at, deallocate, available,
  release, destruct_slots, destruct_pool,
}
use hfttoolset.Pool.Free.{IsPool}
use hfttoolset.Pool.Lifetime.{
  Lifetimes, Call, allocates, deallocates, call_all, new_lifetimes, total, destruct_pool-call_all,
}
use hfttoolset.Pool.Cycle.{new_pool-IsPool, deallocate-IsReleased}

abbrev fresh : MemoryPool ℕ
fresh = new_pool 3

fresh-IsPool : IsPool 3 fresh (0 ∷ 1 ∷ 2 ∷ [])
fresh-IsPool = new_pool-IsPool ℕ 3 (omega arith)

allocate-IsAllocated_example : IsAllocated 3 7 fresh (0 ∷ 1 ∷ 2 ∷ []) (allocate 3 7 fresh)
allocate-IsAllocated_example = allocate-IsAllocated 3 7 fresh (0 ∷ 1 ∷ 2 ∷ []) fresh-IsPool

abbrev free_slots : List ℕ
free_slots = 1 ∷ 2 ∷ []

abbrev one_out : MemoryPool ℕ
one_out = (allocate 3 7 fresh).1

one_out-IsPool : IsPool 3 one_out (1 ∷ 2 ∷ [])
one_out-IsPool = (allocate-IsAllocated 3 7 fresh (0 ∷ 1 ∷ 2 ∷ []) fresh-IsPool).4

given : (slot_at one_out 0).in_use ≡ true
unfolding allocate allocate_at new_pool build_free_list
given = refl

deallocate-IsReleased_example :
    (p' : MemoryPool ℕ) × (deallocate 3 (some 0) one_out ≡ some p')
    × IsReleased 3 0 one_out free_slots p'
    × (available 3 one_out ≡ length free_slots)
    × (available 3 p' ≡ suc (length free_slots))
deallocate-IsReleased_example =
    deallocate-IsReleased 3 one_out 0 free_slots one_out-IsPool (omega arith) given

abbrev three_calls : List (Call ℕ)
three_calls = allocates 7 ∷ allocates 9 ∷ deallocates (some 0) ∷ []

abbrev one_left : Lifetimes ℕ
one_left = record {
  pool = record {
    slots =
        record { storage = none; next_free = 2; in_use = false }
        ∷ record { storage = some 9; next_free = 2; in_use = true }
        ∷ record { storage = none; next_free = 3; in_use = false }
        ∷ [];
    free_head = 0;
    allocated = 1;
  };
  constructed = 9 ∷ 7 ∷ [];
  destructed = 7 ∷ [];
}

run_three : call_all 3 three_calls (new_lifetimes 3) ≡ some one_left
unfolding call_all allocate allocate_at deallocate release new_pool build_free_list
run_three = refl

destructs_nine : destruct_pool one_left.pool ≡ some (9 ∷ [])
unfolding destruct_pool destruct_slots
destructs_nine = refl

destruct_pool-call_all_example :
    (left : List ℕ) × (destruct_pool one_left.pool ≡ some left)
    × ((f : ℕ → ℕ) → total f (9 ∷ 7 ∷ []) ≡ total f (7 ∷ []) + total f left)
destruct_pool-call_all_example =
    destruct_pool-call_all 3 three_calls one_left (omega arith) run_three
