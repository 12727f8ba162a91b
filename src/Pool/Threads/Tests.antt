-- ===== src/Pool/Threads/Tests.antt =====
-- Runs of two threads on a pool of two slots.
use hfttoolset.Base.{ℕ, true, false, List, [], ◌∷◌, ◌++◌, ◌≡◌, refl, arith, All}
use hfttoolset.Pool.{build_free_list, new_pool}
use hfttoolset.Pool.Threads.{
  Choice, call_allocate, call_deallocate, go_on, begin, step_at, step, run_all, new_sharing,
}
use hfttoolset.Pool.Threads.Place.{Place, IsSafe}
use hfttoolset.Pool.Threads.Safe.{Allows}
use hfttoolset.Pool.Threads.Start.{run_all-StaysSafe_new}

abbrev goes : ℕ → ℕ × Choice ℕ
goes t = (t, go_on false)

-- The rest of a call of `allocate`, and of `deallocate`, whose exchange succeeds at once.
abbrev rest_of_allocate : ℕ → List (ℕ × Choice ℕ)
rest_of_allocate t = goes t ∷ goes t ∷ goes t ∷ goes t ∷ goes t ∷ goes t ∷ []

abbrev allocation : ℕ → List (ℕ × Choice ℕ)
allocation t = (t, call_allocate 7) ∷ rest_of_allocate t

abbrev deallocation : ℕ → ℕ → List (ℕ × Choice ℕ)
deallocation t i = (t, call_deallocate i) ∷ goes t ∷ goes t ∷ goes t ∷ goes t ∷ goes t ∷ []

-- Thread 0 loads the head and the next index and is overtaken: thread 1 takes both slots and gives
-- the first one back. The exchange of thread 0 then succeeds with an index that is not free.
abbrev overtaken : List (ℕ × Choice ℕ)
overtaken =
    (0, call_allocate 5) ∷ goes 0 ∷ allocation 1
    ++ allocation 1
    ++ deallocation 1 0
    ++ goes 0 ∷ goes 0 ∷ goes 0 ∷ goes 0 ∷ goes 0 ∷ []

given_twice : (run_all 2 (overtaken ++ allocation 1) (new_sharing 2)).given ≡ 1 ∷ 0 ∷ 1 ∷ []
unfolding run_all step step_at begin new_sharing new_pool build_free_list
given_twice = refl

-- Thread 0 allocates; thread 1 gives a slot back between two accesses of thread 0, and one exchange
-- fails spuriously.
abbrev shared_out : List (ℕ × Choice ℕ)
shared_out =
    allocation 0
    ++ (0, call_allocate 8) ∷ goes 0 ∷ deallocation 1 0
    ++ (0, go_on true) ∷ goes 0 ∷ []

shared_out-Allows : All (Allows 0) shared_out
shared_out-Allows = (
  refl,
  (
    tt,
    (tt, (tt, (tt, (tt, (tt, (refl, (tt, (tt, (tt, (tt, (tt, (tt, (tt, (tt, (tt, tt))))))))))))))),
  ),
)

run_all-StaysSafe_new_example :
    (free : List ℕ) × (place : ℕ → Place) × IsSafe 2 0
      (run_all 2 shared_out (new_sharing 2))
      free
      place
run_all-StaysSafe_new_example =
    run_all-StaysSafe_new ℕ 2 0 shared_out (omega arith) shared_out-Allows
