-- ===== src/Ring/Tests.antt =====
-- Runs of a ring of four.
use hfttoolset.Ring.Spsc.{
  Move, producing, consuming, interleave, new_threads, ready, move, produce_at,
}
use hfttoolset.Ring.Fifo.{interleave-IsQueue}
use hfttoolset.Ring.Progress.{step_of_push, IsFailed, IsPushed, push-returns}
use hfttoolset.Base.{refl, ◌⊎◌, ℕ, ◌≡◌, List, [], ◌∷◌, ◌++◌, ltb, if◌then◌else◌, arith}
use hfttoolset.Ring.{increment, RingBuffer, empty_ring, push, pop, capacity}
use hfttoolset.Ring.Refine.{
  Represents, front, rest, empty_ring-Represents, push-Represents, pop-Represents,
}

abbrev fresh : RingBuffer ℕ
fresh = empty_ring 4 0

abbrev one_in : RingBuffer ℕ
one_in = (push 4 7 fresh).1

fresh-Represents : Represents 4 fresh []
fresh-Represents = empty_ring-Represents 4 0 (omega arith)

one_in-Represents : Represents 4 one_in (7 ∷ [])
unfolding capacity
one_in-Represents = (push-Represents 4 fresh [] fresh-Represents 7).1

push-Represents_example :
    let (ok, r') = push 4 8 one_in in
    (ok ≡ ltb 1 (capacity 4)) × Represents 4 r' (if ltb 1 (capacity 4) then 7 ∷ 8 ∷ [] else 7 ∷ [])
push-Represents_example = push-Represents 4 one_in (7 ∷ []) one_in-Represents 8

pop-Represents_example :
    let (x, r') = pop 4 one_in in (x ≡ front (7 ∷ [])) × Represents 4 r' (rest (7 ∷ []))
pop-Represents_example = pop-Represents 4 one_in (7 ∷ []) one_in-Represents

-- Two pushes and a pop, their accesses mixed.
abbrev mixed : List (Move ℕ)
mixed =
    producing 7 1
    ∷ producing 7 1
    ∷ consuming 1
    ∷ producing 7 1
    ∷ producing 7 1
    ∷ consuming 1
    ∷ producing 8 1
    ∷ consuming 1
    ∷ consuming 1
    ∷ producing 8 1
    ∷ []

interleave-IsQueue_example :
    let s = interleave 4 mixed (new_threads 4 0) in
    (xs : List ℕ) × (s.sent ≡ s.received ++ xs) × Represents 4 s.ring xs
interleave-IsQueue_example = interleave-IsQueue 4 0 mixed (omega arith)

abbrev one_push : List (Move ℕ)
one_push = producing 7 0 ∷ producing 7 0 ∷ producing 7 0 ∷ producing 7 0 ∷ []

between : (interleave 4 one_push (new_threads 4 0)).producer ≡ ready
unfolding interleave move new_threads produce_at increment empty_ring
between = refl

push-returns_example :
    let s = interleave 4 one_push (new_threads 4 0) in
    let s2 = step_of_push 4 (0 ∷ []) 8 1 (step_of_push 4 [] 8 0 s) in
    let s4 = step_of_push 4 [] 8 0 (step_of_push 4 (0 ∷ 0 ∷ []) 8 0 s2) in
    IsFailed 4 1 s s2 ⊎ IsPushed 4 8 s s4
push-returns_example =
    push-returns 4 0 one_push [] (0 ∷ []) (0 ∷ 0 ∷ []) [] 8 8 0 1 0 0 (omega arith) between
