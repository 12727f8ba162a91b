-- ===== src/Pool/Threads.antt =====
-- src/common/memory_pool.h: `allocate` and `deallocate` under any number of threads, access by
-- access, with the accesses in one order. A compare-and-exchange may fail spuriously. The assertions
-- are compiled out, and a client gives back only what it was given, once.
pub mod Place
pub mod Quiet
pub mod Held
pub mod Passing
pub mod Exchange
pub mod Safe
pub mod Start
mod Tests
use hfttoolset.Base.{
  ℕ, Bool, true, false, List, [], ◌∷◌, Option, none, some, if◌then◌else◌, leb, ◌==◌, ◌&&◌, not, set,
  ◌+◌, ◌-◌, ◌%◌, ◌^◌,
}
use hfttoolset.Pool.{Slot, MemoryPool, slot_at, new_pool}
use hfttoolset.Pool.Free.{is_in}

-- Where a thread stands. In `allocate`: with the head it loaded, with the next index too, after the
-- exchange, after the write of `in_use`, after the count, after the construction. In `deallocate` of
-- a slot: before the object is destructed, before the load of the head, with the head it loaded,
-- after the write of `next_free`, after the exchange.
pub data Standing {ℓ} (A : Type ℓ) : Type ℓ where
  idle : Standing A
  head_loaded : A → ℕ → Standing A
  next_loaded : A → ℕ → ℕ → Standing A
  exchanged : A → ℕ → Standing A
  marked : A → ℕ → Standing A
  counted : A → ℕ → Standing A
  constructed : ℕ → Standing A
  returning : ℕ → Standing A
  destructed : ℕ → Standing A
  linking : ℕ → ℕ → Standing A
  linked : ℕ → ℕ → Standing A
  pushed : Standing A

-- `given` has the slots that `allocate` returned and that no call gives back yet.
pub record Sharing {ℓ} (A : Type ℓ) : Type ℓ where
  pub pool : MemoryPool A
  pub position : ℕ → Standing A
  pub given : List ℕ

-- What a thread does next: it calls, or it goes on, where an exchange may fail spuriously.
pub data Choice {ℓ} (A : Type ℓ) : Type ℓ where
  call_allocate : A → Choice A
  call_deallocate : ℕ → Choice A
  go_on : Bool → Choice A

abbrev pub may_fail {ℓ} : {A : Type ℓ} → Choice A → Bool
may_fail (go_on b) = b
may_fail _ = false

abbrev pub put {ℓ} : {A : Type ℓ} → (ℕ → A) → ℕ → A → ℕ → A
put f i a j = if i == j then a else f j

abbrev pub remove : ℕ → List ℕ → List ℕ
remove i [] = []
remove i (j ∷ js) = if j == i then js else j ∷ remove i js

module _ {ℓ} {A : Type ℓ} where
  -- Thread `t` goes to `p`.
  abbrev pub go : ℕ → Standing A → Sharing A → Sharing A
  go t p s = record s { position = put s.position t p }

  abbrev pub with_slot : ℕ → Slot A → Sharing A → Sharing A
  with_slot i r s = record s { pool = record s.pool { slots = set s.pool.slots i r } }

  abbrev pub with_head : ℕ → Sharing A → Sharing A
  with_head h s = record s { pool = record s.pool { free_head = h } }

  abbrev pub with_count : ℕ → Sharing A → Sharing A
  with_count n s = record s { pool = record s.pool { allocated = n } }

  unfoldable pub begin : ℕ → Choice A → Sharing A → Sharing A
  begin t (call_allocate x) s = go t (head_loaded x s.pool.free_head) s
  begin t (call_deallocate i) s =
      if is_in i s.given then go t (returning i) (record s { given = remove i s.given }) else s
  begin t (go_on b) s = s

  module _ (capacity : ℕ) where
    unfoldable pub step_at : ℕ → Choice A → Standing A → Sharing A → Sharing A
    step_at t c idle s = begin t c s
    step_at t c (head_loaded x head) s =
        if leb capacity head
        then go t idle s
        else go t (next_loaded x head (slot_at s.pool head).next_free) s
    step_at t c (next_loaded x head next) s =
        if (s.pool.free_head == head) && not (may_fail c)
        then go t (exchanged x head) (with_head next s)
        else go t (head_loaded x s.pool.free_head) s
    step_at t c (exchanged x head) s =
        go t (marked x head) (with_slot head (record (slot_at s.pool head) { in_use = true }) s)
    step_at t c (marked x head) s =
        go t (counted x head) (with_count ((s.pool.allocated + 1) % 2 ^ 64) s)
    step_at t c (counted x head) s =
        go t (constructed head)
          (with_slot head (record (slot_at s.pool head) { storage = some x }) s)
    step_at t c (constructed head) s = go t idle (record s { given = head ∷ s.given })
    step_at t c (returning idx) s =
        go t (destructed idx)
          (with_slot idx (record (slot_at s.pool idx) { storage = none; in_use = false }) s)
    step_at t c (destructed idx) s = go t (linking idx s.pool.free_head) s
    step_at t c (linking idx head) s =
        go t (linked idx head) (with_slot idx (record (slot_at s.pool idx) { next_free = head }) s)
    step_at t c (linked idx head) s =
        if (s.pool.free_head == head) && not (may_fail c)
        then go t pushed (with_head (idx % 2 ^ 32) s)
        else go t (linking idx s.pool.free_head) s
    step_at t c pushed s = go t idle (with_count ((s.pool.allocated + (2 ^ 64 - 1)) % 2 ^ 64) s)

    unfoldable pub step : ℕ × Choice A → Sharing A → Sharing A
    step (t, c) s = step_at t c (s.position t) s

    unfoldable pub run_all : List (ℕ × Choice A) → Sharing A → Sharing A
    run_all [] s = s
    run_all (m ∷ ms) s = run_all ms (step m s)

    unfoldable pub new_sharing : Sharing A
    new_sharing = record { pool = new_pool capacity; position = λ t. idle; given = [] }
