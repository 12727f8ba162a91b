-- ===== src/Pool.antt =====
-- src/common/memory_pool.h: the pool of slots with its free list, one operation at a time. A pointer
-- is the index of its slot, and the storage of a slot has the object constructed in it, if any.
pub mod Free
pub mod Allocate
pub mod Release
pub mod Cycle
pub mod Lifetime
pub mod Threads
mod Tests
use hfttoolset.Base.{
  ℕ, zero, suc, Bool, true, false, ◌&&◌, List, [], ◌∷◌, Option, none, some, if◌then◌else◌, ltb, leb,
  get_or, set, ◌+◌, ◌-◌, ◌%◌, ◌^◌,
}

pub record Slot {ℓ} (A : Type ℓ) : Type ℓ where
  pub storage : Option A
  pub next_free : ℕ
  pub in_use : Bool

pub record MemoryPool {ℓ} (A : Type ℓ) : Type ℓ where
  pub slots : List (Slot A)
  pub free_head : ℕ
  pub allocated : ℕ

abbrev pub no_slot {ℓ} : {A : Type ℓ} → Slot A
no_slot = record { storage = none; next_free = 0; in_use = false }

-- `slots_[i]`, for an index in range.
abbrev pub slot_at {ℓ} : {A : Type ℓ} → MemoryPool A → ℕ → Slot A
slot_at p i = get_or p.slots i no_slot

-- The loop of the constructor: `n` slots from index `i` on.
unfoldable pub build_free_list {ℓ} : {A : Type ℓ} → ℕ → ℕ → List (Slot A)
build_free_list zero i = []
build_free_list (suc n) i =
    record { storage = none; next_free = (i + 1) % 2 ^ 32; in_use = false }
    ∷ build_free_list n (suc i)

-- The destructor of the object in a slot in use; `none`: there is none.
abbrev pub destruct_object {ℓ} : {A : Type ℓ} → Option A → Option (List A) → Option (List A)
destruct_object none xs = none
destruct_object (some x) none = none
destruct_object (some x) (some xs) = some (x ∷ xs)

-- The loop of the pool's destructor: the objects that it destructs, in their order.
unfoldable pub destruct_slots {ℓ} : {A : Type ℓ} → List (Slot A) → Option (List A)
destruct_slots [] = some []
destruct_slots (s ∷ ss) =
    let rest = destruct_slots ss in if s.in_use then destruct_object s.storage rest else rest

unfoldable pub destruct_pool {ℓ} : {A : Type ℓ} → MemoryPool A → Option (List A)
destruct_pool p = destruct_slots p.slots

module _ {ℓ} {A : Type ℓ} (capacity : ℕ) where
  unfoldable pub new_pool : MemoryPool A
  new_pool = record { slots = build_free_list capacity 0; free_head = 0; allocated = 0 }

  -- The slot, or `nullptr`; `x` is the object constructed. No other thread takes part, so the
  -- exchange succeeds.
  unfoldable pub allocate_at : ℕ → A → MemoryPool A → Option ℕ × MemoryPool A
  allocate_at head x p = if leb capacity head then (none, p) else (
    some head,
    record {
      slots = set p.slots head (record (slot_at p head) { storage = some x; in_use = true });
      free_head = (slot_at p head).next_free;
      allocated = (p.allocated + 1) % 2 ^ 64;
    },
  )

  unfoldable pub allocate : A → MemoryPool A → Option ℕ × MemoryPool A
  allocate x p = allocate_at p.free_head x p

  -- From the assertions on.
  unfoldable pub release : ℕ → MemoryPool A → MemoryPool A
  release idx p = record {
    slots = set p.slots idx (record { storage = none; next_free = p.free_head; in_use = false });
    free_head = idx % 2 ^ 32;
    allocated = (p.allocated + (2 ^ 64 - 1)) % 2 ^ 64;
  }

  -- `none`: an assertion fails.
  unfoldable pub deallocate : Option ℕ → MemoryPool A → Option (MemoryPool A)
  deallocate none p = some p
  deallocate (some idx) p =
      if ltb idx capacity && (slot_at p idx).in_use then some (release idx p) else none

  unfoldable pub available : MemoryPool A → ℕ
  available p = (capacity + (2 ^ 64 - p.allocated)) % 2 ^ 64
