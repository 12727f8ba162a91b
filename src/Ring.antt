-- ===== src/Ring.antt =====
-- src/HPRingBuffer.hpp: the bounded ring buffer, one operation at a time.
pub mod Refine
pub mod Spsc
pub mod Knowledge
pub mod Access
pub mod Fifo
pub mod Progress
mod Tests
use hfttoolset.Base.{
  ℕ, Bool, true, false, List, Option, none, some, if◌then◌else◌, ◌==◌, leb, set, get_elem?,
  replicate, ◌+◌, ◌-◌, ◌%◌,
}

-- The indices stay below `size`, so that a write and a read are in range.
pub record RingBuffer {ℓ} (A : Type ℓ) : Type ℓ where
  pub buffer : List A
  pub head : ℕ
  pub tail : ℕ

-- `Size` is a power of two, for which `& (Size - 1)` is the remainder.
unfoldable pub increment : ℕ → ℕ → ℕ
increment size idx = (idx + 1) % size

unfoldable pub capacity : ℕ → ℕ
capacity size = size - 1

module _ {ℓ} {A : Type ℓ} (size : ℕ) where
  -- The constructor; `fill` is what the array holds at first.
  unfoldable pub empty_ring : A → RingBuffer A
  empty_ring fill = record { buffer = replicate size fill; head = 0; tail = 0 }

  -- Both overloads of `push`.
  unfoldable pub push : A → RingBuffer A → Bool × RingBuffer A
  push item r =
      let next = increment size r.head in
      if next == r.tail
      then (false, r)
      else (true, record r { buffer = set r.buffer r.head item; head = next })

  unfoldable pub pop : RingBuffer A → Option A × RingBuffer A
  pop r =
      if r.tail == r.head
      then (none, r)
      else (get_elem? r.buffer r.tail, record r { tail = increment size r.tail })

  unfoldable pub empty : RingBuffer A → Bool
  empty r = r.head == r.tail

  unfoldable pub full : RingBuffer A → Bool
  full r = increment size r.head == r.tail

  unfoldable pub size_of : RingBuffer A → ℕ
  size_of r = if leb r.tail r.head then r.head - r.tail else size - (r.tail - r.head)
