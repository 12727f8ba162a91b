-- ===== src/Ring/Spsc.antt =====
-- src/HPRingBuffer.hpp: `push` and `pop` under one producer thread and one consumer thread, access
-- by access. A move is one access of a thread to the shared ring, and the accesses interleave in any
-- order. A load of the other thread's index may see an earlier store than the latest, though none
-- before the one that it saw last; what is released with the store it sees is seen too. A move says
-- how many stores back its load sees. `sent` has the items that `push` took and `received` those
-- that `pop` returned; `pushes` and `pops` count the calls that returned; `tail_lag` and `head_lag`
-- count the stores of the tail since the one that the producer saw last, and those of the head
-- since the one that the consumer saw last.
use hfttoolset.Base.{
  ℕ, List, [], ◌∷◌, ◌++◌, Option, none, some, if◌then◌else◌, ◌==◌, set, get_elem?, leb, min, ◌+◌,
  ◌-◌,
}
use hfttoolset.Ring.{RingBuffer, increment, empty_ring}

-- Where the producer stands: in no call, or in `push( item )` with the head it loaded, after the
-- test against the tail, or after the write.
pub data Producer {ℓ} (A : Type ℓ) : Type ℓ where
  ready : Producer A
  head_loaded : A → ℕ → Producer A
  admitted : A → ℕ → Producer A
  written : A → ℕ → Producer A

-- Where the consumer stands: in no call, or in `pop` with the tail it loaded, after the test
-- against the head, or after the read.
pub data Consumer {ℓ} (A : Type ℓ) : Type ℓ where
  waiting : Consumer A
  tail_loaded : ℕ → Consumer A
  supplied : ℕ → Consumer A
  taken : ℕ → Option A → Consumer A

pub record Threads {ℓ} (A : Type ℓ) : Type ℓ where
  pub ring : RingBuffer A
  pub producer : Producer A
  pub consumer : Consumer A
  pub sent : List A
  pub received : List A
  pub pushes : ℕ
  pub pops : ℕ
  pub tail_lag : ℕ
  pub head_lag : ℕ

pub data Move {ℓ} (A : Type ℓ) : Type ℓ where
  producing : A → ℕ → Move A
  consuming : ℕ → Move A

abbrev pub list_of {ℓ} : {A : Type ℓ} → Option A → List A
list_of none = []
list_of (some x) = x ∷ []

-- The index that was stored `lag` stores ago.
abbrev pub earlier : ℕ → ℕ → ℕ → ℕ
earlier size i lag = if leb lag i then i - lag else i + size - lag

module _ {ℓ} {A : Type ℓ} (size : ℕ) where
  -- The next access of the producer; `item` is what it pushes if it is in no call, and `back` how
  -- many stores back a load of the tail sees.
  unfoldable pub produce_at : A → ℕ → Producer A → Threads A → Threads A
  produce_at item back ready s = record s { producer = head_loaded item s.ring.head }
  produce_at _ back (head_loaded x head) s =
      let lag = min back s.tail_lag in
      if increment size head == earlier size s.ring.tail lag
      then record s { producer = ready; pushes = s.pushes + 1; tail_lag = lag }
      else record s { producer = admitted x head; tail_lag = lag }
  produce_at _ back (admitted x head) s = record s {
    ring = record s.ring { buffer = set s.ring.buffer head x };
    producer = written x head;
  }
  produce_at _ back (written x head) s = record s {
    ring = record s.ring { head = increment size head };
    producer = ready;
    sent = s.sent ++ x ∷ [];
    pushes = s.pushes + 1;
    head_lag = s.head_lag + 1;
  }

  -- The next access of the consumer; `back` is how many stores back a load of the head sees.
  unfoldable pub consume_at : ℕ → Consumer A → Threads A → Threads A
  consume_at back waiting s = record s { consumer = tail_loaded s.ring.tail }
  consume_at back (tail_loaded tail) s =
      let lag = min back s.head_lag in
      if tail == earlier size s.ring.head lag
      then record s { consumer = waiting; pops = s.pops + 1; head_lag = lag }
      else record s { consumer = supplied tail; head_lag = lag }
  consume_at back (supplied tail) s = record s {
    consumer = taken tail (get_elem? s.ring.buffer tail);
  }
  consume_at back (taken tail value) s = record s {
    ring = record s.ring { tail = increment size tail };
    consumer = waiting;
    received = s.received ++ list_of value;
    pops = s.pops + 1;
    tail_lag = s.tail_lag + 1;
  }

  unfoldable pub move : Move A → Threads A → Threads A
  move (producing item back) s = produce_at item back s.producer s
  move (consuming back) s = consume_at back s.consumer s

  unfoldable pub interleave : List (Move A) → Threads A → Threads A
  interleave [] s = s
  interleave (m ∷ ms) s = interleave ms (move m s)

  unfoldable pub new_threads : A → Threads A
  new_threads fill = record {
    ring = empty_ring size fill;
    producer = ready;
    consumer = waiting;
    sent = [];
    received = [];
    pushes = 0;
    pops = 0;
    tail_lag = 0;
    head_lag = 0;
  }
