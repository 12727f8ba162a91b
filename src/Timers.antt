-- ===== src/Timers.antt =====
-- src/ScopeTimer.hpp: the timers of a thread by label, with timing enabled. `now` is what the steady
-- clock shows, in nanoseconds.
pub mod Started
pub mod Cycle
mod Tests
use hfttoolset.Base.{
  ℕ, ℤ, pos, ◌-ℤ◌, Bool, true, false, not, ◌&&◌, List, [], ◌∷◌, Option, none, some, if◌then◌else◌,
  ◌==◌, replicate,
}

pub record ScopeTimer : Type 0 where
  pub begun : Bool
  pub begin_time : ℕ

abbrev pub new_scope_timer : ScopeTimer
new_scope_timer = record { begun = false; begin_time = 0 }

-- `ScopeTimer::start`, and `end` with the duration; the first argument of `end` is the time.
unfoldable pub start_scope : ℕ → ScopeTimer → ScopeTimer
start_scope now t = record { begun = true; begin_time = now }

unfoldable pub end_scope : ℕ → ScopeTimer → ℤ × ScopeTimer
end_scope now t = (pos now -ℤ pos t.begin_time, record t { begun = false })

-- `ScopeTimer( raii )`, `endAndLog` with the duration that it logs, and the destructor with the
-- duration that it logs, if it does.
unfoldable pub construct_scope : Bool → ℕ → ScopeTimer
construct_scope raii now = if raii then start_scope now new_scope_timer else new_scope_timer

unfoldable pub end_and_log_scope : ℕ → ScopeTimer → ℤ × ScopeTimer
end_and_log_scope now t = end_scope now t

unfoldable pub destruct_scope : ℕ → ScopeTimer → Option ℤ
destruct_scope now t = if t.begun then some (end_and_log_scope now t).0 else none

-- A slot has a view of its label. The text that it views is taken to stay as it is while the timer
-- runs, as that of a literal does, so the slot is given the text.
pub record TimerSlot : Type 0 where
  pub label : List ℕ
  pub timer : ScopeTimer
  pub used : Bool

abbrev pub max_slots : ℕ
max_slots = 32

-- `slots_` of a thread.
abbrev pub no_timers : List TimerSlot
no_timers = replicate max_slots (record { label = []; timer = new_scope_timer; used = false })

abbrev pub same_label : List ℕ → List ℕ → Bool
same_label [] [] = true
same_label (c ∷ cs) (d ∷ ds) = (c == d) && same_label cs ds
same_label _ _ = false

-- The first slot that is not used; nothing if all are.
unfoldable pub start_label : List ℕ → ℕ → List TimerSlot → List TimerSlot
start_label label now [] = []
start_label label now (s ∷ ss) =
    let rest = start_label label now ss in
    if not s.used
    then record { label = label; timer = start_scope now s.timer; used = true } ∷ ss
    else s ∷ rest

abbrev pub behind : TimerSlot → Option (ℤ × List TimerSlot) → Option (ℤ × List TimerSlot)
behind s none = none
behind s (some (d, ss)) = some (d, s ∷ ss)

-- `none`: the end of the function is reached without a result, which is undefined behaviour.
unfoldable pub end_label : List ℕ → ℕ → List TimerSlot → Option (ℤ × List TimerSlot)
end_label label now [] = none
end_label label now (s ∷ ss) =
    let rest = behind s (end_label label now ss) in
    let (d, t) = end_scope now s.timer in
    if s.used && same_label s.label label
    then some (d, record s { timer = t; used = false } ∷ ss)
    else rest

-- `endAndLog`, with the duration that it logs; `none` if it logs nothing. The slot stays used.
unfoldable pub end_and_log : List ℕ → ℕ → List TimerSlot → Option (ℤ × List TimerSlot)
end_and_log label now [] = none
end_and_log label now (s ∷ ss) =
    let rest = behind s (end_and_log label now ss) in
    let (d, t) = end_scope now s.timer in
    if same_label s.label label then some (d, record s { timer = t } ∷ ss) else rest
