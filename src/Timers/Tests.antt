-- ===== src/Timers/Tests.antt =====
-- Runs of the timers of a thread.
use hfttoolset.Base.{ℕ, pos, ◌-ℤ◌, ◌≡◌, refl, List, [], ◌∷◌, Option, none, some, true}
use hfttoolset.Timers.{
  TimerSlot, no_timers, start_scope, end_scope, construct_scope, end_and_log_scope, destruct_scope,
  start_label, end_label, end_and_log,
}
use hfttoolset.Timers.Started.{started, has_free}
use hfttoolset.Timers.Cycle.{Operation, starts, logs, operate, operate_all, end_label-start_label}

-- A timer that starts with its construction logs at its destruction.
raii_logs : destruct_scope 9 (construct_scope true 4) ≡ some (pos 5)
unfolding destruct_scope construct_scope end_and_log_scope start_scope end_scope ◌-ℤ◌
raii_logs = refl

abbrev mine : List ℕ
mine = 1 ∷ []

abbrev other : List ℕ
other = 2 ∷ []

-- Another label is started, and ended with a log.
abbrev between : List Operation
between = starts other 5 ∷ logs other 7 ∷ []

abbrev slots_then : Option (List TimerSlot) → List TimerSlot
slots_then (some ss) = ss
slots_then _ = []

abbrev after : List TimerSlot
after = slots_then (operate_all between (start_label mine 3 no_timers))

reached : operate_all between (start_label mine 3 no_timers) ≡ some after
unfolding operate_all operate start_label start_scope end_and_log end_scope
reached = refl

none-started : started mine no_timers ≡ none
unfolding started
none-started = refl

some_free : has_free no_timers ≡ true
unfolding has_free
some_free = refl

end_label-start_label_example :
    (ss : List TimerSlot) × (end_label mine 10 after ≡ some (pos 10 -ℤ pos 3, ss))
end_label-start_label_example =
    end_label-start_label mine 3 10 between no_timers after none-started some_free
      (refl, (refl, tt)) reached
