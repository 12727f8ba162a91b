-- ===== src/Clock/Tests.antt =====
-- Runs of the clock.
use hfttoolset.Base.{◌≡◌, refl}
use hfttoolset.Clock.{new_clock, now, advance, set_time, in_simulation, simulated, wall_clock}

simulated_run : now 9 (advance 5 (set_time 3 (new_clock simulated))) ≡ 8
unfolding now advance set_time in_simulation new_clock
simulated_run = refl

wall_run : now 9 (advance 5 (set_time 3 (new_clock wall_clock))) ≡ 9
unfolding now advance set_time in_simulation new_clock
wall_run = refl
