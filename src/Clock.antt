-- ===== src/Clock.antt =====
-- src/common/clock.h and src/common/clock.cpp: the clock. The wall clock is a parameter, the
-- nanoseconds that std::chrono::steady_clock reads.
mod Tests
use hfttoolset.Base.{ℕ, ◌≡◌, refl, ◌+◌, ◌%◌, ◌^◌, List, [], ◌∷◌, arith, ◌*◌, ◌<◌, ap, sym, ◌∙◌}

pub data Mode : Type 0 where
  wall_clock simulated : Mode

pub record Clock : Type 0 where
  pub mode : Mode
  pub simulated_time : ℕ

-- `Clock( mode )`
unfoldable pub new_clock : Mode → Clock
new_clock m = record { mode = m; simulated_time = 0 }

-- What a call does to the simulated time, in simulated mode only.
unfoldable pub in_simulation : Clock → ℕ → Clock
in_simulation c t = elim c.mode [ simulated ↦ record c { simulated_time = t } | wall_clock ↦ c ]

-- `wall` is what `wall_clock_now` returns.
unfoldable pub now : ℕ → Clock → ℕ
now wall c = elim c.mode [ simulated ↦ c.simulated_time | wall_clock ↦ wall ]

unfoldable pub advance : ℕ → Clock → Clock
advance delta c = in_simulation c ((c.simulated_time + delta) % 2 ^ 64)

unfoldable pub set_time : ℕ → Clock → Clock
set_time ts c = in_simulation c ts

unfoldable pub reset : Clock → Clock
reset c = in_simulation c 0

pub advance_all : List ℕ → Clock → Clock
advance_all [] c = c
advance_all (d ∷ ds) c = advance_all ds (advance d c)

pub total : List ℕ → ℕ
total [] = 0
total (d ∷ ds) = d + total ds

-- A simulated clock that is below 2^64 shows, after any advances, its time plus their sum modulo
-- 2^64.
pub now-advance_all :
    (wall t : ℕ) (ds : List ℕ)
    → t < 2 ^ 64
    → now wall (advance_all ds (record { mode = simulated; simulated_time = t }))
      ≡ (t + total ds) % 2 ^ 64
unfolding now advance_all advance in_simulation total
now-advance_all wall t [] h = omega arith
now-advance_all wall t (d ∷ ds) h =
    now-advance_all wall ((t + d) % 2 ^ 64) ds (omega arith) ∙ omega arith
