-- ===== src/Risk/Tests.antt =====
-- Runs of the risk engine.
use hfttoolset.Base.{pos, ◌≡◌, ◌⊎◌, ◌<ℤ◌, ◌+ℤ◌, ◌≤◌, refl, false, length, ℕ_discrete}
use hfttoolset.Base.Assoc.{find, insert}
use hfttoolset.Types.{buy, Order, empty_order, blank, market, nothing, kill_switch_active}
use hfttoolset.Risk.{
  new_engine, check_order, is_killed, state_of, limits_of, on_fill, kill_trader, kill_all,
  unkill_all, check_kill_switch, check_price_validity, check_quantity_validity,
  check_position_limit, check_rate_limit, guard, with_state, expire,
}
use hfttoolset.Risk.Checks.{IsWithin, check_order-passes}
use hfttoolset.Risk.Positions.{total, IsNetted, on_fill-IsNetted, kill_switches}

abbrev good : Order
good = record empty_order { id = 1; trader_id = 7; price = pos 10; quantity = pos 5 }

good_passes : (check_order new_engine good).0 ≡ nothing
unfolding check_order check_kill_switch check_price_validity check_quantity_validity
    check_position_limit check_rate_limit guard is_killed state_of limits_of find with_state insert
    expire ◌+ℤ◌ ℕ_discrete
good_passes = refl

check_order-passes_example :
    (is_killed new_engine 7 ≡ false)
    × ((good.type ≡ market) ⊎ (pos 0 <ℤ pos 10))
    × (pos 0 <ℤ pos 5)
    × IsWithin new_engine good
    × (length (state_of (check_order new_engine good).1 7).order_timestamps
        ≤ (limits_of new_engine 7).max_order_rate)
check_order-passes_example = check_order-passes new_engine good good_passes

new_engine-IsNetted : IsNetted new_engine
unfolding state_of find total
new_engine-IsNetted t = refl

on_fill-IsNetted_example : IsNetted (on_fill 7 blank buy (pos 5) new_engine)
on_fill-IsNetted_example = on_fill-IsNetted new_engine 7 blank buy (pos 5) new_engine-IsNetted

kill_switches_example :
    ((check_order (kill_trader 7 new_engine) good).0 ≡ kill_switch_active)
    × ((check_order (kill_all new_engine) good).0 ≡ kill_switch_active)
    × (is_killed (unkill_all new_engine) 7 ≡ false)
kill_switches_example = kill_switches new_engine good 7
