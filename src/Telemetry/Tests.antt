-- ===== src/Telemetry/Tests.antt =====
-- Runs of the telemetry, with whole numbers for doubles.
use hfttoolset.Base.{ℤ, List, All, none, refl, pos, negsuc, ◌≡◌, [], ◌∷◌, some, arith, ◌+ℤ◌, ◌*ℤ◌}
use hfttoolset.Doubles.{whole}
use hfttoolset.Telemetry.{
  Telemetry, fixed_point_scale, new_telemetry, scaled, fits_int64, fixed_point, slippage_added,
  record_slippage,
}
use hfttoolset.Telemetry.Dashboard.{print_dashboard}
use hfttoolset.Telemetry.Sums.{Fits, fixed_total, record_slippages, avg_slippage-record_slippages}

-- Three ticks for the worse and one for the better.
abbrev two_slippages : List ℤ
two_slippages = pos 3 ∷ negsuc 0 ∷ []

each-Fits : All (λ x. Fits (scaled whole x)) two_slippages
unfolding ◌+ℤ◌ ◌*ℤ◌ fits_int64
each-Fits = (refl, (refl, tt))

total-Fits : Fits (fixed_total whole two_slippages)
unfolding fixed_total ◌+ℤ◌ ◌*ℤ◌ fits_int64
total-Fits = refl

avg_slippage-record_slippages_example :
    (t : Telemetry whole) × (record_slippages whole two_slippages (new_telemetry whole) ≡ some t)
    × ((print_dashboard whole t).avg_slippage
        ≡ some (whole.div (fixed_total whole two_slippages) (whole.mul (pos 2) fixed_point_scale)))
avg_slippage-record_slippages_example =
    avg_slippage-record_slippages whole two_slippages (omega arith) (omega arith) each-Fits
      total-Fits

-- Ten billion ticks are out of range in fixed-point units.
out_of_range : record_slippages whole (pos 10000000000 ∷ []) (new_telemetry whole) ≡ none
unfolding record_slippage slippage_added fixed_point fits_int64 ◌*ℤ◌
out_of_range = refl
