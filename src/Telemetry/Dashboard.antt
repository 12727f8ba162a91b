-- ===== src/Telemetry/Dashboard.antt =====
-- src/metrics/telemetry.cpp: what `print_dashboard` and `print_latency_summary` print, without the
-- frame and the layout, in the order in which it is printed.
use hfttoolset.Base.{ℕ, ℤ, pos, ◌-ℤ◌, List, [], ◌∷◌, Option, none, some, if◌then◌else◌, ltb, ◌^◌}
use hfttoolset.Doubles.{Doubles}
use hfttoolset.Histogram.{LatencyHistogram, LatencyStats, stats}
use hfttoolset.Telemetry.{Telemetry, fixed_point_scale}

-- The number that the bits of an int64_t stand for.
unfoldable pub of_bits : ℕ → ℤ
of_bits n = if ltb n (2 ^ 63) then pos n else pos n -ℤ pos (2 ^ 64)

-- A row of the latencies: the percentiles 50, 99 and 99.9, and the samples where they are printed.
pub record LatencyRow : Type 0 where
  pub p50_ns : ℤ
  pub p99_ns : ℤ
  pub p999_ns : ℤ

pub record Dashboard (D : Doubles) : Type 0 where
  pub orders : ℕ
  pub trades : ℕ
  pub cancels : ℕ
  pub rejects : ℕ
  pub e2e : LatencyRow
  pub matching : LatencyRow
  pub market_data : LatencyRow
  pub volume : ℕ
  pub avg_fill_probability : Option D.Double
  pub avg_slippage : Option D.Double

module _ (D : Doubles) where
  -- `stats` with the fractions that the source names.
  abbrev pub stats_of_latency : LatencyHistogram D → LatencyStats
  stats_of_latency h =
      stats D 10000 100 (D.literal 50 2) (D.literal 90 2) (D.literal 95 2) (D.literal 99 2)
        (D.literal 999 3) h

  unfoldable pub row_of : LatencyStats → LatencyRow
  row_of s = record { p50_ns = s.p50_ns; p99_ns = s.p99_ns; p999_ns = s.p999_ns }

  -- The average of fixed-point numbers; it is printed only where there are any.
  unfoldable pub average_fixed_point : ℕ → ℕ → Option D.Double
  average_fixed_point sum count =
      if ltb 0 count
      then some (
          D.div (D.of_int (of_bits sum))
            (D.mul (D.of_int (pos count)) (D.of_int fixed_point_scale)))
      else none

  unfoldable pub print_dashboard : Telemetry D → Dashboard D
  print_dashboard t = record {
    orders = t.orders;
    trades = t.trades;
    cancels = t.cancels;
    rejects = t.rejects;
    e2e = row_of (stats_of_latency t.e2e_latency);
    matching = row_of (stats_of_latency t.matching_latency);
    market_data = row_of (stats_of_latency t.md_latency);
    volume = t.total_fill_qty;
    avg_fill_probability = average_fixed_point t.fill_prob_sum t.fill_prob_count;
    avg_slippage = average_fixed_point t.slippage_sum t.slippage_count;
  }

  -- The two rows with their samples.
  unfoldable pub print_latency_summary : Telemetry D → List (LatencyRow × ℕ)
  print_latency_summary t =
      let e2e = stats_of_latency t.e2e_latency in
      let me = stats_of_latency t.matching_latency in
      (row_of e2e, e2e.samples) ∷ (row_of me, me.samples) ∷ []
