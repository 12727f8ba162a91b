-- ===== src/Telemetry.antt =====
-- src/metrics/telemetry.h and src/metrics/telemetry.cpp: the counters, histograms and timers; what
-- it prints is in Telemetry/Dashboard. `now` is what std::chrono::steady_clock shows, in nanoseconds. Sums of
-- fixed-point numbers are atomics of int64_t, which wrap: their bits are read as unsigned.
pub mod Dashboard
pub mod Sums
mod Tests
use hfttoolset.Base.{
  ℕ, ℤ, pos, negsuc, ◌-ℤ◌, ◌*ℤ◌, Bool, true, false, ◌&&◌, ◌||◌, List, [], ◌∷◌, Option, none, some,
  if◌then◌else◌, ltb, ◌==◌, ◌+◌, ◌-◌, ◌%◌, ◌^◌, ℕ_discrete,
}
use hfttoolset.Base.Assoc.{Assoc, find, insert, erase}
use hfttoolset.Doubles.{Doubles}
use hfttoolset.Histogram.{LatencyHistogram, empty_histogram, record_sample}

-- The bits of an int64_t.
unfoldable pub bits_of : ℤ → ℕ
bits_of (pos n) = n % 2 ^ 64
bits_of (negsuc n) = 2 ^ 64 - 1 - n % 2 ^ 64

abbrev pub fixed_point_scale : ℤ
fixed_point_scale = pos 1000000000

-- In the range of an int64_t.
unfoldable pub fits_int64 : ℤ → Bool
fits_int64 (pos n) = ltb n (2 ^ 63)
fits_int64 (negsuc n) = ltb n (2 ^ 63)

-- Names of timers are texts.
unfoldable pub name_discrete : Discrete (List ℕ)
name_discrete = hlevel ℕ_discrete

pub record Telemetry (D : Doubles) : Type 0 where
  pub e2e_latency : LatencyHistogram D
  pub matching_latency : LatencyHistogram D
  pub md_latency : LatencyHistogram D
  pub fix_in_latency : LatencyHistogram D
  pub fix_out_latency : LatencyHistogram D
  pub orders : ℕ
  pub trades : ℕ
  pub cancels : ℕ
  pub rejects : ℕ
  pub total_fill_qty : ℕ
  pub total_fill_notional : ℕ
  pub queue_pos_hist : LatencyHistogram D
  pub fill_prob_sum : ℕ
  pub fill_prob_count : ℕ
  pub slippage_sum : ℕ
  pub slippage_count : ℕ
  pub active_timers : Assoc (List ℕ) ℕ
  pub export_interval_ms : ℕ

abbrev pub starts_with : List ℕ → List ℕ → Bool
starts_with [] s = true
starts_with (c ∷ cs) [] = false
starts_with (c ∷ cs) (d ∷ s) = (c == d) && starts_with cs s

-- `s.find( word ) != npos`
abbrev pub contains : List ℕ → List ℕ → Bool
contains word [] = starts_with word []
contains word (c ∷ s) = starts_with word (c ∷ s) || contains word s

-- "e2e", "match" and "md".
abbrev pub e2e_word : List ℕ
e2e_word = 101 ∷ 50 ∷ 101 ∷ []

abbrev pub match_word : List ℕ
match_word = 109 ∷ 97 ∷ 116 ∷ 99 ∷ 104 ∷ []

abbrev pub md_word : List ℕ
md_word = 109 ∷ 100 ∷ []

module _ (D : Doubles) where
  -- LatencyHistogram<10000, 100>, and LatencyHistogram<1000, 1> of queue positions.
  abbrev pub no_latencies : LatencyHistogram D
  no_latencies = empty_histogram D 10000 100

  abbrev pub no_positions : LatencyHistogram D
  no_positions = empty_histogram D 1000 1

  abbrev pub with_latency : ℤ → LatencyHistogram D → LatencyHistogram D
  with_latency ns h = record_sample D 10000 100 ns h

  abbrev pub new_telemetry : Telemetry D
  new_telemetry = record {
    e2e_latency = no_latencies;
    matching_latency = no_latencies;
    md_latency = no_latencies;
    fix_in_latency = no_latencies;
    fix_out_latency = no_latencies;
    orders = 0;
    trades = 0;
    cancels = 0;
    rejects = 0;
    total_fill_qty = 0;
    total_fill_notional = 0;
    queue_pos_hist = no_positions;
    fill_prob_sum = 0;
    fill_prob_count = 0;
    slippage_sum = 0;
    slippage_count = 0;
    active_timers = [];
    export_interval_ms = 1000;
  }

  unfoldable pub record_e2e_latency : ℤ → Telemetry D → Telemetry D
  record_e2e_latency ns t = record t { e2e_latency = with_latency ns t.e2e_latency }

  unfoldable pub record_matching_latency : ℤ → Telemetry D → Telemetry D
  record_matching_latency ns t = record t { matching_latency = with_latency ns t.matching_latency }

  unfoldable pub record_md_latency : ℤ → Telemetry D → Telemetry D
  record_md_latency ns t = record t { md_latency = with_latency ns t.md_latency }

  unfoldable pub record_fix_inbound_latency : ℤ → Telemetry D → Telemetry D
  record_fix_inbound_latency ns t = record t { fix_in_latency = with_latency ns t.fix_in_latency }

  unfoldable pub record_fix_outbound_latency : ℤ → Telemetry D → Telemetry D
  record_fix_outbound_latency ns t = record t {
    fix_out_latency = with_latency ns t.fix_out_latency;
  }

  unfoldable pub record_order : Telemetry D → Telemetry D
  record_order t = record t { orders = (t.orders + 1) % 2 ^ 64 }

  unfoldable pub record_a_trade : Telemetry D → Telemetry D
  record_a_trade t = record t { trades = (t.trades + 1) % 2 ^ 64 }

  unfoldable pub record_cancel : Telemetry D → Telemetry D
  record_cancel t = record t { cancels = (t.cancels + 1) % 2 ^ 64 }

  unfoldable pub record_reject : Telemetry D → Telemetry D
  record_reject t = record t { rejects = (t.rejects + 1) % 2 ^ 64 }

  unfoldable pub record_fill_of : ℤ → ℤ → Telemetry D → Telemetry D
  record_fill_of qty price t = record t {
    total_fill_qty = (t.total_fill_qty + bits_of qty) % 2 ^ 64;
    total_fill_notional = (t.total_fill_notional + bits_of (qty *ℤ price)) % 2 ^ 64;
  }

  unfoldable pub record_queue_position : ℕ → Telemetry D → Telemetry D
  record_queue_position position t = record t {
    queue_pos_hist = record_sample D 1000 1 (pos position) t.queue_pos_hist;
  }

  -- The double in fixed-point units, truncated.
  abbrev pub scaled : D.Double → ℤ
  scaled x = D.to_int (D.mul x (D.of_int fixed_point_scale))

  -- static_cast<int64_t>; `none`: the number is out of range, where C++ leaves the cast undefined.
  unfoldable pub fixed_point : D.Double → Option ℕ
  fixed_point x = if fits_int64 (scaled x) then some (bits_of (scaled x)) else none

  unfoldable pub fill_probability_added : Option ℕ → Telemetry D → Option (Telemetry D)
  fill_probability_added none t = none
  fill_probability_added (some n) t = some (record t {
    fill_prob_sum = (t.fill_prob_sum + n) % 2 ^ 64;
    fill_prob_count = (t.fill_prob_count + 1) % 2 ^ 64;
  })

  unfoldable pub record_fill_probability : D.Double → Telemetry D → Option (Telemetry D)
  record_fill_probability prob t = fill_probability_added (fixed_point prob) t

  unfoldable pub slippage_added : Option ℕ → Telemetry D → Option (Telemetry D)
  slippage_added none t = none
  slippage_added (some n) t = some (record t {
    slippage_sum = (t.slippage_sum + n) % 2 ^ 64;
    slippage_count = (t.slippage_count + 1) % 2 ^ 64;
  })

  unfoldable pub record_slippage : D.Double → Telemetry D → Option (Telemetry D)
  record_slippage ticks t = slippage_added (fixed_point ticks) t

  unfoldable pub set_export_interval_ms : ℕ → Telemetry D → Telemetry D
  set_export_interval_ms ms t = record t { export_interval_ms = ms }

  unfoldable pub start_timer : List ℕ → ℕ → Telemetry D → Telemetry D
  start_timer name now t = record t {
    active_timers = insert name_discrete name now t.active_timers;
  }

  -- The histogram that a timer is for, by its name.
  unfoldable pub record_timer : List ℕ → ℤ → Telemetry D → Telemetry D
  record_timer name ns t =
      if contains e2e_word name
      then record_e2e_latency ns t
      else if contains match_word name
      then record_matching_latency ns t
      else if contains md_word name
      then record_md_latency ns t
      else t

  unfoldable pub end_found : Option ℕ → List ℕ → ℕ → Telemetry D → Telemetry D
  end_found none name now t = t
  end_found (some start) name now t =
      let t' = record_timer name (pos now -ℤ pos start) t in
      record t' { active_timers = erase name_discrete name t'.active_timers }

  unfoldable pub end_timer : List ℕ → ℕ → Telemetry D → Telemetry D
  end_timer name now t = end_found (find name_discrete name t.active_timers) name now t

  -- `reset`: the timers and the export interval stay.
  unfoldable pub reset_metrics : Telemetry D → Telemetry D
  reset_metrics t = record new_telemetry {
    active_timers = t.active_timers;
    export_interval_ms = t.export_interval_ms;
  }
