-- ===== src/Benchmark.antt =====
-- src/benchmark_p99.hpp: the time of a callable over many calls, and its percentiles. The callable
-- and `steady_clock::now` act on a world that is a parameter, as are the sort of the standard
-- library and `double`.
pub mod Rank
pub mod Sorted
mod Tests
use hfttoolset.Base.{
  ℕ, zero, suc, ℤ, pos, ◌-ℤ◌, ◌-◌, List, [], ◌∷◌, ◌++◌, length, take, get_or, ltb, leb, ◌==◌,
  if◌then◌else◌,
}
use hfttoolset.Doubles.{Doubles}

pub record LatencyStats : Type 0 where
  pub p99_ns : ℤ
  pub p999_ns : ℤ
  pub samples : ℕ

unfoldable pub clamp_index : ℕ → ℕ → ℕ
clamp_index idx size = if leb size idx then (if size == 0 then 0 else size - 1) else idx

abbrev pub after_first {ℓ} : {A : Type ℓ} → ℕ → List A → List A
after_first zero xs = xs
after_first (suc n) [] = []
after_first (suc n) (x ∷ xs) = after_first n xs

-- What the caller has after the call: the statistics, its buffer, and the world.
pub record Benchmark (World : Type 0) : Type 0 where
  pub stats : LatencyStats
  pub latencies_buffer : List ℤ
  pub world : World

unfoldable pub warm_up : {World : Type 0} → (World → World) → ℕ → World → World
warm_up invoke zero w = w
warm_up invoke (suc n) w = warm_up invoke n (invoke w)

module _ {World : Type 0} (invoke : World → World) (clock_now : World → ℤ × World) where
  -- One measured call.
  unfoldable pub measure_call : World → ℤ × World
  measure_call w =
      let (t0, w1) = clock_now w in let (t1, w2) = clock_now (invoke w1) in (t1 -ℤ t0, w2)

  -- The loop over the first entries of the buffer.
  unfoldable pub measure : ℕ → List ℤ → World → List ℤ × World
  measure zero buffer w = (buffer, w)
  measure (suc n) [] w = ([], w)
  measure (suc n) (b ∷ buffer) w =
      let (diff, w') = measure_call w in let (rest, w'') = measure n buffer w' in (diff ∷ rest, w'')

module _ (D : Doubles) where
  -- static_cast<size_t>( 0.99 * (n - 1) ), clamped, and likewise with 0.999
  unfoldable pub percentile_index : ℕ → ℕ → ℕ → ℕ
  percentile_index digits decimals n =
      clamp_index (D.to_size (D.mul (D.literal digits decimals) (D.of_int (pos (n - 1))))) n

  unfoldable pub stats_of : List ℤ → ℕ → LatencyStats
  stats_of sorted n = record {
    p99_ns = get_or sorted (percentile_index 99 2 n) (pos 0);
    p999_ns = get_or sorted (percentile_index 999 3 n) (pos 0);
    samples = n;
  }

module _ (D : Doubles) (sort : List ℤ → List ℤ) {World : Type 0} where
  unfoldable pub finish_benchmark : ℕ → List ℤ × World → Benchmark World
  finish_benchmark zero (buffer, w) = record {
    stats = record { p99_ns = pos 0; p999_ns = pos 0; samples = 0 };
    latencies_buffer = buffer;
    world = w;
  }
  finish_benchmark (suc k) (buffer, w) =
      let sorted = sort (take (suc k) buffer) in
      record {
        stats = stats_of D sorted (suc k);
        latencies_buffer = sorted ++ after_first (suc k) buffer;
        world = w;
      }

  unfoldable pub benchmark_p99 :
      (World → World) → (World → ℤ × World) → List ℤ → ℕ → ℕ → World → Benchmark World
  benchmark_p99 invoke clock_now latencies_buffer iterations warmup_iterations w =
      let size = length latencies_buffer in
      let n = if ltb size iterations then size else iterations in
      finish_benchmark n
        (measure invoke clock_now n latencies_buffer (warm_up invoke warmup_iterations w))
