-- ===== src/Histogram.antt =====
-- src/metrics/latency_histogram.h: the histogram of latencies. The number of buckets and their width
-- are the parameters of the template; the arithmetic of `double` is a parameter.
pub mod Counts
pub mod Percentile
mod Tests
use hfttoolset.Base.{
  ℕ, suc, ℤ, pos, negsuc, pos_part, ltb_ℤ, List, [], ◌∷◌, if◌then◌else◌, ltb, leb, ◌==◌, set,
  get_or, replicate, ◌+◌, ◌*◌, ◌-◌, ◌/◌, ◌%◌, ◌^◌,
}
use hfttoolset.Doubles.{Doubles}

pub record LatencyStats : Type 0 where
  pub min_ns : ℤ
  pub max_ns : ℤ
  pub mean_ns : ℤ
  pub median_ns : ℤ
  pub p50_ns : ℤ
  pub p90_ns : ℤ
  pub p95_ns : ℤ
  pub p99_ns : ℤ
  pub p999_ns : ℤ
  pub samples : ℕ

-- The members; `min_ns` and `max_ns` are those of int64_t before the first sample.
pub record LatencyHistogram (D : Doubles) : Type 0 where
  pub buckets : List ℕ
  pub total_samples : ℕ
  pub sum_ns : D.Double
  pub min_ns : ℤ
  pub max_ns : ℤ

module _ (D : Doubles) (num_buckets width : ℕ) where
  -- `reset`, and so the constructor.
  unfoldable pub empty_histogram : LatencyHistogram D
  empty_histogram = record {
    buckets = replicate num_buckets 0;
    total_samples = 0;
    sum_ns = D.zero_double;
    min_ns = pos (2 ^ 63 - 1);
    max_ns = negsuc (2 ^ 63 - 1);
  }

  -- The bucket of a sample, which is clamped to the range.
  unfoldable pub bucket_of : ℤ → ℕ
  bucket_of latency_ns =
      let bucket = pos_part latency_ns / width in
      if leb num_buckets bucket then num_buckets - 1 else bucket

  unfoldable pub record_sample : ℤ → LatencyHistogram D → LatencyHistogram D
  record_sample latency_ns h =
      let bucket = bucket_of latency_ns in
      record {
        total_samples = (h.total_samples + 1) % 2 ^ 64;
        sum_ns = D.add h.sum_ns (D.of_int latency_ns);
        min_ns = if ltb_ℤ latency_ns h.min_ns then latency_ns else h.min_ns;
        max_ns = if ltb_ℤ h.max_ns latency_ns then latency_ns else h.max_ns;
        buckets = set h.buckets bucket ((get_or h.buckets bucket 0 + 1) % 2 ^ 64);
      }

  -- `MAX_LATENCY_NS`
  abbrev pub max_latency_ns : ℤ
  max_latency_ns = pos (num_buckets * width)

  -- The loop of `percentile`, over the buckets from index `i` on.
  unfoldable pub find_bucket : ℕ → ℕ → ℕ → List ℕ → ℤ
  find_bucket target i cumulative [] = max_latency_ns
  find_bucket target i cumulative (b ∷ bs) =
      let c = (cumulative + b) % 2 ^ 64 in
      let rest = find_bucket target (suc i) c bs in
      if leb target c then pos (i * width + width / 2) else rest

  -- How many of the samples are to be at or below the result.
  unfoldable pub target_of : D.Double → LatencyHistogram D → ℕ
  target_of p h =
      let target = D.to_size (D.ceil (D.mul (D.of_int (pos h.total_samples)) p)) in
      if target == 0 then 1 else target

  unfoldable pub percentile : D.Double → LatencyHistogram D → ℤ
  percentile p h =
      let found = find_bucket (target_of p h) 0 0 h.buckets in
      if h.total_samples == 0 then pos 0 else found

  -- `stats`; the fractions 0.5, 0.9, 0.95, 0.99 and 0.999 are arguments.
  unfoldable pub stats :
      D.Double → D.Double → D.Double → D.Double → D.Double → LatencyHistogram D → LatencyStats
  stats p50 p90 p95 p99 p999 h =
      let mean = D.to_int (D.div h.sum_ns (D.of_int (pos h.total_samples))) in
      record {
        samples = h.total_samples;
        min_ns = h.min_ns;
        max_ns = h.max_ns;
        mean_ns = if ltb 0 h.total_samples then mean else pos 0;
        p50_ns = percentile p50 h;
        median_ns = percentile p50 h;
        p90_ns = percentile p90 h;
        p95_ns = percentile p95 h;
        p99_ns = percentile p99 h;
        p999_ns = percentile p999 h;
      }
