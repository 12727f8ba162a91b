-- ===== src/Histogram/Tests.antt =====
-- Runs of a histogram with four buckets of ten, with whole numbers for `double`.
use hfttoolset.Base.{
  ℕ, suc, ℤ, pos, negsuc, List, [], ◌∷◌, length, ◌≡◌, ◌<◌, ◌≤◌, arith, get_or, ◌+◌, ◌*◌, ◌/◌, ◌*ℤ◌,
}
use hfttoolset.Doubles.{whole}
use hfttoolset.Histogram.{LatencyHistogram, empty_histogram, record_sample, target_of, percentile}
use hfttoolset.Histogram.Counts.{record_samples, count_at, count_below, record_samples-counts}
use hfttoolset.Histogram.Percentile.{percentile-rank}

abbrev samples : List ℤ
samples = pos 5 ∷ pos 12 ∷ negsuc 2 ∷ pos 100 ∷ []

abbrev recorded : LatencyHistogram whole
recorded = record_samples whole 4 10 samples (empty_histogram whole 4 10)

record_samples-counts_example :
    (length recorded.buckets ≡ 4)
    × (recorded.total_samples ≡ length samples)
    × ((k : ℕ) → get_or recorded.buckets k 0 ≡ count_at whole 4 10 k samples)
record_samples-counts_example = record_samples-counts whole 4 10 samples (omega arith) (omega arith)

in_rank : target_of whole 4 10 (pos 1) recorded ≤ 4
unfolding target_of record_sample empty_histogram ◌*ℤ◌
in_rank = omega arith

percentile-rank_example :
    (k : ℕ) × (k < 4)
    × (percentile whole 4 10 (pos 1) recorded ≡ pos (k * 10 + 10 / 2))
    × (count_below whole 4 10 k samples < target_of whole 4 10 (pos 1) recorded)
    × (target_of whole 4 10 (pos 1) recorded ≤ count_below whole 4 10 (suc k) samples)
percentile-rank_example =
    percentile-rank whole 4 10 samples (pos 1) (omega arith) (omega arith) in_rank
