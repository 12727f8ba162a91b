-- ===== src/Histogram/Percentile.antt =====
-- `percentile`: the bucket of the sample of a rank.
use hfttoolset.Base.{
  ℕ, zero, suc, ℤ, pos, List, [], ◌∷◌, leb, ◌==◌, get_or, length, take, ◌≡◌, refl, sym, ap, ap₂,
  ◌∙◌, inl, inr, Bool-cases, ◌≤◌, ◌<◌, arith, ◌+◌, ◌*◌, ◌/◌, ◌%◌, ◌^◌, false,
}
use hfttoolset.Doubles.{Doubles}
use hfttoolset.Histogram.{LatencyHistogram, empty_histogram, find_bucket, target_of, percentile}
use hfttoolset.Histogram.Counts.{
  record_samples, count_at, count_below, bucket_of-lt, record_samples-counts,
}

abbrev sum : List ℕ → ℕ
sum [] = 0
sum (b ∷ bs) = b + sum bs

sum-take-suc :
    (bs : List ℕ) (k : ℕ) → k < length bs → sum (take (suc k) bs) ≡ sum (take k bs) + get_or bs k 0
sum-take-suc [] k h = absurd (omega (arith, h))
sum-take-suc (b ∷ bs) zero h = omega arith
sum-take-suc (b ∷ bs) (suc k) h = omega (arith, sum-take-suc bs k (omega (arith, h)))

sum-take_all : (bs : List ℕ) → sum (take (length bs) bs) ≡ sum bs
sum-take_all [] = refl
sum-take_all (b ∷ bs) = ap (λ n. b + n) (sum-take_all bs)

module _ (D : Doubles) (num width : ℕ) where
  -- The bucket that the loop stops at.
  abbrev IsFound : ℕ → ℕ → ℕ → List ℕ → ℤ → Type 0
  IsFound target i c bs r =
      (k : ℕ) × (k < length bs)
      × (r ≡ pos ((i + k) * width + width / 2))
      × (c + sum (take k bs) < target)
      × (target ≤ c + sum (take (suc k) bs))

  find_bucket-IsFound :
      (target i c : ℕ) (bs : List ℕ)
      → c < target
      → target ≤ c + sum bs
      → c + sum bs < 2 ^ 64
      → IsFound target i c bs (find_bucket D num width target i c bs)
  unfolding find_bucket
  find_bucket-IsFound target i c [] l m h = absurd (omega (arith, l, m))
  find_bucket-IsFound target i c (b ∷ bs) l m h =
      let same : (c + b) % 2 ^ 64 ≡ c + b = omega (arith, h) in
      elim (Bool-cases (leb target (c + b))) [
        | inl e ↦
            rw (same, e)
              (
                0,
                omega arith,
                ap (λ j. pos (j * width + width / 2)) (omega arith),
                omega (arith, l),
                ground (arith, e),
              )
        | inr e ↦
            let (k, u, r, v, w) =
              find_bucket-IsFound target (suc i) (c + b) bs (ground (arith, e)) (omega (arith, m))
                (omega (arith, h)) in
            rw (same, e)
              (
                suc k,
                omega (arith, u),
                r ∙ ap (λ j. pos (j * width + width / 2)) (omega arith),
                omega (arith, v),
                omega (arith, w),
              )
      ]

  below-one_more :
      (xs : List ℤ) (k : ℕ)
      → count_below D num width (suc k) xs
        ≡ count_below D num width k xs + count_at D num width k xs
  below-one_more [] k = refl
  below-one_more (x ∷ xs) k = ground (arith, below-one_more xs k)

  below-zero : (xs : List ℤ) → count_below D num width 0 xs ≡ 0
  below-zero [] = refl
  below-zero (x ∷ xs) = ground (arith, below-zero xs)

  -- The buckets below the `k`-th count the samples of these buckets.
  sum-take-count_below :
      (xs : List ℤ) (bs : List ℕ) (k : ℕ)
      → ((j : ℕ) → get_or bs j 0 ≡ count_at D num width j xs)
      → k ≤ length bs
      → sum (take k bs) ≡ count_below D num width k xs
  sum-take-count_below xs bs zero f h = sym (below-zero xs)
  sum-take-count_below xs bs (suc k) f h =
      sum-take-suc bs k (omega (arith, h))
      ∙ ap₂ (λ a b. a + b) (sum-take-count_below xs bs k f (omega (arith, h))) (f k)
      ∙ sym (below-one_more xs k)

  below-all : (xs : List ℤ) → 0 < num → count_below D num width num xs ≡ length xs
  below-all [] h = refl
  below-all (x ∷ xs) h = ground (arith, bucket_of-lt D num width x h, below-all xs h)

  target_of-pos : (p : D.Double) (h : LatencyHistogram D) → 0 < target_of D num width p h
  unfolding target_of
  target_of-pos p h = ground arith

  -- After fewer than 2^64 samples, a percentile whose rank is at most their number is the middle
  -- of the bucket of the sample of that rank: fewer samples than the rank are in the buckets
  -- below it, and as many or more in these and in it.
  pub percentile-rank :
      (xs : List ℤ) (p : D.Double)
      → 0 < num
      → length xs < 2 ^ 64
      → let h = record_samples D num width xs (empty_histogram D num width) in
        target_of D num width p h ≤ length xs
        → (k : ℕ) × (k < num)
          × (percentile D num width p h ≡ pos (k * width + width / 2))
          × (count_below D num width k xs < target_of D num width p h)
          × (target_of D num width p h ≤ count_below D num width (suc k) xs)
  unfolding percentile
  percentile-rank xs p n l e =
      let h = record_samples D num width xs (empty_histogram D num width) in
      let target = target_of D num width p h in
      let (size, total, counts) = record_samples-counts D num width xs n l in
      let some_rank = target_of-pos p h in
      let nonzero : (h.total_samples == 0) ≡ false = ground (arith, total, e, some_rank) in
      let prefix = λ (k : ℕ) (u : k ≤ num).
        sum-take-count_below xs h.buckets k counts (omega (arith, size, u)) in
      let all : sum h.buckets ≡ length xs =
        sym (sum-take_all h.buckets)
        ∙ ap (λ j. sum (take j h.buckets)) size
        ∙ prefix num (omega arith)
        ∙ below-all xs n in
      let (k, u, r, v, w) =
        find_bucket-IsFound target 0 0 h.buckets some_rank (omega (arith, all, e))
          (omega (arith, all, l)) in
      let k_in : k < num = omega (arith, u, size) in
      rw nonzero (
        k,
        k_in,
        r ∙ ap (λ j. pos (j * width + width / 2)) (omega arith),
        omega (arith, v, prefix k (omega (arith, k_in))),
        omega (arith, w, prefix (suc k) (omega (arith, k_in))),
      )
