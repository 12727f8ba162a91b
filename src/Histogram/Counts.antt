-- ===== src/Histogram/Counts.antt =====
-- What the buckets count.
use hfttoolset.Base.{
  ℕ, zero, suc, ℤ, pos_part, List, [], ◌∷◌, if◌then◌else◌, ltb, leb, ◌==◌, set, get_or,
  get_or-set_self, get_or-set_ne, length-set, length-replicate, replicate, length, ◌≡◌, ◌≢◌, refl,
  ap, ◌∙◌, subst, inl, inr, Bool-cases, ◌≤◌, ◌<◌, arith, ◌+◌, ◌/◌, ◌%◌, ◌^◌,
}
use hfttoolset.Doubles.{Doubles}
use hfttoolset.Histogram.{LatencyHistogram, empty_histogram, bucket_of, record_sample}

get_or-zeros : (n k : ℕ) → get_or {A = ℕ} (replicate n 0) k 0 ≡ 0
get_or-zeros zero k = refl
get_or-zeros (suc n) zero = refl
get_or-zeros (suc n) (suc k) = get_or-zeros n k

module _ (D : Doubles) (num width : ℕ) where
  abbrev pub record_samples : List ℤ → LatencyHistogram D → LatencyHistogram D
  record_samples [] h = h
  record_samples (x ∷ xs) h = record_samples xs (record_sample D num width x h)

  -- How many samples are of bucket `k`, and of a bucket below it.
  abbrev pub count_at : ℕ → List ℤ → ℕ
  count_at k [] = 0
  count_at k (x ∷ xs) = (if bucket_of D num width x == k then 1 else 0) + count_at k xs

  abbrev pub count_below : ℕ → List ℤ → ℕ
  count_below k [] = 0
  count_below k (x ∷ xs) = (if ltb (bucket_of D num width x) k then 1 else 0) + count_below k xs

  pub bucket_of-lt : (x : ℤ) → 0 < num → bucket_of D num width x < num
  unfolding bucket_of
  bucket_of-lt x h = elim (Bool-cases (leb num (pos_part x / width))) [
    | inl e ↦ rw e (omega (arith, h))
    | inr e ↦ rw e (ground (arith, e))
  ]

  -- As many buckets as there should be, and none counts more than there are samples.
  pub record IsCounted (h : LatencyHistogram D) : Type 0 where
    pub size : length h.buckets ≡ num
    pub below : (k : ℕ) → get_or h.buckets k 0 ≤ h.total_samples

  sample-at :
      (x : ℤ) (h : LatencyHistogram D) (k : ℕ)
      → 0 < num
      → IsCounted h
      → h.total_samples + 1 < 2 ^ 64
      → get_or (record_sample D num width x h).buckets k 0
        ≡ get_or h.buckets k 0 + (if bucket_of D num width x == k then 1 else 0)
  unfolding record_sample
  sample-at x h k pos_num v l =
      let b = bucket_of D num width x in
      let n = (get_or h.buckets b 0 + 1) % 2 ^ 64 in
      elim (Bool-cases (b == k)) [
        | inl e ↦
            let same : b ≡ k = ground (arith, e) in
            rw e (
              subst (λ y. get_or (set h.buckets b n) y 0 ≡ get_or h.buckets y 0 + 1) same
                (get_or-set_self h.buckets b n 0 (omega (arith, v.size, bucket_of-lt x pos_num))
                  ∙ omega (arith, v.below b, l)))
        | inr e ↦
            let ne : b ≢ k = ground (arith, e) in
            rw e (get_or-set_ne h.buckets n 0 ne ∙ omega arith)
      ]

  total-record_sample :
      (x : ℤ) (h : LatencyHistogram D)
      → h.total_samples + 1 < 2 ^ 64
      → (record_sample D num width x h).total_samples ≡ h.total_samples + 1
  unfolding record_sample
  total-record_sample x h l = omega (arith, l)

  length-record_sample :
      (x : ℤ) (h : LatencyHistogram D)
      → length (record_sample D num width x h).buckets ≡ length h.buckets
  unfolding record_sample
  length-record_sample x h = length-set h.buckets _ _

  sample-IsCounted :
      (x : ℤ) (h : LatencyHistogram D)
      → 0 < num
      → IsCounted h
      → h.total_samples + 1 < 2 ^ 64
      → IsCounted (record_sample D num width x h)
  sample-IsCounted x h p v l = record {
    size = length-record_sample x h ∙ v.size;
    below = λ k. ground (arith, sample-at x h k p v l, total-record_sample x h l, v.below k);
  }

  -- What the samples add to the counts.
  pub samples-counts :
      (xs : List ℤ) (h : LatencyHistogram D)
      → 0 < num
      → IsCounted h
      → h.total_samples + length xs < 2 ^ 64
      → let h' = record_samples xs h in
        IsCounted h'
        × (h'.total_samples ≡ h.total_samples + length xs)
        × ((k : ℕ) → get_or h'.buckets k 0 ≡ get_or h.buckets k 0 + count_at k xs)
  samples-counts [] h p v l = (v, omega arith, λ k. omega arith)
  samples-counts (x ∷ xs) h p v l =
      let room : h.total_samples + 1 < 2 ^ 64 = omega (arith, l) in
      let one = total-record_sample x h room in
      let (w, t, f) =
        samples-counts xs (record_sample D num width x h) p (sample-IsCounted x h p v room)
          (omega (arith, l, one)) in
      (
        w,
        omega (arith, t, one),
        λ k. f k ∙ ap (λ n. n + count_at k xs) (sample-at x h k p v room) ∙ omega arith,
      )

  empty_histogram-IsCounted : IsCounted (empty_histogram D num width)
  unfolding empty_histogram
  empty_histogram-IsCounted = record {
    size = length-replicate num 0;
    below = λ k. omega (arith, get_or-zeros num k);
  }

  -- From the constructor on, fewer than 2^64 samples are counted in all, and each bucket counts
  -- the samples that are of it.
  pub record_samples-counts :
      (xs : List ℤ)
      → 0 < num
      → length xs < 2 ^ 64
      → let h = record_samples xs (empty_histogram D num width) in
        (length h.buckets ≡ num)
        × (h.total_samples ≡ length xs)
        × ((k : ℕ) → get_or h.buckets k 0 ≡ count_at k xs)
  unfolding empty_histogram
  record_samples-counts xs p l =
      let (w, t, f) =
        samples-counts xs (empty_histogram D num width) p empty_histogram-IsCounted
          (omega (arith, l)) in
      (
        w.size,
        t ∙ omega arith,
        λ k. f k ∙ ap (λ n. n + count_at k xs) (get_or-zeros num k) ∙ omega arith,
      )
