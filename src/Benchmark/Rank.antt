-- ===== src/Benchmark/Rank.antt =====
-- `benchmark_p99`: what is measured, and the rank of the two percentiles in it.
use mathlib.Core.List.{Perm}
use hfttoolset.Base.{
  ℕ, zero, suc, ℤ, pos, ◌≤ℤ◌, leb_ℤ, List, [], ◌∷◌, ◌++◌, length, take, get_or, min, ltb,
  if◌then◌else◌, ◌+◌, ◌-◌, ◌≤◌, ◌<◌, ◌≡◌, refl, sym, subst, ap, ◌∙◌, arith,
}
use hfttoolset.Doubles.{Doubles}
use hfttoolset.Benchmark.{
  clamp_index, after_first, Benchmark, warm_up, measure_call, measure, percentile_index, stats_of,
  finish_benchmark, benchmark_p99,
}
use hfttoolset.Benchmark.Sorted.{
  IsAscending, count, count-Perm, length-Perm, count-IsAscending, ascending_items,
}

-- At least k + 1 of the values are no more than `v`, and all but k at least are no less.
abbrev pub HasRank : ℕ → ℤ → List ℤ → Type 0
HasRank k v ds = (k + 1 ≤ count (λ d. leb_ℤ d v) ds) × (length ds - k ≤ count (leb_ℤ v) ds)

-- What the sort of the standard library is documented to do.
abbrev pub Sorts : (List ℤ → List ℤ) → Type 0
Sorts sort = (xs : List ℤ) → Perm (sort xs) xs × IsAscending (sort xs)

clamp_index-lt : (i n : ℕ) → 0 < n → clamp_index i n < n
unfolding clamp_index
clamp_index-lt i n h = ground (arith, h)

clamp_index-le : (i j n : ℕ) → i ≤ j → clamp_index i n ≤ clamp_index j n
unfolding clamp_index
clamp_index-le i j n h = ground (arith, h)

take_front : (n : ℕ) (xs ys : List ℤ) → length xs ≡ n → take n (xs ++ ys) ≡ xs
take_front zero [] ys h = refl
take_front zero (x ∷ xs) ys h = absurd (omega (arith, h))
take_front (suc n) [] ys h = absurd (omega (arith, h))
take_front (suc n) (x ∷ xs) ys h = ap (λ l. x ∷ l) (take_front n xs ys (omega (arith, h)))

after_first_front : (n : ℕ) (xs ys : List ℤ) → length xs ≡ n → after_first n (xs ++ ys) ≡ ys
after_first_front zero [] ys h = refl
after_first_front zero (x ∷ xs) ys h = absurd (omega (arith, h))
after_first_front (suc n) [] ys h = absurd (omega (arith, h))
after_first_front (suc n) (x ∷ xs) ys h = after_first_front n xs ys (omega (arith, h))

module _ {World : Type 0} (invoke : World → World) (clock_now : World → ℤ × World) where
  -- The time of each of `n` calls in turn, and the world after them.
  abbrev pub durations : ℕ → World → List ℤ
  durations zero w = []
  durations (suc n) w =
      (measure_call invoke clock_now w).0 ∷ durations n (measure_call invoke clock_now w).1

  abbrev pub after_calls : ℕ → World → World
  after_calls zero w = w
  after_calls (suc n) w = after_calls n (measure_call invoke clock_now w).1

  pub length-durations : (n : ℕ) (w : World) → length (durations n w) ≡ n
  length-durations zero w = refl
  length-durations (suc n) w = ap suc (length-durations n _)

  measure-durations :
      (n : ℕ) (buffer : List ℤ) (w : World)
      → n ≤ length buffer
      → measure invoke clock_now n buffer w
        ≡ (durations n w ++ after_first n buffer, after_calls n w)
  unfolding measure
  measure-durations zero buffer w h = refl
  measure-durations (suc n) [] w h = absurd (omega (arith, h))
  measure-durations (suc n) (b ∷ buffer) w h =
      ap (λ r. ((measure_call invoke clock_now w).0 ∷ r.0, r.1))
        (measure-durations n buffer _ (omega (arith, h)))

measured :
    (iterations size : ℕ) → (if ltb size iterations then size else iterations) ≡ min iterations size
measured iterations size = ground arith

module _ (D : Doubles) (sort : List ℤ → List ℤ) (h : Sorts sort) where
  length-sort : (ds : List ℤ) → length (sort ds) ≡ length ds
  length-sort ds = length-Perm (h ds).0

  sort-HasRank : (ds : List ℤ) (i : ℕ) → i < length ds → HasRank i (get_or (sort ds) i (pos 0)) ds
  sort-HasRank ds i l =
      let v = get_or (sort ds) i (pos 0) in
      let (below, above) =
        count-IsAscending (sort ds) i (pos 0) (h ds).1 (omega (arith, length-sort ds, l)) in
      (
        omega (arith, below, count-Perm (λ d. leb_ℤ d v) (h ds).0),
        omega (arith, above, length-sort ds, count-Perm (leb_ℤ v) (h ds).0),
      )

  percentile_index-lt : (digits decimals n : ℕ) → 0 < n → percentile_index D digits decimals n < n
  unfolding percentile_index
  percentile_index-lt digits decimals n l = clamp_index-lt _ n l

  -- What the product of a literal and a count is documented to be at least: a double is
  -- monotone in its factor.
  abbrev pub IsMonotone : Type 0
  IsMonotone =
      (m : ℕ)
      → D.to_size (D.mul (D.literal 99 2) (D.of_int (pos m)))
        ≤ D.to_size (D.mul (D.literal 999 3) (D.of_int (pos m)))

  percentile_index-le :
      IsMonotone → (n : ℕ) → percentile_index D 99 2 n ≤ percentile_index D 999 3 n
  unfolding percentile_index
  percentile_index-le mono n = clamp_index-le _ _ n (mono (n - 1))

  module _ {World : Type 0} where
    finish_benchmark_lem :
        (k : ℕ) (ds rest : List ℤ) (w : World)
        → length ds ≡ suc k
        → finish_benchmark D sort (suc k) (ds ++ rest, w) ≡ record {
          stats = stats_of D (sort ds) (suc k);
          latencies_buffer = sort ds ++ rest;
          world = w;
        }
    unfolding finish_benchmark
    finish_benchmark_lem k ds rest w e =
        rw (take_front (suc k) ds rest e, after_first_front (suc k) ds rest e) refl

    -- What a benchmark of the times `ds` with the rest of the buffer `rest` returns.
    pub record IsBenchmark (n : ℕ) (ds rest : List ℤ) (w : World) (r : Benchmark World)
        : Type 0 where
      pub same_samples : r.stats.samples ≡ n
      pub p99 : HasRank (percentile_index D 99 2 n) r.stats.p99_ns ds
      pub p999 : HasRank (percentile_index D 999 3 n) r.stats.p999_ns ds
      pub ordered : r.stats.p99_ns ≤ℤ r.stats.p999_ns
      pub sorted : IsAscending (take n r.latencies_buffer)
      pub kept : Perm (take n r.latencies_buffer) ds
      pub untouched : after_first n r.latencies_buffer ≡ rest
      pub world_after : r.world ≡ w

    finish_benchmark-IsBenchmark :
        (n : ℕ) (ds rest : List ℤ) (w : World)
        → IsMonotone
        → 0 < n
        → length ds ≡ n
        → IsBenchmark n ds rest w (finish_benchmark D sort n (ds ++ rest, w))
    unfolding stats_of
    finish_benchmark-IsBenchmark zero ds rest w mono l e = absurd (omega (arith, l))
    finish_benchmark-IsBenchmark (suc k) ds rest w mono l e =
        let n : ℕ = suc k in
        let all_of_it = length-sort ds ∙ e in
        rw (finish_benchmark_lem k ds rest w e) (record {
          same_samples = refl;
          p99 = sort-HasRank ds _ (omega (arith, percentile_index-lt 99 2 n l, e));
          p999 = sort-HasRank ds _ (omega (arith, percentile_index-lt 999 3 n l, e));
          ordered = ascending_items (sort ds) _ _ (pos 0) (h ds).1 (percentile_index-le mono n) (
              subst (λ m. percentile_index D 999 3 n < m) (sym all_of_it)
                (percentile_index-lt 999 3 n l));
          sorted = subst IsAscending (sym (take_front n (sort ds) rest all_of_it)) (h ds).1;
          kept = subst (λ l. Perm l ds) (sym (take_front n (sort ds) rest all_of_it)) (h ds).0;
          untouched = after_first_front n (sort ds) rest all_of_it;
          world_after = refl;
        })

    -- A benchmark of at least one call, with a sort that sorts and a product of doubles that is
    -- monotone, measures the lesser of the iterations asked for and the length of the buffer, after
    -- the warm-up calls. At least index + 1 of the times are no more than a percentile, and all but
    -- index at least are no less, for the index that the code computes; the percentile 99 is no more
    -- than the percentile 99.9. The front of the buffer holds the times in ascending order, and the
    -- rest of it is untouched.
    pub benchmark_p99-IsBenchmark :
        (invoke : World → World) (clock_now : World → ℤ × World) (buffer : List ℤ)
        (iterations warmup : ℕ) (w : World)
        → IsMonotone
        → 0 < min iterations (length buffer)
        → let n = min iterations (length buffer) in
          let w' = warm_up invoke warmup w in
          IsBenchmark n
            (durations invoke clock_now n w')
            (after_first n buffer)
            (after_calls invoke clock_now n w')
            (benchmark_p99 D sort invoke clock_now buffer iterations warmup w)
    unfolding benchmark_p99
    benchmark_p99-IsBenchmark invoke clock_now buffer iterations warmup w mono l =
        let n = min iterations (length buffer) in
        let w' = warm_up invoke warmup w in
        rw
          (
            measured iterations (length buffer),
            measure-durations invoke clock_now n buffer w' (omega arith),
          )
          (finish_benchmark-IsBenchmark n _ _ _ mono l (length-durations invoke clock_now n w'))
