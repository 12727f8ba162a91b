-- ===== src/Benchmark/Tests.antt =====
-- A benchmark with a counter as the world: a call takes as long as calls came before it.
use mathlib.Core.List.{Permᴰ}
use mathlib.Core.List.Permᴰ
use hfttoolset.Base.{
  ℕ, suc, ℤ, pos, ltb_ℤ, leb_ℤ, ◌≤ℤ◌, ◌+ℤ◌, ◌-ℤ◌, ◌*◌, ◌/◌, ◌^◌, ◌+◌, pos_part, List, [], ◌∷◌, All,
  if◌then◌else◌, ◌≡◌, refl, arith, Bool-cases, inl, inr, ≤ℤ_trans,
}
use hfttoolset.Doubles.{Doubles}
use hfttoolset.Benchmark.{benchmark_p99, warm_up, measure_call}
use hfttoolset.Benchmark.Sorted.{IsAscending}
use hfttoolset.Benchmark.Rank.{
  Sorts, IsMonotone, IsBenchmark, durations, after_calls, benchmark_p99-IsBenchmark,
}

insert : ℤ → List ℤ → List ℤ
insert x [] = x ∷ []
insert x (y ∷ ys) = if leb_ℤ x y then x ∷ y ∷ ys else y ∷ insert x ys

insertion_sort : List ℤ → List ℤ
insertion_sort [] = []
insertion_sort (x ∷ xs) = insert x (insertion_sort xs)

insert-Permᴰ : (x : ℤ) (ys : List ℤ) → Permᴰ (insert x ys) (x ∷ ys)
unfolding insert
insert-Permᴰ x [] = Permᴰ.refl (x ∷ [])
insert-Permᴰ x (y ∷ ys) = elim (Bool-cases (leb_ℤ x y)) [
  | inl e ↦ rw e (Permᴰ.refl (x ∷ y ∷ ys))
  | inr e ↦ rw e (Permᴰ.trans (Permᴰ.cons refl (insert-Permᴰ x ys)) (Permᴰ.swap refl refl))
]

insertion_sort-Permᴰ : (xs : List ℤ) → Permᴰ (insertion_sort xs) xs
unfolding insertion_sort
insertion_sort-Permᴰ [] = Permᴰ.nil
insertion_sort-Permᴰ (x ∷ xs) =
    Permᴰ.trans (insert-Permᴰ x (insertion_sort xs)) (Permᴰ.cons refl (insertion_sort-Permᴰ xs))

All-insert :
    (a x : ℤ) (ys : List ℤ) → a ≤ℤ x → All (λ y. a ≤ℤ y) ys → All (λ y. a ≤ℤ y) (insert x ys)
unfolding insert
All-insert a x [] h k = (h, tt)
All-insert a x (y ∷ ys) h k = elim (Bool-cases (leb_ℤ x y)) [
  | inl e ↦ rw e (h, k)
  | inr e ↦ rw e (k.0, All-insert a x ys h k.1)
]

All-below : (x y : ℤ) (ys : List ℤ) → x ≤ℤ y → All (λ z. y ≤ℤ z) ys → All (λ z. x ≤ℤ z) ys
All-below x y [] h k = tt
All-below x y (z ∷ ys) h k = (≤ℤ_trans x y z h k.0, All-below x y ys h k.1)

IsAscending-insert : (x : ℤ) (ys : List ℤ) → IsAscending ys → IsAscending (insert x ys)
unfolding insert
IsAscending-insert x [] h = (tt, tt)
IsAscending-insert x (y ∷ ys) h = elim (Bool-cases (leb_ℤ x y)) [
  | inl e ↦ let le : x ≤ℤ y = ground arith in rw e ((le, All-below x y ys le h.0), h)
  | inr e ↦
      let le : y ≤ℤ x = ground arith in rw e (All-insert y x ys le h.0, IsAscending-insert x ys h.1)
]

insertion_sort-IsAscending : (xs : List ℤ) → IsAscending (insertion_sort xs)
unfolding insertion_sort
insertion_sort-IsAscending [] = tt
insertion_sort-IsAscending (x ∷ xs) =
    IsAscending-insert x (insertion_sort xs) (insertion_sort-IsAscending xs)

sorts : Sorts insertion_sort
sorts xs = (∣ insertion_sort-Permᴰ xs ∣₁, insertion_sort-IsAscending xs)

-- Numbers in thousandths.
abbrev scaled_product : ℤ → ℤ → ℤ
scaled_product (pos a) (pos b) = pos (a * b / 1000)
scaled_product a b = a

abbrev scaled : ℤ → ℤ
scaled (pos a) = pos (a * 1000)
scaled a = a

abbrev thousandths : Doubles
thousandths = record {
  Double = ℤ;
  of_int = scaled;
  to_int = λ a. pos (pos_part a / 1000);
  to_size = λ a. pos_part a / 1000;
  zero_double = pos 0;
  add = λ a b. a +ℤ b;
  sub = λ a b. a -ℤ b;
  mul = scaled_product;
  div = λ a b. pos (pos_part a * 1000 / pos_part b);
  is_positive = λ a. ltb_ℤ (pos 0) a;
  ceil = λ a. a;
  exceeds = λ a b. ltb_ℤ b a;
  literal = λ a b. pos (a * 1000 / 10 ^ b);
}

monotone : IsMonotone thousandths insertion_sort sorts
monotone m = omega arith

-- The clock reads the counter; a call adds one more than the calls before it.
abbrev Counter : Type 0
Counter = ℕ × ℕ

abbrev call : Counter → Counter
call (calls, time) = (suc calls, time + calls)

abbrev read_clock : Counter → ℤ × Counter
read_clock (calls, time) = (pos time, (calls, time))

abbrev buffer : List ℤ
buffer = pos 9 ∷ pos 9 ∷ pos 9 ∷ pos 9 ∷ []

measured_times : durations call read_clock 3 (1, 0) ≡ pos 1 ∷ pos 2 ∷ pos 3 ∷ []
unfolding measure_call ◌-ℤ◌
measured_times = refl

benchmark_p99-IsBenchmark_example :
    IsBenchmark thousandths insertion_sort sorts 3
      (durations call read_clock 3 (warm_up call 1 (0, 0)))
      (pos 9 ∷ [])
      (after_calls call read_clock 3 (warm_up call 1 (0, 0)))
      (benchmark_p99 thousandths insertion_sort call read_clock buffer 3 1 (0, 0))
benchmark_p99-IsBenchmark_example =
    benchmark_p99-IsBenchmark thousandths insertion_sort sorts call read_clock buffer 3 1 (0, 0)
      monotone (omega arith)
