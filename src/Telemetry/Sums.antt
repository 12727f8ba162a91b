-- ===== src/Telemetry/Sums.antt =====
-- The sums of fixed-point numbers, which wrap in 64 bits.
use hfttoolset.Base.{
  ℕ, ℤ, pos, negsuc, pos_part, neg_part, ◌+ℤ◌, List, [], ◌∷◌, length, ltb, ◌≡◌, refl, ap, ◌∙◌, ◌+◌,
  ◌-◌, ◌%◌, ◌^◌, ◌<◌, arith, int_laws, All, Option, none, some, true, false,
}
use hfttoolset.Doubles.{Doubles}
use hfttoolset.Telemetry.{
  Telemetry, bits_of, fits_int64, scaled, fixed_point, slippage_added, fixed_point_scale,
  record_slippage, new_telemetry,
}
use hfttoolset.Telemetry.Dashboard.{of_bits, average_fixed_point, print_dashboard}

bits_of-mod : (q : ℤ) → (bits_of q + neg_part q) % 2 ^ 64 ≡ pos_part q % 2 ^ 64
unfolding bits_of
bits_of-mod (pos n) = omega arith
bits_of-mod (negsuc n) = omega arith

bits_of-lt : (q : ℤ) → bits_of q < 2 ^ 64
unfolding bits_of
bits_of-lt (pos n) = omega arith
bits_of-lt (negsuc n) = omega arith

bits_of-add : (a b : ℤ) → (bits_of a + bits_of b) % 2 ^ 64 ≡ bits_of (a +ℤ b)
bits_of-add a b =
    omega (int_laws, bits_of-mod a, bits_of-mod b, bits_of-mod (a +ℤ b), bits_of-lt (a +ℤ b))

-- The range of an int64_t.
abbrev pub Fits : ℤ → Type 0
Fits q = fits_int64 q ≡ true

of_bits-bits_of : (q : ℤ) → Fits q → of_bits (bits_of q) ≡ q
unfolding of_bits bits_of fits_int64
of_bits-bits_of (pos n) h = ground (arith, h)
of_bits-bits_of (negsuc n) h =
    let k : n < 2 ^ 63 = ground (arith, h) in
    let high : ltb (2 ^ 64 - 1 - n % 2 ^ 64) (2 ^ 63) ≡ false = ground (arith, k) in
    rw high (omega (int_laws, k))

module _ (D : Doubles) where
  -- The sum of the slippages in fixed-point units.
  unfoldable pub fixed_total : List D.Double → ℤ
  fixed_total [] = pos 0
  fixed_total (x ∷ xs) = scaled D x +ℤ fixed_total xs

  -- `none`: a cast is out of range.
  abbrev pub then_slippages :
      (Telemetry D → Option (Telemetry D)) → Option (Telemetry D) → Option (Telemetry D)
  then_slippages f none = none
  then_slippages f (some t) = f t

  abbrev pub record_slippages : List D.Double → Telemetry D → Option (Telemetry D)
  record_slippages [] t = some t
  record_slippages (x ∷ xs) t = then_slippages (record_slippages xs) (record_slippage D x t)

  average_lem :
      (sum : ℤ) (n : ℕ)
      → 0 < n
      → Fits sum
      → average_fixed_point D (bits_of sum) n
        ≡ some (D.div (D.of_int sum) (D.mul (D.of_int (pos n)) (D.of_int fixed_point_scale)))
  unfolding average_fixed_point
  average_lem sum n l h =
      let some_there : ltb 0 n ≡ true = ground (arith, l) in
      rw (some_there, of_bits-bits_of sum h) refl

  -- After one slippage: its bits and one more.
  added : D.Double → Telemetry D → Telemetry D
  added x t = record t {
    slippage_sum = (t.slippage_sum + bits_of (scaled D x)) % 2 ^ 64;
    slippage_count = (t.slippage_count + 1) % 2 ^ 64;
  }

  record_slippage-added :
      (x : D.Double) (t : Telemetry D)
      → Fits (scaled D x)
      → record_slippage D x t ≡ some (added x t)
  unfolding record_slippage slippage_added fixed_point added
  record_slippage-added x t h = rw h refl

  -- The slippages are all recorded, each with its bits.
  slippages-recorded :
      (xs : List D.Double) (t : Telemetry D)
      → All (λ x. Fits (scaled D x)) xs
      → t.slippage_sum < 2 ^ 64
      → t.slippage_count < 2 ^ 64
      → (t' : Telemetry D) × (record_slippages xs t ≡ some t')
        × (t'.slippage_sum ≡ (t.slippage_sum + bits_of (fixed_total xs)) % 2 ^ 64)
        × (t'.slippage_count ≡ (t.slippage_count + length xs) % 2 ^ 64)
  unfolding fixed_total bits_of added
  slippages-recorded [] t a h k = (t, refl, omega (arith, h), omega (arith, k))
  slippages-recorded (x ∷ xs) t a h k =
      let (t', e, s, c) = slippages-recorded xs (added x t) a.1 (omega arith) (omega arith) in
      (
        t',
        ap (then_slippages (record_slippages xs)) (record_slippage-added x t a.0) ∙ e,
        s ∙ omega (arith, bits_of-add (scaled D x) (fixed_total xs)),
        c ∙ omega arith,
      )

  -- Slippages that are each in the range of an int64_t in fixed-point units are all recorded. The
  -- dashboard then shows, if their sum is in that range too, the sum over their number in
  -- fixed-point units: although it is kept in wrapping bits, neither the order of the slippages nor
  -- a partial sum out of range matters.
  pub avg_slippage-record_slippages :
      (xs : List D.Double)
      → 0 < length xs
      → length xs < 2 ^ 64
      → All (λ x. Fits (scaled D x)) xs
      → Fits (fixed_total xs)
      → (t : Telemetry D) × (record_slippages xs (new_telemetry D) ≡ some t)
        × ((print_dashboard D t).avg_slippage
            ≡ some (
                D.div
                  (D.of_int (fixed_total xs))
                  (D.mul (D.of_int (pos (length xs))) (D.of_int fixed_point_scale))))
  unfolding print_dashboard
  avg_slippage-record_slippages xs some_there few each h =
      let (t, e, s, c) = slippages-recorded xs (new_telemetry D) each (omega arith) (omega arith) in
      let sum : t.slippage_sum ≡ bits_of (fixed_total xs) =
        s ∙ omega (arith, bits_of-lt (fixed_total xs)) in
      let count : t.slippage_count ≡ length xs = c ∙ omega (arith, few) in
      (
        t,
        e,
        ap (λ n. average_fixed_point D n t.slippage_count) sum
            ∙ ap (average_fixed_point D (bits_of (fixed_total xs))) count
            ∙ average_lem (fixed_total xs) (length xs) some_there h,
      )
