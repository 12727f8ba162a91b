-- ===== src/Doubles.antt =====
-- `double`, which the code computes averages with: its operations are a parameter of the modules
-- that use it. `whole` is an instance for runs.
use hfttoolset.Base.{ℕ, ℤ, pos, ltb_ℤ, pos_part, ◌+ℤ◌, ◌-ℤ◌, ◌*ℤ◌, ◌/◌, ◌^◌, Bool}

-- Conversions from and to the integers, zero, the operations, `> 0.0`,
-- `std::ceil`, `>`, and the literal of `a` with `b` decimals.
pub record Doubles : Type 1 where
  pub Double : Type 0
  pub of_int : ℤ → Double
  pub to_int : Double → ℤ
  pub to_size : Double → ℕ
  pub zero_double : Double
  pub add : Double → Double → Double
  pub sub : Double → Double → Double
  pub mul : Double → Double → Double
  pub div : Double → Double → Double
  pub is_positive : Double → Bool
  pub ceil : Double → Double
  pub exceeds : Double → Double → Bool
  pub literal : ℕ → ℕ → Double

abbrev pub quotient : ℤ → ℤ → ℤ
quotient (pos a) (pos b) = pos (a / b)
quotient a b = a

abbrev pub whole : Doubles
whole = record {
  Double = ℤ;
  of_int = λ q. q;
  to_int = λ q. q;
  to_size = λ q. pos_part q;
  zero_double = pos 0;
  add = λ a b. a +ℤ b;
  sub = λ a b. a -ℤ b;
  mul = λ a b. a *ℤ b;
  div = quotient;
  is_positive = λ a. ltb_ℤ (pos 0) a;
  ceil = λ a. a;
  exceeds = λ a b. ltb_ℤ b a;
  literal = λ a b. pos (a / 10 ^ b);
}
