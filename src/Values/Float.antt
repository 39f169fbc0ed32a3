-- ===== src/Values/Float.antt =====
-- Go's float64 as its 64-bit pattern, and the operations of the language and of package math on it
-- as a parameter of the functions that compute with floats.
use skald.Prelude.{ℕ, Bool}
use skald.Prelude.Int.{ℤ}

abbrev pub Float64 : Type 0
Float64 = ℕ

pub record Floats : Type 0 where
  -- float64(x) of an integer, and time.Duration(f).
  pub of_int : ℤ → Float64
  pub to_int : Float64 → ℤ
  pub add : Float64 → Float64 → Float64
  pub mul : Float64 → Float64 → Float64
  pub div : Float64 → Float64 → Float64
  -- math.Pow, math.Min and math.IsInf(f, 0).
  pub pow : Float64 → Float64 → Float64
  pub min : Float64 → Float64 → Float64
  pub is_inf : Float64 → Bool
  -- The comparisons `==` and `<`.
  pub eq : Float64 → Float64 → Bool
  pub lt : Float64 → Float64 → Bool
  -- The constant 0.2.
  pub one_fifth : Float64
