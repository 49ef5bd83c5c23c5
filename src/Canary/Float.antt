-- ===== src/Canary/Float.antt =====
-- What the program uses of float64, as operations on a type of their own: nothing is assumed of their
-- rounding.
use netvantage.Prelude.{Bool, ℤ, String}

pub record Float (F : Type 0) : Type 0 where
  pub of_int : ℤ → F
  pub of_ratio : ℤ → ℤ → F  -- a constant of the source, such as 0.25
  pub to_int : F → ℤ
  pub add : F → F → F
  pub sub : F → F → F
  pub mul : F → F → F
  pub div : F → F → F
  pub lt : F → F → Bool
  pub eq : F → F → Bool
  pub two_decimals : F → String  -- "%.2f"
