-- ===== src/Game/Floats.antt =====
-- `float` and the functions of <cmath> and DirectXMath, which the server uses and does not
-- implement.
use simple_mmo.Prelude.{ℕ, Bool}
use simple_mmo.Prelude.Int.{ℤ}

pub record Floats : Type 1 where
  pub F : Type 0
  -- the literal numerator / denominator
  pub ratio : ℕ → ℕ → F
  pub add : F → F → F
  pub sub : F → F → F
  pub mul : F → F → F
  pub div : F → F → F
  pub lt : F → F → Bool
  pub le : F → F → Bool
  pub eq : F → F → Bool
  pub neg : F → F
  pub abs : F → F
  pub sqrt : F → F
  pub cos : F → F
  pub sin : F → F
  pub atan2 : F → F → F
  -- FLT_MAX
  pub largest : F
  -- `static_cast<int>`, and the conversion of an `int`
  pub to_int : F → ℤ
  pub of_int : ℤ → F
