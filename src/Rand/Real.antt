-- ===== src/Rand/Real.antt =====
-- What the agent takes from the C library and the processor for its doubles: their arithmetic, the
-- functions of math.h, and atof.
use kata_load_test.Base.{ℕ, Bool, List}
use kata_load_test.Base.Int.{ℤ}

pub record Real : Type 1 where
  pub R : Type 0
  -- An int or an unsigned long as a double.
  pub of_int : ℤ → R
  -- A literal: the first number, with as many decimals as the second says.
  pub literal : ℕ → ℕ → R
  pub add : R → R → R
  pub sub : R → R → R
  pub mul : R → R → R
  pub div : R → R → R
  pub neg : R → R
  pub le : R → R → Bool
  pub lt : R → R → Bool
  pub pow : R → R → R
  pub log : R → R
  pub exp : R → R
  pub sqrt : R → R
  pub floor : R → R
  pub ceil : R → R
  -- Conversions to integer types: by truncation, and by lround.
  pub trunc : R → ℤ
  pub lround : R → ℤ
  pub atof : List ℕ → R
