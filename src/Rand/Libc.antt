-- ===== src/Rand/Libc.antt =====
-- The conversions of texts that the agent takes from the C library.
use kata_load_test.Base.{ℕ, Option, List}
use kata_load_test.Base.Int.{ℤ}

-- `inet_pton` gives an address in network order, or fails and writes nothing.
pub record Libc : Type 0 where
  pub atoi : List ℕ → ℤ
  pub inet_pton : List ℕ → Option ℕ
