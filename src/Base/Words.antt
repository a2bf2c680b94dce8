-- ===== src/Base/Words.antt =====
-- Unsigned machine words as native numbers: the wrap-around is written out.
use Prim.Native.Nat.{ℕ, ◌+◌, ◌-◌, ◌%◌, ◌^◌}

abbrev pub wrap16 : ℕ → ℕ
wrap16 n = n % 2 ^ 16

abbrev pub wrap32 : ℕ → ℕ
wrap32 n = n % 2 ^ 32

abbrev pub wrap64 : ℕ → ℕ
wrap64 n = n % 2 ^ 64

-- uint16_t and uint64_t subtraction: `-` on ℕ stops at zero, so the modulus is added first. The
-- second operand may be wider than the word.
abbrev pub sub16 : ℕ → ℕ → ℕ
sub16 a b = (a + 2 ^ 16 - b % 2 ^ 16) % 2 ^ 16

abbrev pub sub64 : ℕ → ℕ → ℕ
sub64 a b = (a + 2 ^ 64 - b % 2 ^ 64) % 2 ^ 64
