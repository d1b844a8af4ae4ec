-- ===== src/Base/Word.antt =====
-- Unsigned machine integers as native numbers below their modulus.
use Prim.Native.Nat.{ℕ, ◌+◌, ◌%◌, min}

-- `u32::MAX` and `u64::MAX`.
abbrev pub u32_max : ℕ
u32_max = 4294967295

abbrev pub u64_max : ℕ
u64_max = 18446744073709551615

-- `u32::saturating_add`, `u64::saturating_add`.
abbrev pub sat_add32 : ℕ → ℕ → ℕ
sat_add32 a b = min (a + b) u32_max

abbrev pub sat_add64 : ℕ → ℕ → ℕ
sat_add64 a b = min (a + b) u64_max

-- `a += b` on a `u32` in the release profile, which wraps.
abbrev pub add32 : ℕ → ℕ → ℕ
add32 a b = (a + b) % 4294967296

-- `a += b` on a `u64` in the release profile, which wraps.
abbrev pub add64 : ℕ → ℕ → ℕ
add64 a b = (a + b) % 18446744073709551616
