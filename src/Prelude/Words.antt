-- ===== src/Prelude/Words.antt =====
-- Unsigned machine words. A value is a plain number, and each operation keeps its wrap-around.
use Prim.Native.Nat.{ℕ, ◌+◌, ◌-◌, ◌*◌, ◌%◌}

abbrev pub uint32_max : ℕ
uint32_max = 4294967295

-- a + b, a - b and a * b of `uint32_t`
abbrev pub add32 : ℕ → ℕ → ℕ
add32 a b = (a + b) % 4294967296

abbrev pub sub32 : ℕ → ℕ → ℕ
sub32 a b = (a + 4294967296 - b) % 4294967296

abbrev pub mul32 : ℕ → ℕ → ℕ
mul32 a b = (a * b) % 4294967296

-- static_cast<uint32_t>(a)
abbrev pub cast32 : ℕ → ℕ
cast32 a = a % 4294967296

-- a + b, a - b and a * b of `uint64_t`
abbrev pub add64 : ℕ → ℕ → ℕ
add64 a b = (a + b) % 18446744073709551616

abbrev pub sub64 : ℕ → ℕ → ℕ
sub64 a b = (a + 18446744073709551616 - b) % 18446744073709551616

abbrev pub mul64 : ℕ → ℕ → ℕ
mul64 a b = (a * b) % 18446744073709551616
