-- ===== src/Prelude/Words.antt =====
-- Machine words as bit patterns: a w-bit value is a number below 2 ^ w, signed values in two's
-- complement.
use Prim.Native.Nat.{ℕ, ◌+◌, ◌-◌, ◌/◌, ◌%◌, ◌^◌}
use mathlib.Core.Bool.{Bool}
use litemq.Prelude.Tests.{ltb, ◌==◌, if◌then◌else◌}

-- `++x`, `--x` and `x += n` on a 32-bit integer
abbrev pub add32 : ℕ → ℕ → ℕ
add32 a b = (a + b) % 2 ^ 32

abbrev pub dec32 : ℕ → ℕ
dec32 a = (a + 2 ^ 32 - 1) % 2 ^ 32

-- `a < b` on `int`
abbrev pub slt32 : ℕ → ℕ → Bool
slt32 a b = ltb ((a + 2 ^ 31) % 2 ^ 32) ((b + 2 ^ 31) % 2 ^ 32)

-- the conversion of an `int` to `unsigned long`
abbrev pub sext64 : ℕ → ℕ
sext64 a = if ltb a (2 ^ 31) then a else a + 2 ^ 64 - 2 ^ 32

-- `static_cast<int>` of a wider integer
abbrev pub trunc32 : ℕ → ℕ
trunc32 a = a % 2 ^ 32

-- sums and differences of `unsigned long`
abbrev pub add64 : ℕ → ℕ → ℕ
add64 a b = (a + b) % 2 ^ 64

abbrev pub sub64 : ℕ → ℕ → ℕ
sub64 a b = (a + 2 ^ 64 - b) % 2 ^ 64

-- `m & (1 << k)` as a condition
abbrev pub bit_at : ℕ → ℕ → Bool
bit_at m k = m / 2 ^ k % 2 == 1
