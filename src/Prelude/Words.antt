-- ===== src/Prelude/Words.antt =====
-- 32-bit words as native numbers: an `int` is its bit pattern, below 2 ^ 32.
use Prim.Native.Nat.{ℕ, ◌+◌, ◌-◌, ◌%◌, ◌^◌}
use mathlib.Core.Bool.{Bool}
use soa_subject.Prelude.Tests.{leb}

-- `a + b` and `a - b` of two words. `-` on ℕ stops at 0, so the modulus is added first.
abbrev pub add32 : ℕ → ℕ → ℕ
add32 a b = (a + b) % 2 ^ 32

abbrev pub sub32 : ℕ → ℕ → ℕ
sub32 a b = (a + 2 ^ 32 - b) % 2 ^ 32

-- `-n` for a small `n`, such as the number of an error.
abbrev pub neg32 : ℕ → ℕ
neg32 n = 2 ^ 32 - n

-- `x < 0`, for an `int`.
abbrev pub is_neg : ℕ → Bool
is_neg x = leb (2 ^ 31) x
