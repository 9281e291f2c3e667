-- ===== src/Base/Int.antt =====
-- Go's signed integers: `negsuc n` is the number -(n + 1).
use Prim.Native.Nat.{ℕ, ◌+◌, ◌-◌, ◌/◌, ◌%◌, ◌^◌}
use mathlib.Core.Bool.{Bool, true, false}
use dtn7_go.Base.Tests.{◌==◌}

pub data ℤ : Type 0 where
  pos : ℕ → ℤ
  negsuc : ℕ → ℤ

abbrev pub is_negative : ℤ → Bool
is_negative (pos n) = false
is_negative (negsuc n) = true

-- `x <= 0`
abbrev pub is_not_positive : ℤ → Bool
is_not_positive (pos n) = n == 0
is_not_positive (negsuc n) = true

-- `uint8(x)`
abbrev pub to_uint8 : ℤ → ℕ
to_uint8 (pos n) = n % 2 ^ 8
to_uint8 (negsuc n) = 2 ^ 8 - 1 - n % 2 ^ 8

-- `uint64(x)`
abbrev pub to_uint64 : ℤ → ℕ
to_uint64 (pos n) = n % 2 ^ 64
to_uint64 (negsuc n) = 2 ^ 64 - 1 - n % 2 ^ 64

-- `uint64(x / 1000000)`: Go divides towards 0.
abbrev pub millions : ℤ → ℕ
millions (pos n) = n / 1_000_000 % 2 ^ 64
millions (negsuc n) = (2 ^ 64 - (n + 1) / 1_000_000 % 2 ^ 64) % 2 ^ 64
