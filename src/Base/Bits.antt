-- ===== src/Base/Bits.antt =====
-- Bit masks at variables: the lowest digit of `bit_and` and `bit_or`, and single flags by it.
use Prim.Native.Nat.{
  ℕ, zero, suc, ◌+◌, ◌*◌, ◌/◌, ◌%◌, ◌≤◌, min, max, bit_and, bit_or, digits, bit_and-bitwise,
  bit_or-bitwise,
}
use mathlib.Core.Path.{◌≡◌, refl, ap}
use native.Mathlib.Omega.{arith}

-- More rounds than the first number has digits change nothing.
module _ (edge : ℕ → ℕ) (op : ℕ → ℕ → ℕ) where
  rounds_enough : (n m x b : ℕ) → x ≤ n → x ≤ m → digits edge op n x b ≡ digits edge op m x b
  rounds_enough zero zero x b p q = refl
  rounds_enough zero (suc m) zero b p q = refl
  rounds_enough (suc n) zero zero b p q = refl
  rounds_enough (suc n) (suc m) zero b p q = refl
  rounds_enough zero (suc m) (suc x) b p q = absurd (omega arith)
  rounds_enough (suc n) zero (suc x) b p q = absurd (omega arith)
  rounds_enough (suc n) (suc m) (suc x) b p q =
      ap (λ (d : ℕ). d * 2 + op (suc x % 2) (b % 2))
        (rounds_enough n m (suc x / 2) (b / 2) (omega arith) (omega arith))

  digits_lowest :
      (x b : ℕ)
      → digits edge op (suc x) (suc x) b
        ≡ digits edge op (suc x / 2) (suc x / 2) (b / 2) * 2 + op (suc x % 2) (b % 2)
  digits_lowest x b =
      ap (λ (d : ℕ). d * 2 + op (suc x % 2) (b % 2))
        (rounds_enough x (suc x / 2) (suc x / 2) (b / 2) (omega arith) (omega arith))

pub zero-bit_and : (b : ℕ) → bit_and 0 b ≡ 0
zero-bit_and b = bit_and-bitwise 0 b

pub zero-bit_or : (b : ℕ) → bit_or 0 b ≡ b
zero-bit_or b = bit_or-bitwise 0 b

pub bit_and_lowest : (x b : ℕ) → bit_and x b ≡ bit_and (x / 2) (b / 2) * 2 + min (x % 2) (b % 2)
bit_and_lowest zero b = omega (arith, zero-bit_and b, zero-bit_and (b / 2))
bit_and_lowest (suc x) b = omega (
  arith,
  bit_and-bitwise (suc x) b,
  bit_and-bitwise (suc x / 2) (b / 2),
  digits_lowest (λ c. zero) min x b,
)

pub bit_or_lowest : (x b : ℕ) → bit_or x b ≡ bit_or (x / 2) (b / 2) * 2 + max (x % 2) (b % 2)
bit_or_lowest zero b = omega (arith, zero-bit_or b, zero-bit_or (b / 2))
bit_or_lowest (suc x) b = omega (
  arith,
  bit_or-bitwise (suc x) b,
  bit_or-bitwise (suc x / 2) (b / 2),
  digits_lowest (λ c. c) max x b,
)

halves_of_zero : (n x : ℕ) → x ≤ n → (bit_and x 0 ≡ 0) × (bit_or x 0 ≡ x)
halves_of_zero n zero h = (zero-bit_and 0, zero-bit_or 0)
halves_of_zero zero (suc x) h = absurd (omega arith)
halves_of_zero (suc n) (suc x) h = omega (
  arith,
  bit_and_lowest (suc x) 0,
  bit_or_lowest (suc x) 0,
  halves_of_zero n (suc x / 2) (omega arith),
)

pub bit_and-one : (x : ℕ) → bit_and x 1 ≡ x % 2
bit_and-one x = omega (arith, bit_and_lowest x 1, (halves_of_zero (x / 2) (x / 2) (omega arith)).0)

pub bit_or-one : (x : ℕ) → bit_or x 1 ≡ x / 2 * 2 + 1
bit_or-one x = omega (arith, bit_or_lowest x 1, (halves_of_zero (x / 2) (x / 2) (omega arith)).1)

-- A mask of twice the size looks at half of the number.
pub bit_and-double : (x m : ℕ) → bit_and x (m * 2) ≡ bit_and (x / 2) m * 2
bit_and-double x m = omega (arith, bit_and_lowest x (m * 2), ap (bit_and (x / 2)) (half m))
  where
    half : (k : ℕ) → k * 2 / 2 ≡ k
    half k = omega arith
