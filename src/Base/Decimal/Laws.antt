-- ===== src/Base/Decimal/Laws.antt =====
-- What is printed in decimal is read back, and consists of digits.
use Prim.Native.Nat.{ℕ, zero, suc, ◌+◌, ◌-◌, ◌*◌, ◌/◌, ◌%◌, ◌^◌, ◌<◌}
use mathlib.Core.Path.{◌≡◌, ◌∙◌, refl}
use mathlib.Core.Bool.{true, false}
use mathlib.Core.List.{List, [], ◌∷◌}
use native.Mathlib.Omega.{arith}
use dtn7_go.Base.Outcome.{ok}
use dtn7_go.Base.Decimal.{digits_from, decimal, all_digits, value_from, is_empty, parse_uint}

value_from-digits_from :
    (rounds n : ℕ) (more : List ℕ)
    → n < rounds
    → value_from 0 (digits_from rounds n more) ≡ value_from n more
unfolding digits_from value_from
value_from-digits_from zero n more h = absurd (omega arith)
value_from-digits_from (suc rounds) n more h =
    let e : n / 10 * 10 + (b'0' + n % 10 - b'0') ≡ n = omega arith in
    let e' : b'0' + n - b'0' ≡ n = omega arith in
    ground (arith, e, e', value_from-digits_from rounds (n / 10) ((b'0' + n % 10) ∷ more))

all_digits-digits_from :
    (rounds n : ℕ) (more : List ℕ)
    → all_digits more ≡ true
    → all_digits (digits_from rounds n more) ≡ true
unfolding digits_from all_digits
all_digits-digits_from zero n more h = h
all_digits-digits_from (suc rounds) n more h =
    ground (arith, all_digits-digits_from rounds (n / 10) ((b'0' + n % 10) ∷ more))

is_empty-digits_from :
    (rounds n : ℕ) (more : List ℕ) → n < rounds → is_empty (digits_from rounds n more) ≡ false
unfolding digits_from
is_empty-digits_from zero n more h = absurd (omega arith)
is_empty-digits_from (suc rounds) n more h =
    ground (arith, is_empty-digits_from rounds (n / 10) ((b'0' + n % 10) ∷ more))

pub all_digits-decimal : (n : ℕ) → all_digits (decimal n) ≡ true
unfolding decimal
all_digits-decimal n = all_digits-digits_from (suc n) n [] (unfold all_digits in refl)

pub is_empty-decimal : (n : ℕ) → is_empty (decimal n) ≡ false
unfolding decimal
is_empty-decimal n = is_empty-digits_from (suc n) n [] (omega arith)

pub value_from-decimal : (n : ℕ) → value_from 0 (decimal n) ≡ n
unfolding decimal
value_from-decimal n =
    value_from-digits_from (suc n) n [] (omega arith) ∙ (unfold value_from in refl)

-- A number of 64 bits is read back from its decimal text.
pub parse_uint-decimal : (n : ℕ) → n < 2 ^ 64 → parse_uint (decimal n) ≡ ok n
unfolding parse_uint
parse_uint-decimal n h =
    ground (arith, is_empty-decimal n, all_digits-decimal n, value_from-decimal n)

-- What is read is a number of 64 bits.
pub parse_uint-lt : (s : List ℕ) (n : ℕ) → parse_uint s ≡ ok n → n < 2 ^ 64
unfolding parse_uint
parse_uint-lt s n h = ground arith
