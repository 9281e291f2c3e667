-- ===== src/Base/Decimal.antt =====
-- Decimal texts, as `%d` of package fmt prints an unsigned number and as `strconv.ParseUint` with
-- base 10 and 64 bits reads it.
pub mod Laws
use Prim.Native.Nat.{ℕ, zero, suc, ◌+◌, ◌-◌, ◌*◌, ◌/◌, ◌%◌, ◌^◌}
use mathlib.Core.Bool.{Bool, true, false, not, ◌&&◌}
use mathlib.Core.List.{List, [], ◌∷◌}
use dtn7_go.Base.Tests.{ltb, leb, if◌then◌else◌}
use dtn7_go.Base.Outcome.{Result, ok, err, not_a_number, number_too_large}

-- The digits of `n` in front of `more`. Each round drops one, so more than `n` rounds are enough.
unfoldable pub digits_from : ℕ → ℕ → List ℕ → List ℕ
digits_from zero n more = more
digits_from (suc rounds) n more =
    let rest = digits_from rounds (n / 10) ((b'0' + n % 10) ∷ more) in
    if ltb n 10 then (b'0' + n) ∷ more else rest

-- `%d`
unfoldable pub decimal : ℕ → List ℕ
unfolding digits_from
decimal n = digits_from (suc n) n []

abbrev pub is_digit : ℕ → Bool
is_digit c = leb b'0' c && leb c b'9'

unfoldable pub all_digits : List ℕ → Bool
all_digits [] = true
all_digits (c ∷ cs) = is_digit c && all_digits cs

unfoldable pub value_from : ℕ → List ℕ → ℕ
value_from v [] = v
value_from v (c ∷ cs) = value_from (v * 10 + (c - b'0')) cs

abbrev pub is_empty : List ℕ → Bool
is_empty [] = true
is_empty (c ∷ cs) = false

-- `strconv.ParseUint(s, 10, 64)`
unfoldable pub parse_uint : List ℕ → Result ℕ
unfolding all_digits value_from
parse_uint s =
    if is_empty s
    then err not_a_number
    else if not (all_digits s)
    then err not_a_number
    else if ltb (value_from 0 s) (2 ^ 64)
    then ok (value_from 0 s)
    else err number_too_large
