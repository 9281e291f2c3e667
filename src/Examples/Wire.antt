-- ===== src/Examples/Wire.antt =====
-- A small wire format in the place of the third-party packages, which has what the code relies on of
-- them: a head is one number that holds both the argument and the major type.
use dtn7_go.Base.{
  ℕ, ◌+◌, ◌*◌, ◌/◌, ◌%◌, ◌≤◌, ◌≡◌, refl, List, [], ◌∷◌, ◌++◌, Bool, true, false, ◌==◌, ltb,
  if◌then◌else◌, Reader, ok, err, panic, cbor_failed, wrong_major, flag_break_code, length, take,
  drop, arith, take-append_length, length-append,
}
use mathlib.Core.List.{foldl}
use dtn7_go.Cbor.{Libs}
use dtn7_go.Cbor.Laws.{CborLaws}

unfoldable pub head : ℕ → ℕ → List ℕ
head major n = (n * 8 + major) ∷ []

unfoldable pub read_head : Reader (ℕ × ℕ)
read_head [] = err (cbor_failed 0)
read_head (b ∷ s) = if b == 255 then err flag_break_code else ok ((b % 8, b / 8), s)

unfoldable pub of_major : ℕ → Reader ℕ
unfolding read_head
of_major major s = elim (read_head s) [
  | ok ((m, n), s') ↦ if m == major then ok (n, s') else err (wrong_major m)
  | err e ↦ err e
  | panic ↦ panic
]

unfoldable pub raw : ℕ → Reader (List ℕ)
raw n s = if ltb (length s) n then err (cbor_failed n) else ok (take n s, drop n s)

unfoldable pub expect_byte : ℕ → Reader (Unit {0})
expect_byte b [] = err (cbor_failed 0)
expect_byte b (c ∷ s) = if c == b then ok (tt, s) else err (cbor_failed b)

unfoldable pub boolean_bytes : Bool → List ℕ
boolean_bytes true = 14 ∷ []
boolean_bytes false = 6 ∷ []

unfoldable pub read_boolean_byte : Reader Bool
read_boolean_byte [] = err (cbor_failed 0)
read_boolean_byte (b ∷ s) =
    if b == 14 then ok (true, s) else if b == 6 then ok (false, s) else err (cbor_failed b)

unfoldable pub sum_check : List ℕ → ℕ
sum_check bytes = foldl (λ c b. (c * 3 + b) % 65_536) 0 bytes

abbrev pub small_libs : Libs
small_libs = record {
  major_uint = 0;
  major_text = 3;
  indefinite_array = 159;
  break_code = 255;
  write_uint = head 0;
  write_array_length = head 4;
  write_byte_string_len = head 2;
  write_text_string_len = head 3;
  write_boolean = boolean_bytes;
  read_majors = read_head;
  read_uint = of_major 0;
  read_array_length = of_major 4;
  read_byte_string_len = of_major 2;
  read_raw_bytes = raw;
  read_boolean = read_boolean_byte;
  read_expect = expect_byte;
  crc16_checksum = sum_check;
}

drop-append_length : (xs ys : List ℕ) → drop (length xs) (xs ++ ys) ≡ ys
drop-append_length [] ys = refl
drop-append_length (x ∷ xs) ys = drop-append_length xs ys

read_head-head : (m n : ℕ) (s : List ℕ) → m ≤ 6 → read_head (head m n ++ s) ≡ ok ((m, n), s)
unfolding read_head head
read_head-head m n s h =
    let low : (n * 8 + m) % 8 ≡ m = omega (arith, h) in
    let high : (n * 8 + m) / 8 ≡ n = omega (arith, h) in ground (arith, low, high)

of_major-head : (m n : ℕ) (s : List ℕ) → m ≤ 6 → of_major m (head m n ++ s) ≡ ok (n, s)
unfolding of_major
of_major-head m n s h = rw (of_major, read_head-head m n s h) (ground arith)

raw-append : (bs s : List ℕ) → raw (length bs) (bs ++ s) ≡ ok (bs, s)
unfolding raw
raw-append bs s =
    ground
      (arith, take-append_length (length bs) bs s refl, drop-append_length bs s, length-append bs s)

boolean_read : (b : Bool) (s : List ℕ) → read_boolean_byte (boolean_bytes b ++ s) ≡ ok (b, s)
unfolding read_boolean_byte boolean_bytes
boolean_read true s = refl
boolean_read false s = refl

pub small_laws : CborLaws small_libs
unfolding expect_byte of_major read_head
small_laws = record {
  majors_differ = λ h. absurd (omega (arith, h));
  uint = λ n s _. of_major-head 0 n s (omega arith);
  array_length = λ n s _. of_major-head 4 n s (omega arith);
  byte_string_len = λ n s _. of_major-head 2 n s (omega arith);
  uint_majors = λ n s _. read_head-head 0 n s (omega arith);
  text_majors = λ n s _. read_head-head 3 n s (omega arith);
  raw_bytes = raw-append;
  boolean = boolean_read;
  expect = λ b s. ground arith;
  array_break = λ s. refl;
}
