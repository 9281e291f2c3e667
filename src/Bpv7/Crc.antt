-- ===== src/Bpv7/Crc.antt =====
-- pkg/bpv7/crc.go. The CRC-32 of Go's hash/crc32 is written out; the CRC-16 is a parameter.
pub mod Laws
use dtn7_go.Base.{
  ℕ, zero, suc, ◌+◌, ◌/◌, ◌%◌, ◌^◌, ◌≡◌, refl, List, [], ◌∷◌, ◌++◌, ◌==◌, if◌then◌else◌, bit_xor,
  Result, ok, err, unknown_crc_type, then_ok,
}
use mathlib.Core.List.{foldl}
use dtn7_go.Cbor.{Libs}
use dtn7_go.Cbor.Laws.{write_byte_string}

abbrev pub crc_no : ℕ
crc_no = 0

abbrev pub crc_16 : ℕ
crc_16 = 1

abbrev pub crc_32 : ℕ
crc_32 = 2

-- One bit of the reflected CRC with Castagnoli's polynomial.
crc32_bit : ℕ → ℕ
crc32_bit c = if c % 2 == 1 then bit_xor (c / 2) 0x82f6_3b78 else c / 2

crc32_bits : ℕ → ℕ → ℕ
unfolding crc32_bit
crc32_bits zero c = c
crc32_bits (suc n) c = crc32_bits n (crc32_bit c)

-- `crc32.Checksum(data, crc32.MakeTable(crc32.Castagnoli))`
unfoldable pub crc32_checksum : List ℕ → ℕ
unfolding crc32_bits
crc32_checksum bytes =
    bit_xor (foldl (λ c b. crc32_bits 8 (bit_xor c b)) 0xffff_ffff bytes) 0xffff_ffff

-- The check value of CRC-32C, for "123456789".
crc32_check : crc32_checksum (49 ∷ 50 ∷ 51 ∷ 52 ∷ 53 ∷ 54 ∷ 55 ∷ 56 ∷ 57 ∷ []) ≡ 0xe306_9283
unfolding crc32_checksum
crc32_check = refl

-- `binary.BigEndian.PutUint16` and `PutUint32`.
abbrev pub put_uint16 : ℕ → List ℕ
put_uint16 v = (v / 256 % 256) ∷ (v % 256) ∷ []

abbrev pub put_uint32 : ℕ → List ℕ
put_uint32 v = (v / 2 ^ 24 % 256) ∷ (v / 2 ^ 16 % 256) ∷ put_uint16 v

unfoldable pub empty_crc : ℕ → Result (List ℕ)
empty_crc t =
    if t == crc_no
    then ok []
    else if t == crc_16
    then ok (0 ∷ 0 ∷ [])
    else if t == crc_32
    then ok (0 ∷ 0 ∷ 0 ∷ 0 ∷ [])
    else err (unknown_crc_type t)

-- The checksum of the block's bytes with an empty CRC behind them.
unfoldable pub calculate_crc_buff : Libs → List ℕ → ℕ → Result (List ℕ)
unfolding empty_crc
calculate_crc_buff lib buff t = then_ok (empty_crc t) λ zeros.
    let all = buff ++ write_byte_string lib zeros in
    if t == crc_no
    then ok zeros
    else if t == crc_16
    then ok (put_uint16 (lib.crc16_checksum all))
    else if t == crc_32
    then ok (put_uint32 (crc32_checksum all))
    else err (unknown_crc_type t)
