-- ===== src/Bpv7/Canonical.antt =====
-- pkg/bpv7/canonical_block.go and canonical_block_sort.go.
pub mod RoundTrip
use dtn7_go.Base.{
  ℕ, List, [], ◌∷◌, ◌++◌, Bool, true, false, not, ◌&&◌, ◌||◌, ◌==◌, ltb, Option, none, some,
  if◌then◌else◌, consumed, Error, Result, ok, err, panic, then_ok, wrap_err, Reader, ◌>>=◌, ◌>>◌,
  return, wrap, require, wrong_length, payload_block_number,
}
use dtn7_go.Cbor.{Libs}
use dtn7_go.Cbor.Laws.{write_byte_string}
use dtn7_go.Bpv7.Flags.{check_block_flags}
use dtn7_go.Bpv7.Crc.{crc_no, calculate_crc_buff}
use dtn7_go.Bpv7.Primary.{read_crc}
use dtn7_go.Bpv7.Extension.{
  ExtensionBlock, BlockKind, block_type_code, block_type_payload, check_extension, write_block,
  read_block,
}

-- `value` is Go's interface value: `none` is nil, as in `CanonicalBlock{}`.
pub record CanonicalBlock : Type 0 where
  pub block_number : ℕ
  pub block_control_flags : ℕ
  pub crc_type : ℕ
  pub crc : List ℕ
  pub value : Option ExtensionBlock

abbrev pub empty_block : CanonicalBlock
empty_block = record {
  block_number = 0;
  block_control_flags = 0;
  crc_type = 0;
  crc = [];
  value = none;
}

unfoldable pub new_canonical_block : ℕ → ℕ → ExtensionBlock → CanonicalBlock
new_canonical_block number bcf value = record {
  block_number = number;
  block_control_flags = bcf;
  crc_type = crc_no;
  crc = [];
  value = some value;
}

-- A method call on a nil value panics.
abbrev pub of_value {ℓ} :
    {A : Type ℓ} → Option ExtensionBlock → (ExtensionBlock → Result A) → Result A
of_value none f = panic
of_value (some b) f = f b

unfoldable pub type_code : CanonicalBlock → Result ℕ
type_code cb = of_value cb.value λ b. ok (block_type_code b)

-- The type code as a test; only for blocks that have a value.
unfoldable pub has_type : ℕ → CanonicalBlock → Bool
has_type t cb = elim cb.value [ none ↦ false | some b ↦ block_type_code b == t ]

unfoldable pub has_block_crc : CanonicalBlock → Bool
has_block_crc cb = not (cb.crc_type == crc_no)

unfoldable pub set_block_crc_type : ℕ → CanonicalBlock → CanonicalBlock
set_block_crc_type t cb = record cb { crc_type = t }

unfoldable pub check_canonical : CanonicalBlock → Result (List Error)
check_canonical cb = of_value cb.value λ b. ok (
    check_block_flags cb.block_control_flags
    ++ (check_extension b
        ++ (if block_type_code b == block_type_payload && not (cb.block_number == 1)
            then payload_block_number cb.block_number ∷ []
            else [])))

-- `canonicalBlockNumberSort.Less`. It compares block numbers with `BlockTypePayloadBlock`, the type
-- code 1, which is the payload block's number as well.
unfoldable pub less : CanonicalBlock → CanonicalBlock → Bool
less a b =
    if a.block_number == block_type_payload
    then false
    else if b.block_number == block_type_payload
    then true
    else ltb a.block_number b.block_number

module _ (lib : Libs) where
  -- Everything before the CRC.
  unfoldable pub canonical_body : CanonicalBlock → Result (List ℕ)
  canonical_body cb = of_value cb.value λ b. then_ok (wrap_err (write_block lib b)) λ value_bytes.
      ok (
        lib.write_array_length (if has_block_crc cb then 6 else 5)
        ++ (lib.write_uint (block_type_code b)
            ++ (lib.write_uint cb.block_number
                ++ (lib.write_uint cb.block_control_flags
                    ++ (lib.write_uint cb.crc_type ++ value_bytes)))))

  abbrev with_block_crc : List ℕ → CanonicalBlock → List ℕ → Result (List ℕ × CanonicalBlock)
  with_block_crc body cb crc_val =
      ok (body ++ write_byte_string lib crc_val, record cb { crc = crc_val })

  -- `MarshalCbor` writes the block and keeps its CRC in the block.
  unfoldable pub marshal_canonical : CanonicalBlock → Result (List ℕ × CanonicalBlock)
  marshal_canonical cb = then_ok (canonical_body cb) λ body.
      if has_block_crc cb
      then then_ok (calculate_crc_buff lib body cb.crc_type) (with_block_crc body cb)
      else ok (body, cb)

  -- The CRC is taken of the replayed array head and of what was read since.
  unfoldable pub read_canonical_crc : List ℕ → ℕ → ℕ → Reader (List ℕ)
  read_canonical_crc start block_len crc_type s =
      if block_len == 6
      then read_crc lib (lib.write_array_length block_len ++ consumed start s) crc_type s
      else ok ([], s)

  -- What follows the array's head; `start` is the input there.
  unfoldable pub unmarshal_canonical_from :
      (ℕ → Option BlockKind) → ℕ → List ℕ → Reader CanonicalBlock
  unmarshal_canonical_from known block_len start = do
    block_type ← lib.read_uint
    number ← lib.read_uint
    flags ← lib.read_uint
    crc_type ← lib.read_uint
    value ← wrap (read_block lib known block_type)
    crc ← read_canonical_crc start block_len crc_type
    return (record {
      block_number = number;
      block_control_flags = flags;
      crc_type = crc_type;
      crc = crc;
      value = some value;
    })

  abbrev from_here : (ℕ → Option BlockKind) → ℕ → Reader CanonicalBlock
  from_here known block_len s = unmarshal_canonical_from known block_len s s

  unfoldable pub unmarshal_canonical : (ℕ → Option BlockKind) → Reader CanonicalBlock
  unmarshal_canonical known = do
    bl ← lib.read_array_length
    require (bl == 5 || bl == 6) (wrong_length bl)
    from_here known bl
