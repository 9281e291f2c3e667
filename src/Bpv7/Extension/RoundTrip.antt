-- ===== src/Bpv7/Extension/RoundTrip.antt =====
-- Every kind of extension block is read back from what was written for it.
use dtn7_go.Base.{
  ℕ, ◌<◌, ◌≡◌, ◌∙◌, refl, List, [], ◌++◌, append-nil, append_assoc, Option, none, some, length, ok,
  Encodes, Reader, arith, >>=_step,
}
use dtn7_go.Cbor.{Libs}
use dtn7_go.Cbor.Laws.{CborLaws, IsU64, write_byte_string, read_byte_string}
use dtn7_go.Bpv7.Endpoint.{unmarshal_endpoint}
use dtn7_go.Bpv7.Endpoint.RoundTrip.{IsWireEndpoint, endpoint-Encodes}
use dtn7_go.Bpv7.Extension.{
  HopCount, ExtensionBlock, payload, previous_node, bundle_age, hop_count, binary_spray, generic,
  BlockKind, payload_kind, previous_node_kind, bundle_age_kind, hop_count_kind, binary_spray_kind,
  block_type_code, marshal_hop_count, unmarshal_hop_count, marshal_value, write_block,
  unmarshal_value, unmarshal_known, read_block, whole,
}

-- What a manager must know to read such a block: its kind, or nothing of a generic block's code.
abbrev pub kind_of : ExtensionBlock → Option BlockKind
kind_of (payload bytes) = some payload_kind
kind_of (previous_node eid) = some previous_node_kind
kind_of (bundle_age ms) = some bundle_age_kind
kind_of (hop_count hcb) = some hop_count_kind
kind_of (binary_spray copies) = some binary_spray_kind
kind_of (generic code bytes) = none

abbrev pub ValueFits : ExtensionBlock → Type 0
ValueFits (payload bytes) = Unit {0}
ValueFits (previous_node eid) = IsWireEndpoint eid
ValueFits (bundle_age ms) = IsU64 ms
ValueFits (hop_count hcb) = (hcb.limit < 256) × (hcb.count < 256)
ValueFits (binary_spray copies) = IsU64 copies
ValueFits (generic code bytes) = Unit {0}

-- The block's fields have their width, its bytes can be counted in 64 bits, and the manager knows
-- the block's code as the kind that the block is of.
pub record ExtensionFits (lib : Libs) (known : ℕ → Option BlockKind) (b : ExtensionBlock)
    : Type 0 where
  pub value_fits : ValueFits b
  pub size_fits : (bs : List ℕ) → marshal_value lib b ≡ ok bs → IsU64 (length bs)
  pub kind_known : known (block_type_code b) ≡ kind_of b

module _ (lib : Libs) (laws : CborLaws lib) where
  hop_count_read :
      (hcb : HopCount) (rest : List ℕ)
      → hcb.limit < 256
      → hcb.count < 256
      → unmarshal_hop_count lib (marshal_hop_count lib hcb ++ rest) ≡ ok (hcb, rest)
  unfolding unmarshal_hop_count marshal_hop_count
  hop_count_read hcb rest hl hc = grind (arith, append_assoc, laws.array_length, laws.uint)

  whole_read :
      {A : Type 0} (read : Reader A) (make : A → ExtensionBlock) (bs : List ℕ) (a : A)
      → read (bs ++ []) ≡ ok (a, [])
      → whole lib read make bs ≡ ok (make a)
  whole_read read make bs a h = let back : read bs ≡ ok (a, []) = rw append-nil at h in rw back

  Values : ExtensionBlock → Type 0
  Values b =
      (bs : List ℕ) × (marshal_value lib b ≡ ok bs)
      × (unmarshal_known lib (kind_of b) (block_type_code b) bs ≡ ok b)

  values : (b : ExtensionBlock) → ValueFits b → Values b
  unfolding Values marshal_value unmarshal_value
  values (payload bytes) w = (bytes, refl, refl)
  values (previous_node eid) w =
      let (bs, written, read) = endpoint-Encodes lib laws eid w in
      (bs, rw written, whole_read (unmarshal_endpoint lib) previous_node bs eid (read []))
  values (bundle_age ms) w = (_, refl, whole_read lib.read_uint bundle_age _ ms (laws.uint ms [] w))
  values (hop_count hcb) w = (
    _,
    refl,
    whole_read (unmarshal_hop_count lib) hop_count _ hcb (hop_count_read hcb [] w.0 w.1),
  )
  values (binary_spray copies) w =
      (_, refl, whole_read lib.read_uint binary_spray _ copies (laws.uint copies [] w))
  values (generic code bytes) w = (bytes, refl, refl)

  -- Whatever its kind: a block that fits is written without an error, and a manager that knows the
  -- kind reads the same block from the front of any input that begins with what was written. A block
  -- of a code that the manager does not know comes back as the generic block that it was.
  pub extension-Encodes :
      (known : ℕ → Option BlockKind) (b : ExtensionBlock)
      → ExtensionFits lib known b
      → Encodes (write_block lib b) (read_block lib known (block_type_code b)) b
  unfolding Values write_block read_block
  extension-Encodes known b fits =
      let (bs, written, read) = values b fits.value_fits in
      (
        write_byte_string lib bs,
        rw written,
        λ rest. rw append_assoc (
            >>=_step (read_byte_string lib) _ (
              >>=_step lib.read_byte_string_len _
                (laws.byte_string_len (length bs) (bs ++ rest) (fits.size_fits bs written))
              ∙ laws.raw_bytes bs rest)
            ∙ rw (fits.kind_known, read)),
      )
