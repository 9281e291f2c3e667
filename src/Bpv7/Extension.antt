-- ===== src/Bpv7/Extension.antt =====
-- pkg/bpv7/extension_block.go and the blocks that it manages: payload_block.go,
-- extension_block_previous_node.go, extension_block_bundle_age.go, extension_block_hop_count.go,
-- extension_block_spray.go and extension_block_generic.go.
pub mod Registry
pub mod RoundTrip
use dtn7_go.Base.{
  ℕ, ◌+◌, ◌%◌, ◌^◌, List, [], ◌∷◌, ◌++◌, Bool, ◌==◌, leb, ltb, Option, none, some, if◌then◌else◌,
  Result, ok, err, panic, then_ok, wrap_err, Error, Reader, ◌>>=◌, ◌>>◌, return, require,
  wrong_length, out_of_range, hop_count_exceeded, errors_of,
}
use dtn7_go.Cbor.{Libs}
use dtn7_go.Cbor.Laws.{write_byte_string, read_byte_string}
use dtn7_go.Bpv7.Endpoint.{EndpointId, check_endpoint, marshal_endpoint, unmarshal_endpoint}

-- `HopCountBlock`, two bytes.
pub record HopCount : Type 0 where
  pub limit : ℕ
  pub count : ℕ

-- Go's interface `ExtensionBlock`, by the types that implement it.
pub data ExtensionBlock : Type 0 where
  payload : List ℕ → ExtensionBlock
  previous_node : EndpointId → ExtensionBlock
  bundle_age : ℕ → ExtensionBlock
  hop_count : HopCount → ExtensionBlock
  binary_spray : ℕ → ExtensionBlock
  -- The type code and the data.
  generic : ℕ → List ℕ → ExtensionBlock

abbrev pub block_type_payload : ℕ
block_type_payload = 1

abbrev pub block_type_previous_node : ℕ
block_type_previous_node = 6

abbrev pub block_type_bundle_age : ℕ
block_type_bundle_age = 7

abbrev pub block_type_hop_count : ℕ
block_type_hop_count = 10

abbrev pub block_type_binary_spray : ℕ
block_type_binary_spray = 192

abbrev pub block_type_code : ExtensionBlock → ℕ
block_type_code (payload bytes) = block_type_payload
block_type_code (previous_node eid) = block_type_previous_node
block_type_code (bundle_age ms) = block_type_bundle_age
block_type_code (hop_count hcb) = block_type_hop_count
block_type_code (binary_spray copies) = block_type_binary_spray
block_type_code (generic code bytes) = code

unfoldable pub new_hop_count : ℕ → HopCount
new_hop_count limit = record { limit = limit; count = 0 }

unfoldable pub is_exceeded : HopCount → Bool
is_exceeded hcb = ltb hcb.limit hcb.count

-- The counter is a `uint8` and wraps.
unfoldable pub increment_hops : HopCount → HopCount × Bool
unfolding is_exceeded
increment_hops hcb =
    let hcb' = record hcb { count = (hcb.count + 1) % 2 ^ 8 } in (hcb', is_exceeded hcb')

unfoldable pub decrement_hops : HopCount → HopCount
decrement_hops hcb = record hcb { count = (hcb.count + 255) % 2 ^ 8 }

-- `BundleAgeBlock.Increment`: the new age, as a `uint64`.
unfoldable pub increment_age : ℕ → ℕ → ℕ
increment_age age offset = (age + offset) % 2 ^ 64

-- `CheckValid` of each type.
unfoldable pub check_extension : ExtensionBlock → List Error
check_extension (previous_node eid) = errors_of (check_endpoint eid)
check_extension (hop_count hcb) = if is_exceeded hcb then hop_count_exceeded ∷ [] else []
check_extension (payload bytes) = []
check_extension (bundle_age ms) = []
check_extension (binary_spray copies) = []
check_extension (generic code bytes) = []

-- The block types that an `ExtensionBlockManager` can make a fresh block of.
pub data BlockKind : Type 0 where
  payload_kind previous_node_kind bundle_age_kind hop_count_kind binary_spray_kind : BlockKind

abbrev pub kind_code : BlockKind → ℕ
kind_code payload_kind = block_type_payload
kind_code previous_node_kind = block_type_previous_node
kind_code bundle_age_kind = block_type_bundle_age
kind_code hop_count_kind = block_type_hop_count
kind_code binary_spray_kind = block_type_binary_spray

module _ (lib : Libs) where
  unfoldable pub marshal_hop_count : HopCount → List ℕ
  marshal_hop_count hcb =
      lib.write_array_length 2 ++ (lib.write_uint hcb.limit ++ lib.write_uint hcb.count)

  abbrev hop_field : Reader ℕ
  hop_field = do x ← lib.read_uint; require (leb x 255) (out_of_range x); return x

  unfoldable pub unmarshal_hop_count : Reader HopCount
  unmarshal_hop_count = do
    l ← lib.read_array_length
    require (l == 2) (wrong_length l)
    limit ← hop_field
    count ← hop_field
    return (record { limit = limit; count = count })

  -- `MarshalBinary` of payload and generic blocks, `MarshalCbor` of the others.
  unfoldable pub marshal_value : ExtensionBlock → Result (List ℕ)
  marshal_value (payload bytes) = ok bytes
  marshal_value (previous_node eid) = wrap_err (marshal_endpoint lib eid)
  marshal_value (bundle_age ms) = ok (lib.write_uint ms)
  marshal_value (hop_count hcb) = ok (marshal_hop_count hcb)
  marshal_value (binary_spray copies) = ok (lib.write_uint copies)
  marshal_value (generic code bytes) = ok bytes

  -- `WriteBlock`
  unfoldable pub write_block : ExtensionBlock → Result (List ℕ)
  write_block b = then_ok (marshal_value b) λ bytes. ok (write_byte_string lib bytes)

  -- `cboring.Unmarshal` from a buffer of the block's bytes; what it leaves is ignored.
  abbrev whole : {A : Type 0} → Reader A → (A → ExtensionBlock) → List ℕ → Result ExtensionBlock
  whole read make bytes = then_ok (read bytes) λ r. ok (make r.0)

  unfoldable pub unmarshal_value : BlockKind → List ℕ → Result ExtensionBlock
  unmarshal_value payload_kind bytes = ok (payload bytes)
  unmarshal_value previous_node_kind bytes = whole (unmarshal_endpoint lib) previous_node bytes
  unmarshal_value bundle_age_kind bytes = whole lib.read_uint bundle_age bytes
  unmarshal_value hop_count_kind bytes = whole unmarshal_hop_count hop_count bytes
  unmarshal_value binary_spray_kind bytes = whole lib.read_uint binary_spray bytes

  abbrev unmarshal_known : Option BlockKind → ℕ → List ℕ → Result ExtensionBlock
  unmarshal_known none code bytes = ok (generic code bytes)
  unmarshal_known (some kind) code bytes = unmarshal_value kind bytes

  abbrev lift : Result ExtensionBlock → Reader ExtensionBlock
  lift (ok b) s = ok (b, s)
  lift (err e) s = err e
  lift panic s = panic

  -- `ReadBlock`: the block of a type code, by what the manager knows of that code.
  unfoldable pub read_block : (ℕ → Option BlockKind) → ℕ → Reader ExtensionBlock
  read_block known code = do
    bytes ← read_byte_string lib
    lift (unmarshal_known (known code) code bytes)
