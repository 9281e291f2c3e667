-- ===== src/Bpv7/Bundle.antt =====
-- pkg/bpv7/bundle.go: bundles, their blocks and what changes them. The checks
-- are in `Bundle.Check` and the wire format in `Bundle.Wire`.
pub mod Check
pub mod Numbers
pub mod Distinct
pub mod Lifetime
pub mod Wire
use dtn7_go.Base.{
  ℕ, zero, suc, ◌+◌, ◌*◌, ◌%◌, ◌^◌, List, [], ◌∷◌, ◌++◌, Bool, true, false, not, ◌&&◌, ◌||◌, ◌==◌,
  ltb, length, map, if◌then◌else◌, Error, Result, ok, err, panic, then_ok, no_block_of_type,
  several_blocks_of_type, status_report_on_payload, duplicate_block_number, age_block_missing,
  lifetime_exceeded,
}
use dtn7_go.Bpv7.Flags.{has, is_fragment, administrative_record_payload, status_report_block}
use dtn7_go.Bpv7.Time.{CreationTimestamp, is_zero_time, unix_milliseconds, raised}
use dtn7_go.Bpv7.Endpoint.{EndpointId}
use dtn7_go.Bpv7.Primary.{PrimaryBlock, check_primary, set_primary_crc_type}
use dtn7_go.Bpv7.Extension.{
  ExtensionBlock, payload, previous_node, bundle_age, hop_count, binary_spray, generic,
  block_type_code, block_type_payload, block_type_previous_node, block_type_bundle_age,
  block_type_hop_count,
}
use dtn7_go.Bpv7.Canonical.{
  CanonicalBlock, of_value, type_code, set_block_crc_type, check_canonical, less,
}
use dtn7_go.Cbor.{Libs}

pub record Bundle : Type 0 where
  pub primary_block : PrimaryBlock
  pub extension_blocks : List CanonicalBlock
  pub payload_block : CanonicalBlock

-- `sort.Sort(canonicalBlockNumberSort(…))`. Up to twelve elements Go sorts by insertion, and any
-- sort gives this order where the block numbers differ.
unfoldable pub insert_sorted : CanonicalBlock → List CanonicalBlock → List CanonicalBlock
insert_sorted b [] = b ∷ []
insert_sorted b (x ∷ xs) = if less b x then b ∷ x ∷ xs else x ∷ insert_sorted b xs

unfoldable pub insert_all : List CanonicalBlock → List CanonicalBlock → List CanonicalBlock
unfolding insert_sorted
insert_all sorted [] = sorted
insert_all sorted (b ∷ bs) = insert_all (insert_sorted b sorted) bs

unfoldable pub sort_extension_blocks : List CanonicalBlock → List CanonicalBlock
unfolding insert_all
sort_extension_blocks = insert_all []

-- `MustNewBundle`
unfoldable pub must_new_bundle : PrimaryBlock → List CanonicalBlock → CanonicalBlock → Bundle
must_new_bundle primary extensions payload_cb = record {
  primary_block = primary;
  extension_blocks = sort_extension_blocks extensions;
  payload_block = payload_cb;
}

-- The blocks of a type; `TypeCode` of a block without a value panics.
unfoldable pub blocks_of_type : ℕ → List CanonicalBlock → Result (List CanonicalBlock)
blocks_of_type t [] = ok []
blocks_of_type t (cb ∷ cbs) =
    let rest = blocks_of_type t cbs in
    of_value cb.value
      λ b. then_ok rest λ found. ok (if block_type_code b == t then cb ∷ found else found)

abbrev pub some_block : ℕ → List CanonicalBlock → Result (List CanonicalBlock)
some_block t [] = err (no_block_of_type t)
some_block t (cb ∷ cbs) = ok (cb ∷ cbs)

unfoldable pub extension_blocks_by_type : ℕ → Bundle → Result (List CanonicalBlock)
extension_blocks_by_type t b = then_ok (blocks_of_type t b.extension_blocks) (some_block t)

abbrev pub only_block : ℕ → List CanonicalBlock → Result CanonicalBlock
only_block t [] = err (no_block_of_type t)
only_block t (cb ∷ []) = ok cb
only_block t (cb ∷ cb' ∷ cbs) = err (several_blocks_of_type t)

-- The block of a type, if there is exactly one.
unfoldable pub extension_block_by_type : ℕ → Bundle → Result CanonicalBlock
unfolding extension_blocks_by_type
extension_block_by_type t b = then_ok (extension_blocks_by_type t b) (only_block t)

abbrev pub succeeds {ℓ} : {A : Type ℓ} → Result A → Result Bool
succeeds (ok a) = ok true
succeeds (err e) = ok false
succeeds panic = panic

unfoldable pub has_extension_block : ℕ → Bundle → Result Bool
unfolding extension_blocks_by_type
has_extension_block t b = succeeds (extension_blocks_by_type t b)

-- The numbers tried by `AddExtensionBlock`, from `n` on; the fuel is the number of tries.
unfoldable pub among : ℕ → List ℕ → Bool
among n [] = false
among n (m ∷ ms) = n == m || among n ms

unfoldable pub free_number : ℕ → ℕ → List ℕ → ℕ
unfolding among
free_number zero n numbers = n
free_number (suc fuel) n numbers =
    let next = free_number fuel (n + 1) numbers in if among n numbers then next else n

abbrev pub block_numbers : List CanonicalBlock → List ℕ
block_numbers = map λ cb. cb.block_number

unfoldable pub new_block_number : ExtensionBlock → List CanonicalBlock → ℕ
unfolding free_number
new_block_number value cbs =
    free_number (length (block_numbers cbs) + 1)
      (if block_type_code value == block_type_payload then 1 else 2) (block_numbers cbs)

unfoldable pub add_extension_block : CanonicalBlock → Bundle → Result Bundle
add_extension_block cb b = of_value cb.value λ value.
    let numbered = record cb { block_number = new_block_number value b.extension_blocks } in
    ok (record b {
      extension_blocks = sort_extension_blocks (b.extension_blocks ++ (numbered ∷ []));
    })

unfoldable pub remove_block_number : ℕ → List CanonicalBlock → List CanonicalBlock
remove_block_number n [] = []
remove_block_number n (cb ∷ cbs) =
    if cb.block_number == n then cbs else cb ∷ remove_block_number n cbs

-- `RemoveExtensionBlockByBlockNumber`: the first block of that number.
unfoldable pub remove_extension_block : ℕ → Bundle → Bundle
remove_extension_block n b = record b {
  extension_blocks = remove_block_number n b.extension_blocks;
}

unfoldable pub set_crc_type : Libs → ℕ → Bundle → Bundle
set_crc_type lib t b = record {
  primary_block = set_primary_crc_type lib t b.primary_block;
  extension_blocks = map (set_block_crc_type t) b.extension_blocks;
  payload_block = set_block_crc_type t b.payload_block;
}

pub record BundleId : Type 0 where
  pub source_node : EndpointId
  pub timestamp : CreationTimestamp
  pub is_fragment : Bool
  pub fragment_offset : ℕ
  pub total_data_length : ℕ

unfoldable pub bundle_id : Bundle → BundleId
bundle_id b = record {
  source_node = b.primary_block.source_node;
  timestamp = b.primary_block.creation_timestamp;
  is_fragment = has b.primary_block.bundle_control_flags is_fragment;
  fragment_offset = b.primary_block.fragment_offset;
  total_data_length = b.primary_block.total_data_length;
}

unfoldable pub is_administrative_record : Bundle → Bool
is_administrative_record b = has b.primary_block.bundle_control_flags administrative_record_payload
