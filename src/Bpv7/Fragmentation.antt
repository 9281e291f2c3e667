-- ===== src/Bpv7/Fragmentation.antt =====
-- pkg/bpv7/fragmentation.go: cutting a bundle into fragments, and putting fragments together. Lengths
-- are below 2 ^ 53, where Go's `int` and its `float64` agree.
pub mod Merge
pub mod Rounds
use dtn7_go.Base.{
  ℕ, zero, suc, ◌+◌, ◌-◌, List, [], ◌∷◌, ◌++◌, Bool, true, false, not, ◌&&◌, ◌==◌, leb, ltb, min,
  bit_or, Option, none, some, length, take, drop, if◌then◌else◌, Error, Result, ok, err, panic,
  then_ok, must_not_fragment, mtu_exceeded, no_fragments, not_a_fragment, fragment_gap, wrong_total,
  invalid_bundle, out_of_fuel,
}
use dtn7_go.Cbor.{Libs}
use dtn7_go.Bpv7.Flags.{has, clear_flags, is_fragment, must_not_fragmented, replicate_block}
use dtn7_go.Bpv7.Crc.{crc_32}
use dtn7_go.Bpv7.Primary.{PrimaryBlock, marshal_primary}
use dtn7_go.Bpv7.Extension.{
  ExtensionBlock, payload, previous_node, bundle_age, hop_count, binary_spray, generic,
  block_type_code, block_type_payload,
}
use dtn7_go.Bpv7.Canonical.{
  CanonicalBlock, empty_block, has_type, of_value, new_canonical_block, set_block_crc_type,
  marshal_canonical,
}
use dtn7_go.Bpv7.Bundle.{Bundle, must_new_bundle, add_extension_block}
use dtn7_go.Bpv7.Bundle.Check.{check_valid}
use dtn7_go.Bpv7.Bundle.Wire.{accepted}

-- `Value.(*PayloadBlock).Data()`; the assertion panics on any other type.
abbrev data_of : ExtensionBlock → Result (List ℕ)
data_of (payload bytes) = ok bytes
data_of (previous_node eid) = panic
data_of (bundle_age ms) = panic
data_of (hop_count hcb) = panic
data_of (binary_spray copies) = panic
data_of (generic code bytes) = panic

unfoldable pub payload_data : Bundle → Result (List ℕ)
payload_data b = of_value b.payload_block.value data_of

-- `sort.Slice` by the offset. Of fragments with one offset, Go does not say which comes first.
unfoldable pub insert_fragment : Bundle → List Bundle → List Bundle
insert_fragment b [] = b ∷ []
insert_fragment b (x ∷ xs) =
    if leb b.primary_block.fragment_offset x.primary_block.fragment_offset
    then b ∷ x ∷ xs
    else x ∷ insert_fragment b xs

unfoldable pub sort_fragments : List Bundle → List Bundle
unfolding insert_fragment
sort_fragments [] = []
sort_fragments (b ∷ bs) = insert_fragment b (sort_fragments bs)

-- The loop of `prepareReassembly`: the index behind the last fragment.
unfoldable pub last_index : ℕ → List Bundle → Result ℕ
last_index last [] = ok last
last_index last (b ∷ bs) =
    let offset = b.primary_block.fragment_offset in
    if not (has b.primary_block.bundle_control_flags is_fragment)
    then err not_a_fragment
    else if ltb last offset
    then err (fragment_gap last offset)
    else then_ok (payload_data b) (λ bytes. last_index (offset + length bytes) bs)

abbrev matches_total : ℕ → ℕ → Result (Unit {0})
matches_total total last = if total == last then ok tt else err (wrong_total last total)

-- What is checked of fragments that are sorted.
unfoldable pub prepare_sorted : List Bundle → Result (Unit {0})
unfolding last_index
prepare_sorted [] = err no_fragments
prepare_sorted (b ∷ bs) =
    then_ok (last_index 0 (b ∷ bs)) (matches_total b.primary_block.total_data_length)

-- `prepareReassembly` sorts the caller's slice and checks it.
unfoldable pub prepare_reassembly : List Bundle → Result (List Bundle)
unfolding sort_fragments prepare_sorted
prepare_reassembly bs =
    let sorted = sort_fragments bs in then_ok (prepare_sorted sorted) λ _. ok sorted

-- `mergeFragmentPayload`. The slice `fragPayloadData[lastIndex-fragStartIndex:]` panics if the index
-- is negative or beyond the end.
unfoldable pub merge_fragment_payload : ℕ → List Bundle → Result (List ℕ)
merge_fragment_payload last [] = ok []
merge_fragment_payload last (b ∷ bs) = then_ok (payload_data b) λ bytes.
    let offset = b.primary_block.fragment_offset in
    let rest = merge_fragment_payload (offset + length bytes) bs in
    if leb offset last && leb (last - offset) (length bytes)
    then then_ok rest (λ more. ok (drop (last - offset) bytes ++ more))
    else panic

-- The loops over extension blocks that add each.
unfoldable pub add_all : List CanonicalBlock → Bundle → Result Bundle
add_all [] b = ok b
add_all (cb ∷ cbs) b = then_ok (add_extension_block cb b) (add_all cbs)

-- The primary block of the reassembled bundle.
unfoldable pub whole_primary : PrimaryBlock → PrimaryBlock
whole_primary pb = record pb {
  bundle_control_flags = clear_flags pb.bundle_control_flags is_fragment;
  fragment_offset = 0;
  total_data_length = 0;
  crc = [];
}

abbrev merged : ℕ → Bundle → List ℕ → Bundle → Result (Bundle × List Error)
merged now first bytes b =
    let cb : CanonicalBlock =
      set_block_crc_type first.payload_block.crc_type
        (new_canonical_block 1 first.payload_block.block_control_flags (payload bytes)) in
    let b' = record b { payload_block = cb } in
    then_ok (check_valid now b') λ errors. ok (b', errors)

abbrev put_together : ℕ → List Bundle → Result (Bundle × List Error)
put_together now [] = err no_fragments
put_together now (first ∷ bs) =
    then_ok
      (add_all first.extension_blocks (record {
        primary_block = whole_primary first.primary_block;
        extension_blocks = [];
        payload_block = empty_block;
      }))
      λ b. then_ok (merge_fragment_payload 0 (first ∷ bs)) λ bytes. merged now first bytes b

-- `ReassembleFragments`: the bundle, and what is wrong with it.
unfoldable pub reassemble_fragments : ℕ → List Bundle → Result (Bundle × List Error)
unfolding prepare_reassembly merge_fragment_payload add_all whole_primary
reassemble_fragments now bs = then_ok (prepare_reassembly bs) (put_together now)

module _ (lib : Libs) where
  -- The primary block of a fragment, and its length when written.
  unfoldable pub fragment_primary_block : PrimaryBlock → ℕ → ℕ → Result (PrimaryBlock × ℕ)
  fragment_primary_block pb offset total =
      then_ok
        (marshal_primary lib (record pb {
          bundle_control_flags = bit_or pb.bundle_control_flags is_fragment;
          fragment_offset = offset;
          total_data_length = total;
          crc = [];
        }))
        λ w. ok (w.1, length w.0)

  -- An extension block as it is measured: a payload block without its data.
  unfoldable pub measured : CanonicalBlock → Result CanonicalBlock
  measured cb = of_value cb.value λ b. ok (
      set_block_crc_type crc_32 (
        if block_type_code b == block_type_payload
        then record cb { crc_type = 0; crc = []; value = some (payload []) }
        else cb))

  -- How much longer the head of a byte string of `mtu` bytes is than that of an empty one.
  unfoldable pub length_field : ℕ → ℕ
  length_field mtu = length (lib.write_byte_string_len mtu) - 1

  abbrev measure : ℕ → CanonicalBlock → ℕ → ℕ × ℕ → ℕ × ℕ
  measure mtu cb len (first, others) =
      let is_payload = has_type block_type_payload cb in
      (
        first + len + (if is_payload then length_field mtu else 0),
        others
            + (if has cb.block_control_flags replicate_block then len else 0)
            + (if is_payload then len + length_field mtu else 0),
      )

  -- The loop of `fragmentExtensionBlocksLen`, with both sums so far.
  unfoldable pub extension_lens : ℕ → List CanonicalBlock → ℕ × ℕ → Result (ℕ × ℕ)
  unfolding measured length_field
  extension_lens mtu [] sums = ok sums
  extension_lens mtu (cb ∷ cbs) sums = then_ok (measured cb) λ eb.
      then_ok (marshal_canonical lib eb)
        λ w. extension_lens mtu cbs (measure mtu eb (length w.0) sums)

  unfoldable pub fragment_extension_blocks_len : Bundle → ℕ → Result (ℕ × ℕ)
  unfolding extension_lens
  fragment_extension_blocks_len b mtu =
      then_ok (extension_lens mtu b.extension_blocks (0, 0)) λ sums.
        let empty_payload =
          new_canonical_block 1 b.payload_block.block_control_flags (payload []) in
        then_ok (marshal_canonical lib (set_block_crc_type crc_32 empty_payload))
          λ w. ok (sums.0 + length w.0 + length_field mtu, sums.1 + length w.0 + length_field mtu)

  -- The extension blocks of a fragment at an index: all of the first, and else the replicated ones.
  unfoldable pub fragment_blocks : ℕ → List CanonicalBlock → List CanonicalBlock
  fragment_blocks i [] = []
  fragment_blocks i (cb ∷ cbs) =
      let rest = fragment_blocks i cbs in
      if ltb 0 i && not (has cb.block_control_flags replicate_block) then rest else cb ∷ rest

  -- One fragment: the bytes of the payload from `i` on, as many as there is room for.
  unfoldable pub fragment_at : ℕ → Bundle → List ℕ → PrimaryBlock → ℕ → ℕ → Result Bundle
  unfolding fragment_blocks
  fragment_at now b bytes pb i room =
      then_ok (add_all (fragment_blocks i b.extension_blocks) (must_new_bundle pb [] empty_block))
        λ frag.
          let cb : CanonicalBlock = record {
            block_number = 1;
            block_control_flags = b.payload_block.block_control_flags;
            crc_type = b.payload_block.crc_type;
            crc = [];
            value = some (payload (take (min (i + room) (length bytes) - i) (drop i bytes)));
          } in
          let frag' = record frag { payload_block = cb } in
          then_ok (check_valid now frag') λ errors. accepted (ok errors) frag'

  abbrev pub overhead : ℕ → ℕ → ℕ × ℕ → ℕ
  overhead i primary_len (first, others) = 2 + primary_len + (if i == 0 then first else others)

  -- The loop of `Fragment`. Each round takes a byte of the payload at least; the fuel counts them.
  unfoldable pub fragments_from : ℕ → ℕ → Bundle → List ℕ → ℕ × ℕ → ℕ → ℕ → Result (List Bundle)
  unfolding fragment_primary_block fragment_at
  fragments_from now mtu b bytes lens zero i =
      if ltb i (length bytes) then err out_of_fuel else ok []
  fragments_from now mtu b bytes lens (suc fuel) i =
      if not (ltb i (length bytes))
      then ok []
      else then_ok (fragment_primary_block b.primary_block i (length bytes)) (λ p.
        let used = overhead i p.1 lens in
        if leb mtu used
        then err mtu_exceeded
        else then_ok (fragment_at now b bytes p.0 i (mtu - used)) (λ frag.
          then_ok (fragments_from now mtu b bytes lens fuel (i + (mtu - used)))
            λ frags. ok (frag ∷ frags)))

  abbrev itself_if_one : Bundle → List Bundle → List Bundle
  itself_if_one b [] = []
  itself_if_one b (frag ∷ []) = b ∷ []
  itself_if_one b (frag ∷ frag' ∷ frags) = frag ∷ frag' ∷ frags

  -- `Fragment`
  unfoldable pub fragment : ℕ → ℕ → Bundle → Result (List Bundle)
  unfolding fragment_extension_blocks_len fragments_from
  fragment now mtu b =
      if has b.primary_block.bundle_control_flags must_not_fragmented
      then err must_not_fragment
      else then_ok (payload_data b) (λ bytes. then_ok (fragment_extension_blocks_len b mtu) λ lens.
        then_ok (fragments_from now mtu b bytes lens (length bytes) 0)
          λ frags. ok (itself_if_one b frags))
