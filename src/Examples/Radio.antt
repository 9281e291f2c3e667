-- ===== src/Examples/Radio.antt =====
-- Packets for the radio, and what the theorems say of them.
use dtn7_go.Base.{
  ◌∙◌, sym, map, get, set, get_elem?, ℕ_discrete, if_neg, ℕ, zero, suc, ◌≡◌, ◌<◌, refl, ◌%◌, some,
  List, [], ◌∷◌, ok, err, panic, Result, length, arith,
}
use dtn7_go.Bpv7.Flags.{check_bundle_flags, requests_no_report, check_block_flags, has}
use dtn7_go.Bpv7.Time.{is_zero_time, unix_milliseconds, raised, marshal_timestamp}
use dtn7_go.Bpv7.Endpoint.{
  check_endpoint, check_ipn, dtn_none, EndpointId-discrete, marshal_endpoint, marshal_ipn,
}
use dtn7_go.Bpv7.Crc.{calculate_crc_buff, crc32_checksum, empty_crc}
use dtn7_go.Bpv7.Primary.{
  check_primary, marshal_primary, primary_body, marshal_endpoints, has_crc, fragment_fields,
  has_fragmentation, primary_block_len,
}
use dtn7_go.Bpv7.Extension.{
  payload, write_block, marshal_value, marshal_hop_count, check_extension, is_exceeded,
}
use dtn7_go.Bpv7.Extension.Registry.{known_kind, default_manager}
use dtn7_go.Bpv7.Canonical.{
  check_canonical, has_type, new_canonical_block, has_block_crc, marshal_canonical, canonical_body,
}
use dtn7_go.Bpv7.Canonical.RoundTrip.{CanonicalFits}
use dtn7_go.Bpv7.Bundle.Check.{
  is_lifetime_exceeded, check_valid, check_blocks, check_extensions, check_age, after_max_timestamp,
  check_context,
}
use dtn7_go.Bpv7.Bundle.Wire.RoundTrip.{BundleFits}
use dtn7_go.Bpv7.Bundle.Wire.{marshal_bundle, marshal_blocks}
use dtn7_go.Bpv7.Bundle.{Bundle, extension_block_by_type, extension_blocks_by_type, blocks_of_type}
use dtn7_go.Cla.Meshtastic.{split_chunks, split_rounds, send_bundle, chunk_bundle_id}
use dtn7_go.Cla.Meshtastic.Reassembly.{Reassembly, receive_packets, or_nil}
use dtn7_go.Cla.Meshtastic.Completed.{Chunks, AreChunksOf, set-AreChunksOf}
use dtn7_go.Cla.Meshtastic.Delivered.{packets_in_order, IsWithout, no_buffer, receive-split_chunks}
use dtn7_go.Cla.Meshtastic.Sent.{take_packet, as_slice, parsed_back, receive-send_bundle}
use dtn7_go.Examples.Wire.{small_libs, small_laws, head}
use dtn7_go.Examples.Blocks.{service, plain_primary-fits, known, hop_block-fits}
use dtn7_go.Examples.Bundles.{whole_bundle, service_is_named}

abbrev many : ℕ → List ℕ
many zero = []
many (suc n) = n % 256 ∷ many n

-- A payload that takes three chunks.
abbrev long_bundle : Bundle
long_bundle = record whole_bundle {
  payload_block = record (whole_bundle.payload_block) { value = some (payload (many 380)) };
}

abbrev outcome : Result (List ℕ × Bundle)
outcome = marshal_bundle small_libs long_bundle

abbrev written_or : Result (List ℕ × Bundle) → List ℕ × Bundle
written_or (ok w) = w
written_or (err e) = ([], long_bundle)
written_or panic = ([], long_bundle)

three_chunks : length (split_chunks (written_or outcome).0) ≡ 3
unfolding split_chunks split_rounds marshal_bundle marshal_primary primary_body marshal_endpoints
    marshal_endpoint check_endpoint check_ipn has_crc calculate_crc_buff marshal_blocks
    marshal_canonical canonical_body new_canonical_block write_block marshal_value has_block_crc
    crc32_checksum empty_crc marshal_ipn marshal_hop_count has fragment_fields has_fragmentation
    primary_block_len marshal_timestamp head
three_chunks = refl

long_written : marshal_bundle small_libs long_bundle ≡ ok (written_or outcome)
unfolding marshal_bundle marshal_primary primary_body marshal_endpoints marshal_endpoint
    check_endpoint check_ipn has_crc calculate_crc_buff marshal_blocks marshal_canonical
    canonical_body new_canonical_block write_block marshal_value has_block_crc crc32_checksum
    empty_crc marshal_ipn marshal_hop_count has fragment_fields has_fragmentation primary_block_len
    marshal_timestamp head
long_written = refl

long_payload-fits : CanonicalFits small_libs known long_bundle.payload_block
unfolding has_block_crc new_canonical_block known_kind default_manager marshal_value
long_payload-fits = record {
  block = payload (many 380);
  has_value = refl;
  block_fits = record { value_fits = tt; size_fits = λ bs h. ground (arith, h); kind_known = refl };
  code_fits = omega arith;
  number_fits = omega arith;
  flags_fit = omega arith;
  crc_type_known = omega arith;
  no_crc = λ h. absurd (ground (arith, h));
}

long_bundle-fits : BundleFits small_libs known long_bundle
unfolding has_type new_canonical_block
long_bundle-fits = record {
  primary_fits = plain_primary-fits;
  extensions_fit = ((hop_block-fits, refl), tt);
  payload_fits = long_payload-fits;
  payload_type = refl;
}

long_bundle_valid : check_valid 1_746_684_800_000_000_000 long_bundle ≡ ok []
unfolding check_valid check_blocks check_canonical new_canonical_block check_extensions
    extension_block_by_type extension_blocks_by_type blocks_of_type check_age is_zero_time
    is_lifetime_exceeded check_primary check_bundle_flags has check_endpoint check_ipn
    after_max_timestamp unix_milliseconds raised check_extension is_exceeded requests_no_report
    check_block_flags check_context
long_bundle_valid = rw (if_neg (EndpointId-discrete (service 2) dtn_none) service_is_named) refl

abbrev long_bytes : List ℕ
long_bytes = (written_or outcome).0

long_bytes_there : 0 < length long_bytes
unfolding marshal_bundle marshal_primary primary_body marshal_endpoints marshal_endpoint
    check_endpoint check_ipn has_crc calculate_crc_buff marshal_blocks marshal_canonical
    canonical_body new_canonical_block write_block marshal_value has_block_crc crc32_checksum
    empty_crc marshal_ipn marshal_hop_count has fragment_fields has_fragmentation primary_block_len
    marshal_timestamp head
long_bytes_there = omega arith

abbrev long_sent : Bundle
long_sent = (written_or outcome).1

receive-send_bundle_example :
    (sent : List (List ℕ)) × (send_bundle take_packet small_libs long_bundle [] ≡ (sent, ok tt))
    × ((m' : Reassembly) × (receive_packets small_libs known 1_746_684_800_000_000_000
            (map as_slice sent)
            []
          ≡ ok (m', long_sent ∷ []))
        × IsWithout (chunk_bundle_id long_bundle) [] m')
unfolding get
receive-send_bundle_example =
    receive-send_bundle small_libs small_laws known 1_746_684_800_000_000_000 long_bundle long_sent
      long_bytes [] long_bundle-fits long_bundle_valid long_written (omega (arith, three_chunks))
      refl

abbrev chunk : ℕ → List ℕ
chunk i = or_nil (get_elem? (split_chunks long_bytes) i)

-- The chunks in the order 1, 2, 0.
abbrev shuffled : Chunks
shuffled = set ℕ_discrete 0 (chunk 0) (set ℕ_discrete 2 (chunk 2) (set ℕ_discrete 1 (chunk 1) []))

no_chunk_missing :
    (all : List (List ℕ)) (i : ℕ)
    → i < length all
    → get_elem? all i ≡ some (or_nil (get_elem? all i))
no_chunk_missing [] i h = absurd (omega (arith, h))
no_chunk_missing (c ∷ all) zero h = refl
no_chunk_missing (c ∷ all) (suc i) h = no_chunk_missing all i (omega (arith, h))

shuffled-AreChunksOf : AreChunksOf (split_chunks long_bytes) shuffled
shuffled-AreChunksOf =
    let all = split_chunks long_bytes in
    let there = no_chunk_missing all in
    set-AreChunksOf all _ 0 (chunk 0)
      (set-AreChunksOf all _ 2 (chunk 2)
        (set-AreChunksOf all [] 1 (chunk 1) ((no_buffer all).chunks_right)
          (there 1 (omega (arith, three_chunks))))
        (there 2 (omega (arith, three_chunks))))
      (there 0 (omega (arith, three_chunks)))

length-shuffled : length shuffled ≡ 3
unfolding set ℕ_discrete
length-shuffled = refl

receive-split_chunks_example :
    (m' : Reassembly) × (receive_packets small_libs known 1_746_684_800_000_000_000
        (packets_in_order 77 (length (split_chunks long_bytes)) (λ _. 9 ∷ []) shuffled)
        []
      ≡ ok (m', long_sent ∷ []))
    × IsWithout 77 [] m'
unfolding get
receive-split_chunks_example =
    receive-split_chunks small_libs known 1_746_684_800_000_000_000 77 long_bytes long_sent shuffled
      (λ _. 9 ∷ []) []
      (parsed_back small_libs small_laws known 1_746_684_800_000_000_000 long_bundle long_sent
        long_bytes long_bundle-fits long_bundle_valid long_written)
      long_bytes_there (omega (arith, three_chunks)) (omega arith) shuffled-AreChunksOf
      (length-shuffled ∙ sym three_chunks) refl
