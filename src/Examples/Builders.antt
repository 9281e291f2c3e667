-- ===== src/Examples/Builders.antt =====
-- Chains of calls of a bundle builder, and what the theorems say of them.
use dtn7_go.Base.{
  ℕ, ◌≡◌, ◌≢◌, ◌↔◌, refl, List, [], ◌∷◌, false, Option, none, some, arith, ok, err, panic, Result,
  Error, if_neg, length, map, ◌++◌, ◌+◌, ◌^◌, ◌%◌, malformed_uri,
}
use dtn7_go.Base.Int.{pos, negsuc}
use dtn7_go.Bpv7.Endpoint.{dtn_none, EndpointId-discrete, check_endpoint, check_ipn}
use dtn7_go.Bpv7.Endpoint.Text.{new_endpoint_id, scheme_of}
use dtn7_go.Bpv7.Flags.{check_bundle_flags, requests_no_report, check_block_flags, has}
use dtn7_go.Bpv7.Time.{is_zero_time, unix_milliseconds, raised}
use dtn7_go.Bpv7.Primary.{check_primary}
use dtn7_go.Bpv7.Extension.{
  check_extension, is_exceeded, new_hop_count, bundle_age, hop_count, previous_node,
}
use dtn7_go.Bpv7.Canonical.{
  CanonicalBlock, less, check_canonical, new_canonical_block, set_block_crc_type,
}
use dtn7_go.Bpv7.Bundle.{
  Bundle, block_numbers, set_crc_type, must_new_bundle, extension_block_by_type,
  extension_blocks_by_type, blocks_of_type, sort_extension_blocks,
}
use dtn7_go.Bpv7.Bundle.Check.{
  check_valid, new_bundle, check_blocks, check_extensions, check_age, after_max_timestamp,
  check_context, is_lifetime_exceeded,
}
use dtn7_go.Bpv7.Builder.{
  Argument, endpoint, text, uint64, int, bytes, block_flags, Outside, Builder, new_builder, build,
  with_report_to, is_unset, parse_lifetime, parse_endpoint, bundle_age_block, hop_count_block,
  previous_node_block,
}
use dtn7_go.Bpv7.Builder.Calls.{
  Call, crc, to_destination, from_source, created_at, living, adding_hops, adding_payload, run,
  perform, Method, build_from_map, payload_block_key, destination_key, source_key,
}
use dtn7_go.Bpv7.Builder.Failed.{run-failed}
use dtn7_go.Bpv7.Builder.Numbered.{count_up, IsPayload}
use dtn7_go.Bpv7.Builder.Built.{WithoutCrc, build-valid, build-no_payload}
use dtn7_go.Bpv7.Builder.Arguments.{with_block, flags_ignored}
use dtn7_go.Bpv7.Builder.Added.{adding_value, build-adding_value}
use dtn7_go.Bpv7.Builder.Mapped.{calls_of, build_from_map-run}
use dtn7_go.Examples.Wire.{small_libs}
use dtn7_go.Examples.Blocks.{service}

-- Every text is the duration "-1s", and only bytes are written.
abbrev written : Argument → Option (List ℕ)
written (bytes bs) = some bs
written _ = none

abbrev outside : Outside
outside = record {
  libs = small_libs;
  parse_duration = λ t. some (negsuc 999_999_999);
  binary_write = written;
  dtn_time_now = 800_000_000_000;
}

abbrev headed : List Call
headed =
    from_source (endpoint (service 2))
    ∷ to_destination (endpoint (service 1))
    ∷ created_at 800_000_000_000
    ∷ living (uint64 60_000)
    ∷ adding_hops (int (pos 64) ∷ [])
    ∷ []

abbrev builder_of : Result Builder → Builder
builder_of (ok b) = b
builder_of (err e) = new_builder
builder_of panic = new_builder

-- Without a payload yet.
abbrev bare : Builder
bare = builder_of (run outside headed new_builder)

bare_runs : run outside headed new_builder ≡ ok bare
unfolding run new_builder
bare_runs = refl

build-no_payload_example : build outside 1_746_684_800_000_000_000 bare ≡ panic
unfolding run new_builder
build-no_payload_example =
    build-no_payload outside 1_746_684_800_000_000_000 bare refl refl refl refl

abbrev sealing : List Call
sealing = adding_payload (bytes (5 ∷ 6 ∷ []) ∷ []) ∷ crc 1 ∷ []

-- With a payload, and CRC-16.
abbrev full : Builder
full = builder_of (run outside sealing bare)

full_runs : run outside sealing bare ≡ ok full
unfolding run new_builder
full_runs = refl

abbrev unsealed : Bundle
unsealed = must_new_bundle (with_report_to outside full.primary) full.canonicals full.payload_block

service_is_named : service 2 ≢ dtn_none
service_is_named e = absurd (ground (arith, e))

unsealed_valid : check_valid 1_746_684_800_000_000_000 unsealed ≡ ok []
unfolding check_valid check_blocks check_canonical new_canonical_block check_extensions
    extension_block_by_type extension_blocks_by_type blocks_of_type check_age is_zero_time
    is_lifetime_exceeded check_primary check_bundle_flags has check_endpoint check_ipn
    after_max_timestamp unix_milliseconds raised check_extension is_exceeded requests_no_report
    check_block_flags check_context run new_builder must_new_bundle new_hop_count
    sort_extension_blocks
unsealed_valid = rw (if_neg (EndpointId-discrete (service 2) dtn_none) service_is_named) refl

full_builds : build outside 1_746_684_800_000_000_000 full ≡ ok (set_crc_type small_libs 1 unsealed)
unfolding build new_bundle run new_builder
full_builds = ground (arith, unsealed_valid)

build-valid_example :
    (full.error ≡ none)
    × (check_valid 1_746_684_800_000_000_000 (set_crc_type small_libs 1 unsealed) ≡ ok [])
    × ((set_crc_type small_libs 1 unsealed).extension_blocks
        ≡ map (set_block_crc_type 1) full.canonicals)
    × ((added : List CanonicalBlock) × (full.canonicals ≡ bare.canonicals ++ added))
    × (block_numbers full.canonicals ≡ count_up 2 (length full.canonicals))
    × ((set_crc_type small_libs 1 unsealed).payload_block ≡ set_block_crc_type 1 full.payload_block)
    × IsPayload full.payload_block
    × (full.payload_block.block_number ≡ 1)
    × WithoutCrc
        (set_crc_type small_libs 1 unsealed).primary_block
        (with_report_to outside full.primary)
    × (is_unset outside full.primary.source_node ≡ false)
    × (is_unset outside full.primary.destination ≡ false)
unfolding run new_builder
build-valid_example =
    build-valid outside 1_746_684_800_000_000_000 headed sealing bare full
      (set_crc_type small_libs 1 unsealed) bare_runs full_runs full_builds (omega arith)

-- The same builder, with a block between the headers and the payload.
abbrev with_age : Builder
with_age = builder_of (perform outside (adding_value (bundle_age 9) 4) bare)

abbrev aged : Builder
aged = builder_of (run outside sealing with_age)

aged_runs : run outside sealing with_age ≡ ok aged
unfolding run perform new_builder
aged_runs = refl

with_age_runs : perform outside (adding_value (bundle_age 9) 4) bare ≡ ok with_age
unfolding run perform new_builder
with_age_runs = refl

abbrev aged_unsealed : Bundle
aged_unsealed =
    must_new_bundle (with_report_to outside aged.primary) aged.canonicals aged.payload_block

aged_unsealed_valid : check_valid 1_746_684_800_000_000_000 aged_unsealed ≡ ok []
unfolding check_valid check_blocks check_canonical new_canonical_block check_extensions
    extension_block_by_type extension_blocks_by_type blocks_of_type check_age is_zero_time
    is_lifetime_exceeded check_primary check_bundle_flags has check_endpoint check_ipn
    after_max_timestamp unix_milliseconds raised check_extension is_exceeded requests_no_report
    check_block_flags check_context run perform new_builder must_new_bundle new_hop_count
    sort_extension_blocks less
aged_unsealed_valid = rw (if_neg (EndpointId-discrete (service 2) dtn_none) service_is_named) refl

aged_builds :
    build outside 1_746_684_800_000_000_000 aged ≡ ok (set_crc_type small_libs 1 aged_unsealed)
unfolding build new_bundle run perform new_builder
aged_builds = ground (arith, aged_unsealed_valid)

build-adding_value_example :
    (added : List CanonicalBlock) × ((set_crc_type small_libs 1 aged_unsealed).extension_blocks
      ≡ map (set_block_crc_type 1) (
          bare.canonicals
          ++ (new_canonical_block (2 + length bare.canonicals) 4 (bundle_age 9) ∷ added)))
unfolding run perform new_builder
build-adding_value_example =
    build-adding_value outside 1_746_684_800_000_000_000 headed sealing (bundle_age 9) 4 bare
      with_age aged (set_crc_type small_libs 1 aged_unsealed) bare_runs with_age_runs aged_runs
      aged_builds (omega arith) λ e. absurd (ground (arith, e))

-- "x" is no URI, so that the builder has failed.
abbrev failed : Builder
failed = builder_of (run outside (from_source (text (b'x' ∷ [])) ∷ []) new_builder)

run-failed_example :
    (e' : Error) × (failed ≡ record failed { error = some e' })
    × (build outside 1_746_684_800_000_000_000 failed ≡ err e')
unfolding run new_builder parse_endpoint new_endpoint_id scheme_of
run-failed_example =
    run-failed outside 1_746_684_800_000_000_000 (living (uint64 7) ∷ crc 1 ∷ []) failed failed
      malformed_uri refl refl

flags_ignored_example :
    (bundle_age_block outside (uint64 9 ∷ block_flags 4 ∷ []) new_builder
      ≡ ok (with_block (bundle_age 9) new_builder))
    × (hop_count_block (int (pos 260) ∷ block_flags 4 ∷ []) new_builder
        ≡ ok (with_block (hop_count (new_hop_count (260 % 2 ^ 8))) new_builder))
    × (previous_node_block (endpoint (service 2) ∷ block_flags 4 ∷ []) new_builder
        ≡ ok (with_block (previous_node (service 2)) new_builder))
unfolding new_builder parse_lifetime parse_endpoint
flags_ignored_example =
    flags_ignored outside new_builder (uint64 9) (endpoint (service 2)) (block_flags 4 ∷ []) 9 260
      (service 2) refl refl refl

abbrev entries : List (Method × Argument)
entries =
    (source_key, endpoint (service 2))
    ∷ (destination_key, endpoint (service 1))
    ∷ (payload_block_key, text (5 ∷ 6 ∷ []))
    ∷ []

build_from_map-run_example :
    (build_from_map outside 1_746_684_800_000_000_000 entries ≡ ok unsealed) ↔ (
      (cs : List Call) × (b : Builder) × (calls_of entries ≡ ok cs)
      × (run outside cs new_builder ≡ ok b)
      × (build outside 1_746_684_800_000_000_000 b ≡ ok unsealed))
build_from_map-run_example = build_from_map-run outside 1_746_684_800_000_000_000 entries unsealed
