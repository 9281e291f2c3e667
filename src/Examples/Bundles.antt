-- ===== src/Examples/Bundles.antt =====
-- Bundles and fragments, and what the theorems say of them.
use dtn7_go.Base.{if_neg, ℕ, ◌≡◌, ◌≢◌, refl, List, [], ◌∷◌, true, some, arith, ok, panic}
use dtn7_go.Bpv7.Flags.{check_bundle_flags, requests_no_report, check_block_flags, has}
use dtn7_go.Bpv7.Time.{is_zero_time, unix_milliseconds, raised}
use dtn7_go.Bpv7.Endpoint.{check_endpoint, check_ipn, dtn_none, EndpointId-discrete}
use dtn7_go.Bpv7.Primary.{check_primary}
use dtn7_go.Bpv7.Extension.{
  bundle_age, check_extension, is_exceeded, ExtensionBlock, payload, marshal_value,
}
use dtn7_go.Bpv7.Extension.Registry.{known_kind, default_manager}
use dtn7_go.Bpv7.Canonical.{
  empty_block, check_canonical, has_type, CanonicalBlock, new_canonical_block, has_block_crc,
}
use dtn7_go.Bpv7.Canonical.RoundTrip.{CanonicalFits}
use dtn7_go.Bpv7.Bundle.{
  extension_block_by_type, extension_blocks_by_type, blocks_of_type, Bundle, among,
}
use dtn7_go.Bpv7.Bundle.Check.{
  is_lifetime_exceeded, check_valid, check_blocks, check_extensions, check_age, after_max_timestamp,
  check_context,
}
use dtn7_go.Bpv7.Bundle.Check.Stripped.{stripped}
use dtn7_go.Bpv7.Bundle.Wire.RoundTrip.{BundleFits, parse-marshal_bundle}
use dtn7_go.Bpv7.Bundle.Wire.Valid.{parse_bundle-valid}
use dtn7_go.Bpv7.Bundle.Lifetime.{is_lifetime_exceeded-wraps}
use dtn7_go.Bpv7.Bundle.Wire.{parse_bundle, marshal_bundle}
use dtn7_go.Bpv7.Bundle.Distinct.{numbers_differ}
use dtn7_go.Bpv7.Fragmentation.Rounds.{Ends, fragments_from-Ends}
use dtn7_go.Bpv7.Fragmentation.{
  fragments_from, payload_data, prepare_sorted, last_index, merge_fragment_payload,
}
use dtn7_go.Bpv7.Fragmentation.Merge.{data_length, merge-whole, merge-panics}
use dtn7_go.Examples.Wire.{small_libs, small_laws}
use dtn7_go.Examples.Blocks.{
  service, plain_primary, plain_primary-fits, known, hops, hop_block, hop_block-fits,
}

abbrev pub numbered : ℕ → CanonicalBlock
numbered n = new_canonical_block n 0 hops

abbrev pub payload_of : List ℕ → CanonicalBlock
payload_of bytes = new_canonical_block 1 0 (payload bytes)

abbrev pub of_lifetime : ℕ → Bundle
of_lifetime ms = record {
  primary_block = record plain_primary { lifetime = ms };
  extension_blocks = [];
  payload_block = payload_of (1 ∷ 2 ∷ []);
}

is_lifetime_exceeded-wraps_example :
    is_lifetime_exceeded 1_746_684_800_000_000_000 (of_lifetime 10_000_000_000_000) ≡ ok true
is_lifetime_exceeded-wraps_example =
    is_lifetime_exceeded-wraps 1_746_684_800_000_000_000 (of_lifetime 10_000_000_000_000)
      (omega arith, omega arith) (omega arith) (omega arith) (omega arith)

abbrev pub piece : ℕ → List ℕ → Bundle
piece offset bytes = record {
  primary_block = record plain_primary {
    bundle_control_flags = 1;
    fragment_offset = offset;
    total_data_length = 5;
  };
  extension_blocks = [];
  payload_block = payload_of bytes;
}

merge-whole_example :
    merge_fragment_payload 0 (piece 0 (6 ∷ 7 ∷ 8 ∷ []) ∷ piece 2 (8 ∷ 9 ∷ 4 ∷ []) ∷ [])
    ≡ ok (6 ∷ 7 ∷ 8 ∷ 9 ∷ 4 ∷ [])
unfolding prepare_sorted last_index payload_data has data_length new_canonical_block
merge-whole_example =
    merge-whole (6 ∷ 7 ∷ 8 ∷ 9 ∷ 4 ∷ []) (piece 0 (6 ∷ 7 ∷ 8 ∷ [])) (piece 2 (8 ∷ 9 ∷ 4 ∷ []) ∷ [])
      refl refl (omega arith, (omega arith, tt)) ((refl, omega arith), ((refl, omega arith), tt))

abbrev pub contained : List Bundle
contained = piece 0 (6 ∷ 7 ∷ 8 ∷ 9 ∷ []) ∷ piece 1 (7 ∷ []) ∷ piece 2 (8 ∷ 9 ∷ 4 ∷ []) ∷ []

merge-panics_example : merge_fragment_payload 0 contained ≡ panic
unfolding prepare_sorted last_index payload_data has data_length new_canonical_block
merge-panics_example = merge-panics contained refl (λ grow. absurd (omega (arith, grow.1.0)))

abbrev pub whole_bundle : Bundle
whole_bundle = record {
  primary_block = plain_primary;
  extension_blocks = hop_block ∷ [];
  payload_block = record (payload_of (5 ∷ 6 ∷ [])) { crc_type = 2 };
}

whole_payload-fits : CanonicalFits small_libs known whole_bundle.payload_block
unfolding has_block_crc new_canonical_block known_kind default_manager marshal_value
whole_payload-fits = record {
  block = payload (5 ∷ 6 ∷ []);
  has_value = refl;
  block_fits = record { value_fits = tt; size_fits = λ bs h. ground (arith, h); kind_known = refl };
  code_fits = omega arith;
  number_fits = omega arith;
  flags_fit = omega arith;
  crc_type_known = omega arith;
  no_crc = λ h. absurd (ground (arith, h));
}

whole_bundle-fits : BundleFits small_libs known whole_bundle
unfolding has_type new_canonical_block
whole_bundle-fits = record {
  primary_fits = plain_primary-fits;
  extensions_fit = ((hop_block-fits, refl), tt);
  payload_fits = whole_payload-fits;
  payload_type = refl;
}

pub service_is_named : service 2 ≢ dtn_none
service_is_named e = absurd (ground (arith, e))

whole_bundle_valid : check_valid 1_746_684_800_000_000_000 whole_bundle ≡ ok []
unfolding check_valid check_blocks check_canonical new_canonical_block check_extensions
    extension_block_by_type extension_blocks_by_type blocks_of_type check_age is_zero_time
    is_lifetime_exceeded check_primary check_bundle_flags has check_endpoint check_ipn
    after_max_timestamp unix_milliseconds raised check_extension is_exceeded requests_no_report
    check_block_flags check_context
whole_bundle_valid = rw (if_neg (EndpointId-discrete (service 2) dtn_none) service_is_named) refl

parse-marshal_bundle_example :
    (bs : List ℕ) × (b' : Bundle) × (marshal_bundle small_libs whole_bundle ≡ ok (bs, b'))
    × (stripped b' ≡ stripped whole_bundle)
    × (parse_bundle small_libs known 1_746_684_800_000_000_000 bs ≡ ok b')
parse-marshal_bundle_example =
    parse-marshal_bundle small_libs small_laws known 1_746_684_800_000_000_000 whole_bundle
      whole_bundle-fits whole_bundle_valid

-- The bytes of that bundle, and what is parsed of them.
written :
    (bs : List ℕ) × (b' : Bundle) × (marshal_bundle small_libs whole_bundle ≡ ok (bs, b'))
    × (stripped b' ≡ stripped whole_bundle)
    × (parse_bundle small_libs known 1_746_684_800_000_000_000 bs ≡ ok b')
written =
    parse-marshal_bundle small_libs small_laws known 1_746_684_800_000_000_000 whole_bundle
      whole_bundle-fits whole_bundle_valid

parse_bundle-valid_example : check_valid 1_746_684_800_000_000_000 (written.1) ≡ ok []
parse_bundle-valid_example =
    parse_bundle-valid small_libs known 1_746_684_800_000_000_000 (written.0) (written.1)
      (written.4)

fragments_from-Ends_example :
    Ends small_libs 0 80 whole_bundle
      (5 ∷ 6 ∷ [])
      (20, 10)
      0
      (fragments_from small_libs 0 80 whole_bundle (5 ∷ 6 ∷ []) (20, 10) 2 0)
fragments_from-Ends_example = fragments_from-Ends small_libs 0 80 whole_bundle (5 ∷ 6 ∷ []) (20, 10)

abbrev pub aged : CanonicalBlock
aged = record empty_block { value = some (bundle_age 9) }

abbrev pub age : ExtensionBlock
age = bundle_age 9

whole_bundle_differ : numbers_differ whole_bundle.extension_blocks ≡ true
unfolding numbers_differ among
whole_bundle_differ = refl
