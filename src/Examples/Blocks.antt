-- ===== src/Examples/Blocks.antt =====
-- A node's endpoints and blocks, and what the theorems say of them.
use dtn7_go.Base.{ℕ, ◌≤◌, ◌<◌, ◌^◌, ◌≡◌, refl, List, [], ◌∷◌, ◌++◌, Option, some, arith, ok, panic}
use dtn7_go.Bpv7.Time.{CreationTimestamp}
use dtn7_go.Bpv7.Time.RoundTrip.{TimestampFits}
use dtn7_go.Bpv7.Endpoint.{EndpointId, ipn, unmarshal_dtn}
use dtn7_go.Bpv7.Endpoint.RoundTrip.{IsWireEndpoint, null_dtn}
use dtn7_go.Bpv7.Primary.{PrimaryBlock, marshal_primary, unmarshal_primary, has_crc}
use dtn7_go.Bpv7.Primary.Fields.{PrimaryFits}
use dtn7_go.Bpv7.Primary.RoundTrip.{unmarshal-marshal_primary}
use dtn7_go.Bpv7.Extension.{
  ExtensionBlock, BlockKind, hop_count, hop_count_kind, marshal_value, kind_code, marshal_hop_count,
}
use dtn7_go.Bpv7.Extension.Registry.{ExtensionBlockManager, known_kind, default_manager, register}
use dtn7_go.Bpv7.Extension.RoundTrip.{ExtensionFits}
use dtn7_go.Bpv7.Canonical.{
  CanonicalBlock, new_canonical_block, marshal_canonical, unmarshal_canonical, has_block_crc,
}
use dtn7_go.Bpv7.Canonical.RoundTrip.{CanonicalFits, unmarshal-marshal_canonical}
use dtn7_go.Bpv7.Bundle.Wire.{parse_bundle}
use dtn7_go.Bpv7.Bundle.Wire.NoPayload.{parse_bundle-no_payload}
use dtn7_go.Examples.Wire.{small_libs, small_laws, head, read_head}

abbrev pub service : ℕ → EndpointId
service n = record { endpoint_type = some (ipn (record { node = 3; service = n })) }

pub service-IsWireEndpoint : (n : ℕ) → 1 ≤ n → n < 2 ^ 64 → IsWireEndpoint (service n)
service-IsWireEndpoint n low high = record {
  node_positive = omega arith;
  node_fits = omega arith;
  service_positive = low;
  service_fits = high;
}

abbrev pub some_time : CreationTimestamp
some_time = record { dtn_time = 800_000_000_000; sequence_number = 4 }

abbrev pub plain_primary : PrimaryBlock
plain_primary = record {
  version = 7;
  bundle_control_flags = 0;
  crc_type = 2;
  destination = service 1;
  source_node = service 2;
  report_to = service 2;
  creation_timestamp = some_time;
  lifetime = 60_000;
  fragment_offset = 0;
  total_data_length = 0;
  crc = [];
}

some_time-fits : TimestampFits some_time
some_time-fits = record { time_fits = omega arith; sequence_fits = omega arith }

pub plain_primary-fits : PrimaryFits plain_primary
unfolding has_crc
plain_primary-fits = record {
  version_seven = refl;
  flags_fit = omega arith;
  crc_type_known = omega arith;
  destination_wire = service-IsWireEndpoint 1 (omega arith) (omega arith);
  source_wire = service-IsWireEndpoint 2 (omega arith) (omega arith);
  report_wire = service-IsWireEndpoint 2 (omega arith) (omega arith);
  timestamp_fits = some_time-fits;
  lifetime_fits = omega arith;
  offset_fits = omega arith;
  total_fits = omega arith;
  no_offset = λ _. refl;
  no_total = λ _. refl;
  no_crc = λ h. absurd (ground (arith, h));
}

unmarshal-marshal_primary_example :
    (bs : List ℕ) × (crc_val : List ℕ) × (marshal_primary small_libs plain_primary
      ≡ ok (bs, record plain_primary { crc = crc_val }))
    × ((rest : List ℕ)
        → unmarshal_primary small_libs (bs ++ rest)
          ≡ ok (record plain_primary { crc = crc_val }, rest))
unmarshal-marshal_primary_example =
    unmarshal-marshal_primary small_libs small_laws plain_primary plain_primary-fits

abbrev pub known : ℕ → Option BlockKind
known = known_kind default_manager

parse_bundle-no_payload_example :
    (bs : List ℕ) × (pb' : PrimaryBlock) × (marshal_primary small_libs plain_primary ≡ ok (bs, pb'))
    × (parse_bundle small_libs known 0 (159 ∷ (bs ++ (255 ∷ []))) ≡ panic)
parse_bundle-no_payload_example =
    parse_bundle-no_payload small_libs small_laws known 0 plain_primary [] plain_primary-fits

abbrev pub hops : ExtensionBlock
hops = hop_count (record { limit = 64; count = 3 })

hops-fits : ExtensionFits small_libs known hops
unfolding known_kind default_manager marshal_value marshal_hop_count head
hops-fits = record {
  value_fits = (omega arith, omega arith);
  size_fits = λ bs h. ground (arith, h);
  kind_known = refl;
}

abbrev pub hop_block : CanonicalBlock
hop_block = record (new_canonical_block 2 0 hops) { crc_type = 1 }

pub hop_block-fits : CanonicalFits small_libs known hop_block
unfolding has_block_crc new_canonical_block
hop_block-fits = record {
  block = hops;
  has_value = refl;
  block_fits = hops-fits;
  code_fits = omega arith;
  number_fits = omega arith;
  flags_fit = omega arith;
  crc_type_known = omega arith;
  no_crc = λ h. absurd (ground (arith, h));
}

unmarshal-marshal_canonical_example :
    (bs : List ℕ) × (crc_val : List ℕ) × (marshal_canonical small_libs hop_block
      ≡ ok (bs, record hop_block { crc = crc_val }))
    × ((rest : List ℕ)
        → unmarshal_canonical small_libs known (bs ++ rest)
          ≡ ok (record hop_block { crc = crc_val }, rest))
unmarshal-marshal_canonical_example =
    unmarshal-marshal_canonical small_libs small_laws known hop_block hop_block-fits

null_decoded : unmarshal_dtn small_libs (0 ∷ 5 ∷ []) ≡ ok (null_dtn, 5 ∷ [])
unfolding unmarshal_dtn read_head
null_decoded = refl

abbrev pub with_hops : ExtensionBlockManager
with_hops = (kind_code hop_count_kind, hop_count_kind) ∷ []

hops_registered : register [] hop_count_kind ≡ some with_hops
unfolding register known_kind
hops_registered = refl
