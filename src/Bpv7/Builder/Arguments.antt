-- ===== src/Bpv7/Builder/Arguments.antt =====
-- What the builder makes of the arguments that it is called with.
use dtn7_go.Base.{ℕ, ◌+◌, ◌%◌, ◌^◌, ◌≡◌, List, [], ◌∷◌, ◌++◌, none, ok, arith}
use dtn7_go.Base.Int.{pos}
use dtn7_go.Bpv7.Flags.{replicate_block}
use dtn7_go.Bpv7.Extension.{ExtensionBlock, bundle_age, hop_count, previous_node, new_hop_count}
use dtn7_go.Bpv7.Endpoint.{EndpointId}
use dtn7_go.Bpv7.Canonical.{new_canonical_block}
use dtn7_go.Bpv7.Builder.{
  Argument, int, Outside, Builder, parse_lifetime, parse_endpoint, hop_count_block,
  previous_node_block, bundle_age_block, add_flagged, canonical_parse_flags, canonical,
  add_canonical,
}

-- The builder with one more extension block, of the flag `ReplicateBlock` alone.
abbrev pub with_block : ExtensionBlock → Builder → Builder
with_block v b = record b {
  canonicals = b.canonicals ++ (new_canonical_block b.canonical_counter replicate_block v ∷ []);
  canonical_counter = (b.canonical_counter + 1) % 2 ^ 64;
}

-- `BundleAgeBlock`, `HopCountBlock` and `PreviousNodeBlock` of a builder that has not failed, with an
-- age, a limit that is not negative, and an endpoint that they can read, add a block whose only flag is
-- `ReplicateBlock`, whatever flags or other arguments follow. The limit of hops is taken modulo 256.
pub flags_ignored :
    (out : Outside) (b : Builder) (age node : Argument) (rest : List Argument) (ms n : ℕ)
    (eid : EndpointId)
    → b.error ≡ none
    → parse_lifetime out age ≡ ok ms
    → parse_endpoint node ≡ ok eid
    → (bundle_age_block out (age ∷ rest) b ≡ ok (with_block (bundle_age ms) b))
      × (hop_count_block (int (pos n) ∷ rest) b
          ≡ ok (with_block (hop_count (new_hop_count (n % 2 ^ 8))) b))
      × (previous_node_block (node ∷ rest) b ≡ ok (with_block (previous_node eid) b))
unfolding bundle_age_block hop_count_block previous_node_block add_flagged canonical_parse_flags
    canonical add_canonical new_canonical_block
flags_ignored out b age node rest ms n eid fine aged noded =
    (ground (arith, fine, aged), ground (arith, fine), ground (arith, fine, noded))
