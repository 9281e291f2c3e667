-- ===== src/Examples/Node.antt =====
-- A node's store, its stamped bundles and its routing, and what the theorems say of them.
use dtn7_go.Base.{ℕ, ◌≡◌, refl, List, [], ◌∷◌, true, false, none, some, arith, ok, panic}
use dtn7_go.Bpv7.Extension.{generic, read_block, block_type_binary_spray}
use dtn7_go.Bpv7.Canonical.{
  CanonicalBlock, new_canonical_block, unmarshal_canonical, unmarshal_canonical_from,
  read_canonical_crc,
}
use dtn7_go.Bpv7.Extension.Registry.{known_kind, default_manager}
use dtn7_go.Bpv7.Bundle.{Bundle, extension_block_by_type, blocks_of_type}
use dtn7_go.Store.Descriptor.{
  Metadata, Descriptor, Reachable, fresh, after, adding, removing, deleting, new_descriptor, call,
  dispatch_pending, forward_pending, remove_constraint, delete, StoreError, add_constraint,
  is_valid_constraint,
}
use dtn7_go.Store.Descriptor.Invariant.{IsMirrored, Reachable-IsMirrored}
use dtn7_go.IdKeeper.{Event, new_id_tuple, stamping, cleaning, run}
use dtn7_go.IdKeeper.Uniqueness.{IdsDiffer, run-IdsDiffer}
use dtn7_go.Routing.Peers.{Sender, filter_peers}
use dtn7_go.Routing.Spray.{SprayAndWait, Selection, select_spray, notify_received_bundle}
use dtn7_go.Routing.Spray.Copies.{Sprays, copies_seen, select_spray-Sprays}
use dtn7_go.Routing.Spray.Halves.{Halves}
use dtn7_go.Routing.Spray.Received.{notify_received_bundle-panics}
use dtn7_go.Examples.Wire.{small_libs, of_major, raw}
use dtn7_go.Examples.Blocks.{service, some_time, known}
use dtn7_go.Examples.Bundles.{of_lifetime}

abbrev pub some_metadata : Metadata
some_metadata = record {
  id = record {
    source_node = service 2;
    timestamp = some_time;
    is_fragment = false;
    fragment_offset = 0;
    total_data_length = 0;
  };
  source = service 2;
  destination = service 5;
  report_to = service 2;
  is_administrative_record = false;
  miscellaneous_data = [];
  id_string = 50 ∷ [];
  known_holders = service 2 ∷ [];
  expires = 1;
  serialised_file_name = 97 ∷ [];
}

-- The descriptor of a bundle that is being forwarded and has been marked for deletion.
abbrev pub forwarding : Descriptor
forwarding =
    (call (deleting true) (
      (call (removing dispatch_pending)
        ((call (adding forward_pending) (new_descriptor some_metadata)).0)).0)).0

forwarding-Reachable : Reachable forwarding
forwarding-Reachable =
    after (after (after (fresh some_metadata) (adding forward_pending)) (removing dispatch_pending))
      (deleting true)

Reachable-IsMirrored_example : IsMirrored forwarding
Reachable-IsMirrored_example = Reachable-IsMirrored forwarding forwarding-Reachable

forwarding_is_here : forwarding.deleted ≡ false
unfolding call delete remove_constraint add_constraint new_descriptor is_valid_constraint
forwarding_is_here = refl

some_is_none : {e : StoreError} → some e ≡ none → ⊥
some_is_none h = absurd (ground (arith, h))

invalid_refused : ((call (adding 9) forwarding).1 ≡ none → ⊥)
unfolding call delete remove_constraint add_constraint new_descriptor is_valid_constraint
invalid_refused h = absurd (some_is_none h)

abbrev pub three_bundles : List Event
three_bundles =
    stamping (of_lifetime 1)
    ∷ stamping (of_lifetime 2)
    ∷ cleaning 700_000_000_000
    ∷ stamping (of_lifetime 3)
    ∷ []

run-IdsDiffer_example : IdsDiffer (run three_bundles [])
unfolding new_id_tuple
run-IdsDiffer_example =
    run-IdsDiffer three_bundles (omega arith) (omega arith, (omega arith, (omega arith, tt)))

abbrev pub to : ℕ → Sender
to n = record { handle = n; peer_endpoint_id = service n }

abbrev pub basic_router : SprayAndWait
basic_router = record { copies = 2; binary = false }

select_spray-Sprays_example :
    (sel : Selection) × (select_spray basic_router panic 0
        (new_descriptor some_metadata)
        (to 2 ∷ to 4 ∷ to 5 ∷ to 6 ∷ [])
      ≡ ok sel)
    × Sprays
        (copies_seen basic_router (new_descriptor some_metadata))
        (filter_peers (new_descriptor some_metadata) (to 2 ∷ to 4 ∷ to 5 ∷ to 6 ∷ []))
        sel
select_spray-Sprays_example =
    select_spray-Sprays basic_router panic 0 (new_descriptor some_metadata)
      (to 2 ∷ to 4 ∷ to 5 ∷ to 6 ∷ []) refl

-- A block of type 192 with number 2 and eight copies, as it stands on the wire.
abbrev pub spray_on_wire : List ℕ
spray_on_wire = 44 ∷ 1536 ∷ 16 ∷ 0 ∷ 0 ∷ 10 ∷ 64 ∷ []

abbrev pub read_spray : CanonicalBlock
read_spray = new_canonical_block 2 0 (generic 192 (64 ∷ []))

spray_read : unmarshal_canonical small_libs known spray_on_wire ≡ ok (read_spray, [])
unfolding unmarshal_canonical of_major new_canonical_block unmarshal_canonical_from read_block raw
    known_kind default_manager read_canonical_crc
spray_read = refl

abbrev pub with_spray : Bundle
with_spray = record (of_lifetime 1) { extension_blocks = read_spray ∷ [] }

spray_found : extension_block_by_type block_type_binary_spray with_spray ≡ ok read_spray
unfolding extension_block_by_type new_canonical_block blocks_of_type
spray_found = refl

notify_received_bundle-panics_example :
    notify_received_bundle (new_descriptor some_metadata) with_spray ≡ panic
notify_received_bundle-panics_example =
    notify_received_bundle-panics small_libs spray_on_wire [] read_spray
      (new_descriptor some_metadata) with_spray spray_read spray_found

abbrev pub binary_router : SprayAndWait
binary_router = record { copies = 7; binary = true }
