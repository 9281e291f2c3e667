-- ===== src/Examples/Processes.antt =====
-- A forwarding and a reception, and what the theorems say of them.
use dtn7_go.Base.{◌≡◌, refl, List, [], ◌∷◌, Bool, true, false, none, Result, ok, get}
use dtn7_go.Bpv7.Bundle.{Bundle, bundle_id}
use dtn7_go.Bpv7.Bundle.Wire.{marshal_bundle, marshal_blocks}
use dtn7_go.Bpv7.Primary.{marshal_primary, primary_body, marshal_endpoints, has_crc}
use dtn7_go.Bpv7.Endpoint.{marshal_endpoint, check_endpoint, check_ipn}
use dtn7_go.Bpv7.Crc.{calculate_crc_buff}
use dtn7_go.Bpv7.Canonical.{marshal_canonical, canonical_body, new_canonical_block, has_block_crc}
use dtn7_go.Bpv7.Extension.{write_block, marshal_value}
use dtn7_go.Store.Descriptor.{Descriptor, new_descriptor}
use dtn7_go.Store.Disk.{BundleId-discrete, new_metadata, store_on_disk, write_bundle}
use dtn7_go.Routing.Peers.{Sender}
use dtn7_go.Routing.Spray.{Selection}
use dtn7_go.Processing.{forwarding_async}
use dtn7_go.Processing.Finished.{KeepsState, Leaves, forwarding_async-Leaves}
use dtn7_go.Processing.Received.{Accepted, receive_async-new}
use dtn7_go.Examples.Blocks.{service}
use dtn7_go.Examples.Node.{to}
use dtn7_go.Examples.Stores.{small_disk, b₁, b₁_is_unnamed, fresh_store}
use dtn7_go.Examples.Agents.{parcel}

abbrev pub to_all : Descriptor → Selection
to_all d = record { senders = to 4 ∷ to 5 ∷ []; bundle = none; descriptor = d }

abbrev pub reached : Sender → Bool
reached cs = true

to_all-keeps : (d : Descriptor) → KeepsState d (to_all d).descriptor
to_all-keeps d = record {
  same_constraints = refl;
  same_retain = refl;
  same_dispatch = refl;
  same_deleted = refl;
}

parcel_is_here : parcel.deleted ≡ false
unfolding new_descriptor
parcel_is_here = refl

forwarding_async-Leaves_example :
    Leaves
      (forwarding_async (service 7) to_all (λ d. ok b₁) reached parcel).ending
      (forwarding_async (service 7) to_all (λ d. ok b₁) reached parcel).descriptor
forwarding_async-Leaves_example =
    forwarding_async-Leaves (service 7) to_all (λ d. ok b₁) reached parcel parcel_is_here
      to_all-keeps

b₁_is_unknown : get BundleId-discrete (bundle_id b₁) fresh_store.bundles ≡ none
unfolding get
b₁_is_unknown = refl

b₁_is_written :
    (store_on_disk small_disk
      (new_metadata small_disk fresh_store.node_id b₁ none)
      b₁
      fresh_store.disk).1
    ≡ ok tt
unfolding store_on_disk write_bundle new_metadata marshal_bundle marshal_primary primary_body
    marshal_endpoints marshal_endpoint check_endpoint check_ipn has_crc calculate_crc_buff
    marshal_blocks marshal_canonical canonical_body new_canonical_block write_block marshal_value
    has_block_crc
b₁_is_written = refl

-- The agents keep a list of what was delivered.
abbrev pub listing : Descriptor → List Descriptor → List Descriptor
listing d ds = d ∷ ds

abbrev pub unnoted : Descriptor → Bundle → Result Descriptor
unnoted d b = ok d

unnoted-keeps : (d : Descriptor) → KeepsState d d
unnoted-keeps d = record {
  same_constraints = refl;
  same_retain = refl;
  same_dispatch = refl;
  same_deleted = refl;
}

receive_async-new_example :
    Accepted small_disk listing unnoted b₁ none fresh_store []
      (new_descriptor (new_metadata small_disk fresh_store.node_id b₁ none))
receive_async-new_example =
    receive_async-new small_disk listing unnoted b₁ none fresh_store []
      (new_descriptor (new_metadata small_disk fresh_store.node_id b₁ none)) b₁_is_unknown
      b₁_is_unnamed b₁_is_written refl
      (unnoted-keeps (new_descriptor (new_metadata small_disk fresh_store.node_id b₁ none)))
