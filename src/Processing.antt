-- ===== src/Processing.antt =====
-- pkg/processing/processing.go and reception.go. What the routing algorithm selects, what the store
-- loads and whether a sender has sent a bundle are arguments. `BundleForwarding` runs each forwarding in
-- a goroutine of its own; this is one of them.
pub mod Finished
pub mod Received
use dtn7_go.Base.{
  ℕ, List, [], ◌∷◌, Bool, true, false, Option, none, some, Error, Result, ok, err, panic, then_ok,
  if◌then◌else◌,
}
use dtn7_go.Bpv7.Endpoint.{EndpointId}
use dtn7_go.Bpv7.Extension.{previous_node, block_type_previous_node}
use dtn7_go.Bpv7.Canonical.{CanonicalBlock, new_canonical_block}
use dtn7_go.Bpv7.Bundle.{
  Bundle, bundle_id, extension_block_by_type, remove_extension_block, add_extension_block,
}
use dtn7_go.Store.Descriptor.{
  Descriptor, Outcome, StoreError, Call, dispatch_pending, forward_pending, add_constraint,
  remove_constraint, reset_constraints, add_known_holder, has_constraint,
}
use dtn7_go.Store.Disk.{Surroundings}
use dtn7_go.Store.Bundles.{BundleStore, put_descriptor, insert_bundle, get_dispatchable}
use dtn7_go.Routing.Peers.{Sender}
use dtn7_go.Routing.Spray.{Selection}

-- How a forwarding has ended: where the procedure returned.
pub data Ending : Type 0 where
  not_added : StoreError → Ending
  not_removed : StoreError → Ending
  contraindicated : Ending
  not_loaded : Error → Ending
  forwarded : Ending
  panicked : Ending

-- The descriptor afterwards, and the bundle and the senders that it was handed to.
pub record Forwarding : Type 0 where
  pub descriptor : Descriptor
  pub sent : Option Bundle
  pub senders : List Sender
  pub ending : Ending

abbrev stopped : Descriptor → Ending → Forwarding
stopped d ending = record { descriptor = d; sent = none; senders = []; ending = ending }

-- Step 4.1: the previous node block is removed, if there is just one.
unfoldable pub without_previous_node : Bundle → Result Bundle
without_previous_node b = elim (extension_block_by_type block_type_previous_node b) [
  | ok cb ↦ ok (remove_extension_block cb.block_number b)
  | err e ↦ ok b
  | panic ↦ panic
]

-- Step 4.2: that no block can be added is logged.
unfoldable pub with_previous_node : EndpointId → Bundle → Result Bundle
with_previous_node own b =
    elim (add_extension_block (new_canonical_block 0 0 (previous_node own)) b) [
      | ok b' ↦ ok b'
      | err e ↦ ok b
      | panic ↦ panic
    ]

-- `forwardBundleToPeer` for each sender, in the order in which the goroutines come to
-- `AddKnownHolder`; its error is logged.
unfoldable pub tell_holders : (Sender → Bool) → List Sender → Descriptor → Descriptor
tell_holders sends [] d = d
tell_holders sends (cs ∷ peers) d =
    let told = tell_holders sends peers ((add_known_holder (cs.peer_endpoint_id ∷ []) d).0) in
    let untold = tell_holders sends peers d in elim (sends cs) [ true ↦ told | false ↦ untold ]

module _ (own_node_id : EndpointId) (select : Descriptor → Selection)
    (load_bundle : Descriptor → Result Bundle) (sends : Sender → Bool) where
  -- Steps 4.4 to 6.
  unfoldable pub send_to_peers : List Sender → Descriptor → Result Bundle → Forwarding
  unfolding tell_holders
  send_to_peers peers d (ok b) = record {
    descriptor = (remove_constraint forward_pending (tell_holders sends peers d)).0;
    sent = some b;
    senders = peers;
    ending = forwarded;
  }
  send_to_peers peers d (err e) = stopped d (not_loaded e)
  send_to_peers peers d panic = stopped d panicked

  -- The bundle to send: the one that the algorithm gives, or the one that the store loads.
  abbrev chosen_bundle : Option Bundle → Descriptor → Result Bundle
  chosen_bundle none d = load_bundle d
  chosen_bundle (some b) d = ok b

  abbrev prepared : Result Bundle → Result Bundle
  prepared chosen =
      then_ok chosen λ b. then_ok (without_previous_node b) (with_previous_node own_node_id)

  -- Steps 2 to 6, from what the algorithm has selected.
  unfoldable pub forward_selected : List Sender → Option Bundle → Descriptor → Forwarding
  unfolding send_to_peers
  forward_selected [] bundle d = stopped ((reset_constraints d).0) contraindicated
  forward_selected (cs ∷ peers) bundle d =
      send_to_peers (cs ∷ peers) d (prepared (chosen_bundle bundle d))

  abbrev after_removal : Outcome → Forwarding
  after_removal (d, none) =
      forward_selected (select d).senders (select d).bundle (select d).descriptor
  after_removal (d, some e) = stopped d (not_removed e)

  abbrev after_addition : Outcome → Forwarding
  after_addition (d, none) = after_removal (remove_constraint dispatch_pending d)
  after_addition (d, some e) = stopped d (not_added e)

  -- `forwardingAsync`
  unfoldable pub forwarding_async : Descriptor → Forwarding
  forwarding_async d = after_addition (add_constraint forward_pending d)

-- `DispatchPending`: the bundles whose forwarding is started.
unfoldable pub dispatch_all : {D : Type 0} → BundleStore D → List Descriptor
dispatch_all st = get_dispatchable st

unfoldable pub is_pending : Descriptor → Bool
is_pending d = elim (has_constraint dispatch_pending d) [ none ↦ false | some b ↦ b ]

-- The store, the agents and, if it is to be forwarded, the descriptor.
pub record Reception (D A : Type 0) : Type 0 where
  pub store : BundleStore D
  pub agents : A
  pub forwards : Option Descriptor

module _ {D A : Type 0} (env : Surroundings D) (delivery : Descriptor → A → A)
    (notify : Descriptor → Bundle → Result Descriptor) where
  -- What is left to do when the algorithm has been notified of a bundle.
  abbrev after_notice :
      BundleStore D → A → Descriptor → Bundle → Result Descriptor → Result (Reception D A)
  after_notice st agents d b (ok d') = ok (record {
    store = put_descriptor env (bundle_id b) d d' true st;
    agents = agents;
    forwards = if is_pending d' then some d' else none;
  })
  after_notice st agents d b (err e) = err e
  after_notice st agents d b panic = panic

  abbrev after_insertion : A → Bundle → BundleStore D × Result Descriptor → Result (Reception D A)
  after_insertion agents b (st, ok d) = after_notice st (delivery d agents) d b (notify d b)
  after_insertion agents b (st, err e) =
      ok (record { store = st; agents = agents; forwards = none })
  after_insertion agents b (st, panic) = panic

  -- `receiveAsync`: `delivery` is that of the agent manager, `notify` the algorithm's `NotifyNewBundle`
  -- or `NotifyReceivedBundle`, which may change the descriptor's miscellaneous data.
  unfoldable pub receive_async : Bundle → BundleStore D → A → Result (Reception D A)
  unfolding is_pending
  receive_async b st agents = after_insertion agents b (insert_bundle env b st)
