-- ===== src/Processing/Finished.antt =====
-- In what state a forwarding leaves its descriptor.
use dtn7_go.Base.{
  ℕ, ◌≡◌, ◌≢◌, ◌∙◌, refl, sym, ap, subst, List, [], ◌∷◌, Bool, true, false, not, Option, none,
  arith, Result, ok, err, panic,
}
use dtn7_go.Bpv7.Endpoint.{EndpointId}
use dtn7_go.Bpv7.Bundle.{Bundle}
use dtn7_go.Store.Descriptor.{
  Descriptor, dispatch_pending, forward_pending, is_valid_constraint, add_constraint, without,
  holds, is_empty, delete_if_due, unsafe_delete, remove_constraint, reset_constraints,
  add_known_holder, may_dispatch, is_retained,
}
use dtn7_go.Store.Descriptor.Invariant.{holds-append}
use dtn7_go.Routing.Peers.{Sender}
use dtn7_go.Routing.Spray.{Selection}
use dtn7_go.Processing.{
  Ending, not_added, not_removed, contraindicated, not_loaded, forwarded, panicked, Forwarding,
  tell_holders, send_to_peers, chosen_bundle, prepared, forward_selected, after_removal,
  after_addition, forwarding_async,
}

-- Only the metadata of a descriptor has changed.
pub record KeepsState (d d' : Descriptor) : Type 0 where
  pub same_constraints : d'.retention_constraints ≡ d.retention_constraints
  pub same_retain : d'.retain ≡ d.retain
  pub same_dispatch : d'.dispatch ≡ d.dispatch
  pub same_deleted : d'.deleted ≡ d.deleted

-- A descriptor whose forwarding has begun: it is held by the constraint, and no one else forwards it.
abbrev pub IsForwarding : Descriptor → Type 0
IsForwarding d =
    (holds forward_pending d.retention_constraints ≡ true)
    × (may_dispatch d ≡ false)
    × (is_retained d ≡ true)

-- One whose forwarding is over: the constraint is gone, and nothing keeps it from being forwarded again
-- but that it may have been deleted.
abbrev pub IsReleased : Descriptor → Type 0
IsReleased d =
    (holds forward_pending d.retention_constraints ≡ false) × (may_dispatch d ≡ not d.deleted)

abbrev pub Leaves : Ending → Descriptor → Type 0
Leaves forwarded d = IsReleased d
Leaves contraindicated d = IsReleased d
Leaves (not_loaded e) d = IsForwarding d
Leaves panicked d = IsForwarding d
Leaves (not_added e) d = ⊥
Leaves (not_removed e) d = ⊥

holds-without : (c : ℕ) (xs : List ℕ) → holds c (without c xs) ≡ false
unfolding holds without
holds-without c [] = refl
holds-without c (x ∷ xs) = ground (arith, holds-without c xs)

holds-without_other : (c x : ℕ) (xs : List ℕ) → c ≢ x → holds c (without x xs) ≡ holds c xs
unfolding holds without
holds-without_other c x [] off = refl
holds-without_other c x (y ∷ ys) off = ground (arith, off, holds-without_other c x ys off)

holds_some : (c : ℕ) (xs : List ℕ) → holds c xs ≡ true → is_empty xs ≡ false
unfolding holds
holds_some c [] h = ground (arith, h)
holds_some c (x ∷ xs) h = refl

tell_holders-KeepsState :
    (sends : Sender → Bool) (peers : List Sender) (d : Descriptor)
    → KeepsState d (tell_holders sends peers d)
unfolding tell_holders add_known_holder
tell_holders-KeepsState sends [] d = record {
  same_constraints = refl;
  same_retain = refl;
  same_dispatch = refl;
  same_deleted = refl;
}
tell_holders-KeepsState sends (cs ∷ peers) d =
    let told =
      tell_holders-KeepsState sends peers ((add_known_holder (cs.peer_endpoint_id ∷ []) d).0) in
    let untold = tell_holders-KeepsState sends peers d in
    record {
      same_constraints = ground (arith, told.same_constraints, untold.same_constraints);
      same_retain = ground (arith, told.same_retain, untold.same_retain);
      same_dispatch = ground (arith, told.same_dispatch, untold.same_dispatch);
      same_deleted = ground (arith, told.same_deleted, untold.same_deleted);
    }

remove_constraint-IsReleased :
    (d : Descriptor) → d.deleted ≡ false → IsReleased ((remove_constraint forward_pending d).0)
unfolding remove_constraint delete_if_due unsafe_delete may_dispatch
remove_constraint-IsReleased d here =
    let free = holds-without forward_pending d.retention_constraints in
    (ground (arith, here, free), ground (arith, here, free))

reset_constraints-IsReleased :
    (d : Descriptor) → d.deleted ≡ false → IsReleased ((reset_constraints d).0)
unfolding reset_constraints delete_if_due unsafe_delete may_dispatch holds
reset_constraints-IsReleased d here = (ground (arith, here), ground (arith, here))

KeepsState-IsForwarding : (d d' : Descriptor) → KeepsState d d' → IsForwarding d → IsForwarding d'
unfolding may_dispatch is_retained
KeepsState-IsForwarding d d' k (held, busy, kept) = (
  ground (arith, k.same_constraints, held),
  ground (arith, k.same_dispatch, k.same_deleted, busy),
  ground (arith, k.same_retain, k.same_deleted, kept),
)

added : Descriptor → Descriptor
added d = (add_constraint forward_pending d).0

add_constraint-none :
    (d : Descriptor) → d.deleted ≡ false → add_constraint forward_pending d ≡ (added d, none)
unfolding added add_constraint is_valid_constraint
add_constraint-none d here = ground (arith, here)

added-holds :
    (d : Descriptor)
    → d.deleted ≡ false
    → (holds forward_pending (added d).retention_constraints ≡ true) × ((added d).deleted ≡ false)
unfolding added add_constraint is_valid_constraint
added-holds d here = (
  ground (arith, here, holds-append forward_pending forward_pending d.retention_constraints),
  ground (arith, here),
)

begun : Descriptor → Descriptor
begun d = (remove_constraint dispatch_pending d).0

remove_constraint-none :
    (d : Descriptor) → d.deleted ≡ false → remove_constraint dispatch_pending d ≡ (begun d, none)
unfolding begun remove_constraint
remove_constraint-none d here = ground (arith, here)

begun-IsForwarding :
    (d : Descriptor)
    → d.deleted ≡ false
    → holds forward_pending d.retention_constraints ≡ true
    → IsForwarding (begun d) × ((begun d).deleted ≡ false)
unfolding begun remove_constraint delete_if_due unsafe_delete may_dispatch is_retained
begun-IsForwarding d here held =
    let left : holds forward_pending (without dispatch_pending d.retention_constraints) ≡ true =
      holds-without_other forward_pending dispatch_pending d.retention_constraints
        (λ h. absurd (omega (arith, h)))
      ∙ held in
    let some_left =
      holds_some forward_pending (without dispatch_pending d.retention_constraints) left in
    (
      (
        ground (arith, here, left, some_left),
        ground (arith, here, left, some_left),
        ground (arith, here, left, some_left),
      ),
      ground (arith, here, left, some_left),
    )

module _ (own_node_id : EndpointId) (select : Descriptor → Selection)
    (load_bundle : Descriptor → Result Bundle) (sends : Sender → Bool) where
  send_to_peers-Leaves :
      (peers : List Sender) (d : Descriptor) (r : Result Bundle)
      → IsForwarding d
      → d.deleted ≡ false
      → Leaves
          (send_to_peers own_node_id select load_bundle sends peers d r).ending
          (send_to_peers own_node_id select load_bundle sends peers d r).descriptor
  unfolding send_to_peers
  send_to_peers-Leaves peers d (ok b) busy here =
      remove_constraint-IsReleased (tell_holders sends peers d)
        ((tell_holders-KeepsState sends peers d).same_deleted ∙ here)
  send_to_peers-Leaves peers d (err e) busy here = busy
  send_to_peers-Leaves peers d panic busy here = busy

  forward_selected-Leaves :
      (peers : List Sender) (bundle : Option Bundle) (d : Descriptor)
      → IsForwarding d
      → d.deleted ≡ false
      → Leaves
          (forward_selected own_node_id select load_bundle sends peers bundle d).ending
          (forward_selected own_node_id select load_bundle sends peers bundle d).descriptor
  unfolding forward_selected
  forward_selected-Leaves [] bundle d busy here = reset_constraints-IsReleased d here
  forward_selected-Leaves (cs ∷ peers) bundle d busy here =
      send_to_peers-Leaves (cs ∷ peers) d
        (prepared own_node_id select load_bundle sends
          (chosen_bundle own_node_id select load_bundle sends bundle d))
        busy here

  -- If the routing algorithm changes only the metadata of a descriptor, then the forwarding of a bundle
  -- that is not deleted ends in one of four ways. If the bundle was handed to its senders, or there
  -- were none, it is not held as one that is being forwarded, and it may be dispatched unless it is
  -- deleted. If it could not be loaded, or the run ended in a panic, it is held as one that is being
  -- forwarded, and it may not be dispatched.
  pub forwarding_async-Leaves :
      (d : Descriptor)
      → d.deleted ≡ false
      → ((x : Descriptor) → KeepsState x (select x).descriptor)
      → Leaves
          (forwarding_async own_node_id select load_bundle sends d).ending
          (forwarding_async own_node_id select load_bundle sends d).descriptor
  unfolding forwarding_async
  forwarding_async-Leaves d here keeps =
      let (held, still_here) = added-holds d here in
      let (busy, there) = begun-IsForwarding (added d) still_here held in
      let chosen = begun (added d) in
      let result =
        forward_selected own_node_id select load_bundle sends (select chosen).senders
          (select chosen).bundle (select chosen).descriptor in
      let reached : after_addition own_node_id select load_bundle sends
            (add_constraint forward_pending d)
          ≡ result =
        ap (after_addition own_node_id select load_bundle sends) (add_constraint-none d here)
        ∙ ap (after_removal own_node_id select load_bundle sends)
            (remove_constraint-none (added d) still_here) in
      subst (λ (f : Forwarding). Leaves f.ending f.descriptor) (sym reached)
        (forward_selected-Leaves (select chosen).senders (select chosen).bundle
          (select chosen).descriptor
          (KeepsState-IsForwarding chosen (select chosen).descriptor (keeps chosen) busy)
          ((keeps chosen).same_deleted ∙ there))
