-- ===== src/Processing/Received.antt =====
-- What becomes of a bundle that is received.
use dtn7_go.Base.{
  ◌≡◌, ◌∙◌, refl, ap, Bool, true, false, Option, none, some, arith, Result, ok, get, get-set,
  if_pos, if◌then◌else◌,
}
use dtn7_go.Bpv7.Endpoint.{EndpointId}
use dtn7_go.Bpv7.Bundle.{Bundle, bundle_id}
use dtn7_go.Store.Descriptor.{Metadata, Descriptor, new_descriptor, has_constraint, holds}
use dtn7_go.Store.Disk.{
  Surroundings, BundleId-discrete, previous_node_of, new_metadata, store_on_disk,
}
use dtn7_go.Store.Bundles.{BundleStore, alive, put_descriptor, get_bundle_descriptor}
use dtn7_go.Store.Bundles.Insertion.{stored, insert_bundle-stored}
use dtn7_go.Processing.{Reception, is_pending, after_notice, after_insertion, receive_async}
use dtn7_go.Processing.Finished.{KeepsState}

new_is_pending : (m : Metadata) → is_pending (new_descriptor m) ≡ true
unfolding is_pending has_constraint new_descriptor holds
new_is_pending m = refl

new_is_here : (m : Metadata) → (new_descriptor m).deleted ≡ false
unfolding new_descriptor
new_is_here m = refl

module _ {D A : Type 0} (env : Surroundings D) (delivery : Descriptor → A → A)
    (notify : Descriptor → Bundle → Result Descriptor) where
  still_pending : (d d' : Descriptor) → KeepsState d d' → is_pending d ≡ true → is_pending d' ≡ true
  unfolding is_pending has_constraint
  still_pending d d' k h = ground (arith, k.same_constraints, k.same_deleted, h)

  still_alive :
      (d d' : Descriptor) → KeepsState d d' → d.deleted ≡ false → alive (some d') ≡ some d'
  still_alive d d' k h = ground (arith, k.same_deleted, h)

  -- What is returned for a new bundle of which the algorithm makes `d'`.
  abbrev pub Accepted : Bundle → Option EndpointId → BundleStore D → A → Descriptor → Type 0
  Accepted b prev st agents d' =
      (r : Reception D A) × (receive_async env delivery notify b st agents ≡ ok r)
      × (r.forwards ≡ some d')
      × (get_bundle_descriptor (bundle_id b) r.store ≡ some d')
      × (r.agents ≡ delivery (new_descriptor (new_metadata env st.node_id b prev)) agents)

  -- If a bundle is received that the store does not have, its row and file are written without an
  -- error, and the routing algorithm, when it is notified, changes only metadata: then the bundle is
  -- delivered to the agents with a new descriptor, the store has the descriptor as the algorithm
  -- leaves it, and that descriptor is forwarded.
  pub receive_async-new :
      (b : Bundle) (prev : Option EndpointId) (st : BundleStore D) (agents : A) (d' : Descriptor)
      → get BundleId-discrete (bundle_id b) st.bundles ≡ none
      → previous_node_of b ≡ ok prev
      → (store_on_disk env (new_metadata env st.node_id b prev) b st.disk).1 ≡ ok tt
      → notify (new_descriptor (new_metadata env st.node_id b prev)) b ≡ ok d'
      → KeepsState (new_descriptor (new_metadata env st.node_id b prev)) d'
      → Accepted b prev st agents d'
  unfolding receive_async get_bundle_descriptor put_descriptor
  receive_async-new b prev st agents d' free named written noticed keeps =
      let m = new_metadata env st.node_id b prev in
      let d = new_descriptor m in
      let st' = stored env m st (store_on_disk env m b st.disk).0 in
      let r : Reception D A = record {
        store = put_descriptor env (bundle_id b) d d' true st';
        agents = delivery d agents;
        forwards = if is_pending d' then some d' else none;
      } in
      (
        r,
        ap (after_insertion env delivery notify agents b)
              (insert_bundle-stored env b prev st free named written)
            ∙ ap (after_notice env delivery notify st' (delivery d agents) d b) noticed,
        ap (λ (g : Bool). if g then some d' else none)
            (still_pending d d' keeps (new_is_pending m)),
        ap alive (
              get-set BundleId-discrete (bundle_id b) (bundle_id b) d' st'.bundles
              ∙ if_pos (BundleId-discrete (bundle_id b) (bundle_id b)) refl (some d')
                  (get BundleId-discrete (bundle_id b) st'.bundles))
            ∙ still_alive d d' keeps (new_is_here m),
        refl,
      )
