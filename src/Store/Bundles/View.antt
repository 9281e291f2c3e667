-- ===== src/Store/Bundles/View.antt =====
-- What the rest of the node sees of a store: for each ID a descriptor or none. The order of the map,
-- the goroutines that are still to run and the disk are forgotten.
use dtn7_go.Base.{
  ℕ, ◌≡◌, ◌≢◌, ◌∙◌, sym, ap, [], ◌∷◌, true, not, ◌&&◌, Option, none, some, arith, get, change,
  only_if, get-set, get-remove, get-map_values, Option-cases, ◌⊎◌, inl, inr, Result, ok, err, panic,
  if_pos,
}
use dtn7_go.Bpv7.Endpoint.{EndpointId}
use dtn7_go.Bpv7.Bundle.{Bundle, BundleId, bundle_id}
use dtn7_go.Store.Descriptor.{
  Metadata, Descriptor, Call, adding, removing, resetting, deleting, telling, noting, call,
  Reachable, new_descriptor, unsafe_delete, add_constraint, delete_if_due, remove_constraint,
  reset_constraints, delete, add_known_holder, set_misc_data, is_retained,
}
use dtn7_go.Store.Descriptor.Invariant.{Reachable-IsMirrored}
use dtn7_go.Store.Disk.{BundleId-discrete, Surroundings, previous_node_of, new_metadata}
use dtn7_go.Store.Bundles.{
  BundleStore, is_expired, collect, find_deletion, Event, inserting, calling, collecting, finishing,
  garbage_collect, put_descriptor, call_on, delete_bundle,
}
use dtn7_go.Store.Bundles.Invariant.{IsSound}
use dtn7_go.Store.Bundles.Deletions.{find_deletion-count, delete_bundle-cases}
use dtn7_go.Store.Bundles.{get_bundle_descriptor, alive}

abbrev pub View : Type 0
View = BundleId → Option Descriptor

unfoldable pub view : {D : Type 0} → BundleStore D → View
view st i = get_bundle_descriptor i st

-- A descriptor after another copy of its bundle has been received.
abbrev pub told : Result (Option EndpointId) → Descriptor → Descriptor
told (ok none) d = d
told (ok (some eid)) d = (add_known_holder (eid ∷ []) d).0
told (err e) d = d
told panic d = d

call-deleted : (c : Call) (d : Descriptor) → d.deleted ≡ true → (call c d).0.deleted ≡ true
unfolding call add_constraint remove_constraint reset_constraints delete unsafe_delete
    add_known_holder set_misc_data delete_if_due
call-deleted (adding c) d h = ground (arith, h)
call-deleted (removing c) d h = ground (arith, h)
call-deleted resetting d h = ground (arith, h)
call-deleted (deleting mark) d h = ground (arith, h)
call-deleted (telling peers) d h = ground (arith, h)
call-deleted (noting k v) d h = ground (arith, h)

module _ {D : Type 0} (env : Surroundings D) where
  -- A bundle that can be seen is told who sent it. One that cannot be seen is not there afterwards, or
  -- its descriptor is new.
  abbrev pub Inserted : EndpointId → Bundle → Option Descriptor → Option Descriptor → Type 0
  Inserted node_id b (some d) now = now ≡ some (told (previous_node_of b) d)
  Inserted node_id b none now =
      (now ≡ none)
      ⊎ ((prev : Option EndpointId) × (previous_node_of b ≡ ok prev)
          × (now ≡ some (new_descriptor (new_metadata env node_id b prev))))

  -- What each event promises of the views before it and after it.
  abbrev pub Promise : EndpointId → Event → View → View → Type 0
  Promise node_id (inserting b) v v' =
      Inserted node_id b (v (bundle_id b)) (v' (bundle_id b))
      × ((i : BundleId) → i ≢ bundle_id b → v' i ≡ v i)
  Promise node_id (calling i c) v v' =
      (v' i ≡ alive (change (λ d. (call c d).0) (v i))) × ((j : BundleId) → j ≢ i → v' j ≡ v j)
  Promise node_id (collecting now) v v' =
      (i : BundleId) → v' i ≡ only_if (λ d. not (is_expired now d && not (is_retained d))) (v i)
  Promise node_id (finishing i) v v' = (j : BundleId) → v' j ≡ v j

  pub calling-kept :
      (i : BundleId) (c : Call) (st : BundleStore D)
      → Promise st.node_id (calling i c) (view st) (view (call_on env i c st))
  unfolding call_on view get_bundle_descriptor put_descriptor
  calling-kept i c st = elim (Option-cases (get BundleId-discrete i st.bundles)) [
    | inl gone ↦ (ground (arith, gone), λ j off. ground (arith, gone))
    | inr (d, here) ↦ (
      ground
          (arith, here, call-deleted c d, get-set BundleId-discrete i i ((call c d).0) st.bundles),
      λ j off. ground (arith, here, off, get-set BundleId-discrete j i ((call c d).0) st.bundles),
    )
  ]

  deletion_is_seen :
      (i : BundleId) (st : BundleStore D) (m : Metadata)
      → IsSound st
      → find_deletion i st.deletions ≡ some m
      → alive (get BundleId-discrete i st.bundles) ≡ none
  deletion_is_seen i st m sound h =
      let (_, some_left) = find_deletion-count i st.deletions m h in
      elim (Option-cases (get BundleId-discrete i st.bundles)) [
        | inl gone ↦ ground (arith, gone)
        | inr (d, here) ↦
            let mirrored = Reachable-IsMirrored d (sound.keyed i d here).1 in
            ground (arith, here, some_left, sound.counted i, mirrored.called_once)
      ]

  pub finishing-kept :
      (i : BundleId) (st : BundleStore D)
      → IsSound st
      → Promise st.node_id (finishing i) (view st) (view (delete_bundle env i st))
  unfolding view get_bundle_descriptor
  finishing-kept i st sound j = elim (delete_bundle-cases env i st) [
    | inl e ↦ ap (λ (s : BundleStore D). view s j) e
    | inr (m, h, e) ↦
        let (named, _) = find_deletion-count i st.deletions m h in
        let left = get-remove BundleId-discrete j m.id st.bundles in
        ap (λ (s : BundleStore D). view s j) e ∙ elim (BundleId-discrete j m.id) [
          | yes same ↦
              ap alive (
                left
                ∙ if_pos (BundleId-discrete j m.id) same none (get BundleId-discrete j st.bundles))
              ∙ sym (
                  ap (λ (k : BundleId). alive (get BundleId-discrete k st.bundles)) (same ∙ named)
                  ∙ deletion_is_seen i st m sound h)
          | no off ↦ ground (arith, left, off)
        ]
  ]

  collect-alive :
      (now : ℕ) (d : Descriptor)
      → Reachable d
      → alive (some (collect now d))
        ≡ only_if (λ x. not (is_expired now x && not (is_retained x))) (alive (some d))
  unfolding collect delete unsafe_delete is_retained
  collect-alive now d r =
      let m = Reachable-IsMirrored d r in ground (arith, m.retains, m.deleted_is_free)

  pub collecting-kept :
      (now : ℕ) (st : BundleStore D)
      → IsSound st
      → Promise st.node_id (collecting now) (view st) (view (garbage_collect now st))
  unfolding view get_bundle_descriptor garbage_collect
  collecting-kept now st sound i =
      let found = get-map_values BundleId-discrete (collect now) i st.bundles in
      elim (Option-cases (get BundleId-discrete i st.bundles)) [
        | inl gone ↦ ground (arith, found, gone)
        | inr (d, here) ↦
            ap alive (found ∙ ap (change (collect now)) here)
            ∙ collect-alive now d (sound.keyed i d here).1
            ∙ sym (
                ap
                  (λ (o : Option Descriptor).
                    only_if (λ x. not (is_expired now x && not (is_retained x))) (alive o))
                  here)
      ]
