-- ===== src/Store/Bundles/Sound.antt =====
-- That every event keeps what holds of a store.
use dtn7_go.Base.{
  ◌≡◌, ◌∙◌, refl, sym, ap, subst, List, [], ◌∷◌, true, Option, none, some, arith, get, set,
  change-some, get-set, set-KeysDiffer, set-found, Option-cases, inl, inr, Result, ok, err, panic,
}
use dtn7_go.Bpv7.Endpoint.{EndpointId}
use dtn7_go.Bpv7.Bundle.{Bundle, BundleId, bundle_id}
use dtn7_go.Store.Descriptor.{
  Metadata, Descriptor, Call, telling, call, Outcome, Reachable, fresh, new_descriptor,
  add_known_holder,
}
use dtn7_go.Store.Disk.{
  BundleId-discrete, Surroundings, previous_node_of, new_metadata, store_on_disk,
}
use dtn7_go.Store.Bundles.{
  BundleStore, Event, inserting, calling, collecting, finishing, kept_new, insert_new_bundle,
  insert_again, as_told, insert_bundle, call_on, row_written, initialise_store, with_all,
  start_with, perform, Running, initial, next,
}
use dtn7_go.Store.Bundles.Invariant.{
  count, calls, IsSound, Steps, call-Steps, put_descriptor-IsSound, garbage_collect-IsSound,
}
use dtn7_go.Store.Bundles.Deletions.{delete_bundle-IsSound}

module _ {D : Type 0} (env : Surroundings D) where
  inserted-IsSound :
      (m : Metadata) (disk : D) (st : BundleStore D)
      → IsSound st
      → calls (get BundleId-discrete m.id st.bundles) ≡ 0
      → IsSound (record st {
        bundles = set BundleId-discrete m.id (new_descriptor m) st.bundles;
        disk = disk;
      })
  unfolding new_descriptor
  inserted-IsSound m disk st sound free = record {
    differ = set-KeysDiffer BundleId-discrete m.id (new_descriptor m) st.bundles sound.differ;
    keyed = λ j d h. elim (set-found BundleId-discrete j m.id (new_descriptor m) d st.bundles h) [
      | inl (there, new) ↦ (
        ap (λ (y : Descriptor). y.metadata.id) (sym new) ∙ sym there,
        subst Reachable new (fresh m),
      )
      | inr old ↦ sound.keyed j d old
    ];
    counted = λ j. ground (
      arith,
      sound.counted j,
      free,
      get-set BundleId-discrete j m.id (new_descriptor m) st.bundles,
    );
  }

  kept_new-IsSound :
      (m : Metadata) (st : BundleStore D) (out : D × Result (Unit {0}))
      → IsSound st
      → get BundleId-discrete m.id st.bundles ≡ none
      → IsSound ((kept_new env m st out).0)
  kept_new-IsSound m st (disk, ok _) sound free =
      inserted-IsSound m disk st sound (ground (arith, free))
  kept_new-IsSound m st (disk, err e) sound free = record {
    differ = sound.differ;
    keyed = sound.keyed;
    counted = sound.counted;
  }
  kept_new-IsSound m st (disk, panic) sound free = record {
    differ = sound.differ;
    keyed = sound.keyed;
    counted = sound.counted;
  }

  insert_new_bundle-IsSound :
      (b : Bundle) (prev : Result (Option EndpointId)) (st : BundleStore D)
      → IsSound st
      → get BundleId-discrete (bundle_id b) st.bundles ≡ none
      → IsSound ((insert_new_bundle env b prev st).0)
  unfolding insert_new_bundle new_metadata
  insert_new_bundle-IsSound b (ok prev) st sound free =
      let m = new_metadata env st.node_id b prev in
      kept_new-IsSound m st (store_on_disk env m b st.disk) sound free
  insert_new_bundle-IsSound b (err e) st sound free = sound
  insert_new_bundle-IsSound b panic st sound free = sound

  insert_again-IsSound :
      (b : Bundle) (d : Descriptor) (prev : Result (Option EndpointId)) (st : BundleStore D)
      → IsSound st
      → get BundleId-discrete (bundle_id b) st.bundles ≡ some d
      → IsSound ((insert_again env b d prev st).0)
  unfolding insert_again call
  insert_again-IsSound b d (ok none) st sound here = sound
  insert_again-IsSound b d (ok (some eid)) st sound here =
      told (add_known_holder (eid ∷ []) d)
        (call-Steps (telling (eid ∷ [])) d (sound.keyed (bundle_id b) d here).1)
    where
      told : (out : Outcome) → Steps d out.0 → IsSound ((as_told env (bundle_id b) d st out).0)
      told (d', none) step = put_descriptor-IsSound env (bundle_id b) d d' true st sound here step
      told (d', some x) step = sound
  insert_again-IsSound b d (err e) st sound here = sound
  insert_again-IsSound b d panic st sound here = sound

  pub insert_bundle-new :
      (b : Bundle) (st : BundleStore D)
      → get BundleId-discrete (bundle_id b) st.bundles ≡ none
      → insert_bundle env b st ≡ insert_new_bundle env b (previous_node_of b) st
  unfolding insert_bundle insert_new_bundle
  insert_bundle-new b st free = rw (insert_bundle, free) refl

  pub insert_bundle-again :
      (b : Bundle) (st : BundleStore D) (d : Descriptor)
      → get BundleId-discrete (bundle_id b) st.bundles ≡ some d
      → insert_bundle env b st ≡ insert_again env b d (previous_node_of b) st
  unfolding insert_bundle insert_again
  insert_bundle-again b st d here = rw (insert_bundle, here) refl

  pub insert_bundle-IsSound :
      (b : Bundle) (st : BundleStore D) → IsSound st → IsSound ((insert_bundle env b st).0)
  insert_bundle-IsSound b st sound =
      elim (Option-cases (get BundleId-discrete (bundle_id b) st.bundles)) [
        | inl free ↦
            subst (λ (out : BundleStore D × Result Descriptor). IsSound out.0)
              (sym (insert_bundle-new b st free))
              (insert_new_bundle-IsSound b (previous_node_of b) st sound free)
        | inr (d, here) ↦
            subst (λ (out : BundleStore D × Result Descriptor). IsSound out.0)
              (sym (insert_bundle-again b st d here))
              (insert_again-IsSound b d (previous_node_of b) st sound here)
      ]

  pub call_on-IsSound :
      (i : BundleId) (c : Call) (st : BundleStore D) → IsSound st → IsSound (call_on env i c st)
  unfolding call_on
  call_on-IsSound i c st sound = elim (Option-cases (get BundleId-discrete i st.bundles)) [
    | inl gone ↦ subst IsSound (rw (call_on, gone) refl) sound
    | inr (d, here) ↦ subst IsSound (rw (call_on, here) refl) (
        put_descriptor-IsSound env i d ((call c d).0) (row_written c ((call c d).1)) st sound here
          (call-Steps c d (sound.keyed i d here).1))
  ]

  with_all-IsSound :
      (ms : List Metadata) (node_id : EndpointId) (disk : D)
      (bundles : List (BundleId × Descriptor))
      → IsSound (record { node_id = node_id; bundles = bundles; deletions = []; disk = disk })
      → IsSound (record {
        node_id = node_id;
        bundles = with_all env ms bundles;
        deletions = [];
        disk = disk;
      })
  unfolding count
  with_all-IsSound [] node_id disk bundles sound = sound
  with_all-IsSound (m ∷ ms) node_id disk bundles sound =
      with_all-IsSound ms node_id disk (set BundleId-discrete m.id (new_descriptor m) bundles) (
        inserted-IsSound m disk
          (record { node_id = node_id; bundles = bundles; deletions = []; disk = disk }) sound
          (sym (sound.counted m.id)))

  initial-IsSound :
      (node_id : EndpointId) (disk : D) (st : BundleStore D)
      → initialise_store env node_id disk ≡ some st
      → IsSound st
  unfolding initialise_store count get
  initial-IsSound node_id disk st h =
      let (rows, read, from) = change-some (start_with env node_id disk) (env.all_rows disk) st h in
      subst IsSound from (
        with_all-IsSound rows node_id disk [] (record {
          differ = tt;
          keyed = λ i d there. absurd (ground (arith, there));
          counted = λ i. refl;
        }))

  pub perform-IsSound : (e : Event) (st : BundleStore D) → IsSound st → IsSound (perform env e st)
  unfolding perform
  perform-IsSound (inserting b) st sound = insert_bundle-IsSound b st sound
  perform-IsSound (calling i c) st sound = call_on-IsSound i c st sound
  perform-IsSound (collecting now) st sound = garbage_collect-IsSound now st sound
  perform-IsSound (finishing i) st sound = delete_bundle-IsSound env i st sound

  -- Whatever befell it since its start, a store has one descriptor at most for an ID, each is of the
  -- bundle of that ID and one that calls of its methods have led to, and of the goroutines that
  -- delete a bundle as many are still to come as the descriptor of its ID has started: none if there
  -- is no descriptor.
  pub Running-IsSound : (st : BundleStore D) → Running env st → IsSound st
  Running-IsSound st (initial node_id disk h) = initial-IsSound node_id disk st h
  Running-IsSound _ (next {st} r e) = perform-IsSound e st (Running-IsSound st r)
