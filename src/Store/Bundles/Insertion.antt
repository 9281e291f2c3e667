-- ===== src/Store/Bundles/Insertion.antt =====
-- What can be seen of an insertion.
use dtn7_go.Base.{
  set, ◌≡◌, ◌≢◌, ◌∙◌, refl, sym, ap, subst, [], ◌∷◌, Bool, true, false, Option, none, some,
  if◌then◌else◌, arith, get, get-set, Option-cases, Bool-cases, inl, inr, Result, ok, err, panic,
  if_pos, descriptor_deleted,
}
use dtn7_go.Bpv7.Endpoint.{EndpointId}
use dtn7_go.Bpv7.Bundle.{Bundle, BundleId, bundle_id}
use dtn7_go.Store.Descriptor.{Metadata, Descriptor, new_descriptor, add_known_holder}
use dtn7_go.Store.Disk.{
  BundleId-discrete, Surroundings, previous_node_of, new_metadata, store_on_disk,
}
use dtn7_go.Store.Bundles.{
  BundleStore, inserting, kept_new, insert_new_bundle, put_descriptor, insert_again, insert_bundle,
}
use dtn7_go.Store.Bundles.Sound.{insert_bundle-new, insert_bundle-again}
use dtn7_go.Store.Bundles.{get_bundle_descriptor, alive}
use dtn7_go.Store.Bundles.View.{view, told, Inserted, Promise}

module _ {D : Type 0} (env : Surroundings D) where
  -- What an insertion that finds `before` at its ID leaves.
  Leaves : Bundle → Option Descriptor → BundleStore D → BundleStore D → Type 0
  Leaves b before st st' =
      Inserted env st.node_id b (alive before) (view st' (bundle_id b))
      × ((i : BundleId) → i ≢ bundle_id b → view st' i ≡ view st i)

  kept_new-Leaves :
      (b : Bundle) (prev : Option EndpointId) (st : BundleStore D) (out : D × Result (Unit {0}))
      → previous_node_of b ≡ ok prev
      → get BundleId-discrete (bundle_id b) st.bundles ≡ none
      → Leaves b none st ((kept_new env (new_metadata env st.node_id b prev) st out).0)
  unfolding Leaves view get_bundle_descriptor new_metadata new_descriptor
  kept_new-Leaves b prev st (disk, ok _) named free =
      let m = new_metadata env st.node_id b prev in
      let found =
        λ (i : BundleId). get-set BundleId-discrete i m.id (new_descriptor m) st.bundles in
      (
        inr (
          prev,
          named,
          ap alive (
              found (bundle_id b)
              ∙ if_pos (BundleId-discrete (bundle_id b) m.id) refl (some (new_descriptor m))
                  (get BundleId-discrete (bundle_id b) st.bundles)),
        ),
        λ i off. ground (arith, found i, off),
      )
  kept_new-Leaves b prev st (disk, err e) named free = (inl (ground (arith, free)), λ i off. refl)
  kept_new-Leaves b prev st (disk, panic) named free = (inl (ground (arith, free)), λ i off. refl)

  insert_new_bundle-Leaves :
      (b : Bundle) (prev : Result (Option EndpointId)) (st : BundleStore D)
      → previous_node_of b ≡ prev
      → get BundleId-discrete (bundle_id b) st.bundles ≡ none
      → Leaves b none st ((insert_new_bundle env b prev st).0)
  unfolding Leaves view get_bundle_descriptor insert_new_bundle
  insert_new_bundle-Leaves b (ok prev) st named free =
      kept_new-Leaves b prev st (store_on_disk env (new_metadata env st.node_id b prev) b st.disk)
        named free
  insert_new_bundle-Leaves b (err e) st named free = (inl (ground (arith, free)), λ i off. refl)
  insert_new_bundle-Leaves b panic st named free = (inl (ground (arith, free)), λ i off. refl)

  insert_again-told :
      (b : Bundle) (d : Descriptor) (prev : Result (Option EndpointId)) (st : BundleStore D)
      → get BundleId-discrete (bundle_id b) st.bundles ≡ some d
      → d.deleted ≡ false
      → view ((insert_again env b d prev st).0) (bundle_id b) ≡ some (told prev d)
  unfolding view get_bundle_descriptor insert_again add_known_holder put_descriptor
  insert_again-told b d (ok none) st here lives = ground (arith, here, lives)
  insert_again-told b d (ok (some eid)) st here lives = ground (
    arith,
    here,
    lives,
    get-set BundleId-discrete (bundle_id b) (bundle_id b) ((add_known_holder (eid ∷ []) d).0)
        st.bundles,
  )
  insert_again-told b d (err e) st here lives = ground (arith, here, lives)
  insert_again-told b d panic st here lives = ground (arith, here, lives)

  insert_again-elsewhere :
      (b : Bundle) (d : Descriptor) (prev : Result (Option EndpointId)) (st : BundleStore D)
      → (i : BundleId) → i ≢ bundle_id b
      → view ((insert_again env b d prev st).0) i ≡ view st i
  unfolding view get_bundle_descriptor insert_again add_known_holder put_descriptor
  insert_again-elsewhere b d (ok none) st i off = refl
  insert_again-elsewhere b d (ok (some eid)) st i off = ground (
    arith,
    off,
    get-set BundleId-discrete i (bundle_id b) ((add_known_holder (eid ∷ []) d).0) st.bundles,
  )
  insert_again-elsewhere b d (err e) st i off = refl
  insert_again-elsewhere b d panic st i off = refl

  insert_again-deleted :
      (b : Bundle) (d : Descriptor) (prev : Result (Option EndpointId)) (st : BundleStore D)
      → d.deleted ≡ true
      → (insert_again env b d prev st).0 ≡ st
  unfolding insert_again add_known_holder
  insert_again-deleted b d (ok none) st gone = refl
  insert_again-deleted b d (ok (some eid)) st gone = ground (arith, gone)
  insert_again-deleted b d (err e) st gone = refl
  insert_again-deleted b d panic st gone = refl

  insert_again-Leaves :
      (b : Bundle) (d : Descriptor) (st : BundleStore D)
      → get BundleId-discrete (bundle_id b) st.bundles ≡ some d
      → Leaves b (some d) st ((insert_again env b d (previous_node_of b) st).0)
  unfolding Leaves view get_bundle_descriptor
  insert_again-Leaves b d st here = (
    elim (Bool-cases d.deleted) [
      | inl gone ↦
          subst
            (λ (o : Option Descriptor).
              Inserted env st.node_id b o
                (view ((insert_again env b d (previous_node_of b) st).0) (bundle_id b)))
            (sym (ap (λ (g : Bool). if g then none else some d) gone))
            (inl (
              ap (λ (s : BundleStore D). view s (bundle_id b))
                (insert_again-deleted b d (previous_node_of b) st gone)
              ∙ ground (arith, here, gone)))
      | inr lives ↦
          subst
            (λ (o : Option Descriptor).
              Inserted env st.node_id b o
                (view ((insert_again env b d (previous_node_of b) st).0) (bundle_id b)))
            (sym (ap (λ (g : Bool). if g then none else some d) lives))
            (insert_again-told b d (previous_node_of b) st here lives)
    ],
    insert_again-elsewhere b d (previous_node_of b) st,
  )

  pub inserting-kept :
      (b : Bundle) (st : BundleStore D)
      → Promise env st.node_id (inserting b) (view st) (view (insert_bundle env b st).0)
  unfolding view get_bundle_descriptor Leaves
  inserting-kept b st = elim (Option-cases (get BundleId-discrete (bundle_id b) st.bundles)) [
    | inl free ↦
        subst
          (λ (o : Option Descriptor).
            Inserted env st.node_id b (alive o) (view (insert_bundle env b st).0 (bundle_id b))
            × ((i : BundleId) → i ≢ bundle_id b → view (insert_bundle env b st).0 i ≡ view st i))
          (sym free)
          (subst (λ (out : BundleStore D × Result Descriptor). Leaves b none st out.0)
            (sym (insert_bundle-new env b st free))
            (insert_new_bundle-Leaves b (previous_node_of b) st refl free))
    | inr (d, here) ↦
        subst
          (λ (o : Option Descriptor).
            Inserted env st.node_id b (alive o) (view (insert_bundle env b st).0 (bundle_id b))
            × ((i : BundleId) → i ≢ bundle_id b → view (insert_bundle env b st).0 i ≡ view st i))
          (sym here)
          (subst (λ (out : BundleStore D × Result Descriptor). Leaves b (some d) st out.0)
            (sym (insert_bundle-again env b st d here)) (insert_again-Leaves b d st here))
  ]

  -- What an insertion returns that finds a deleted descriptor.
  abbrev pub found_deleted : Descriptor → Result (Option EndpointId) → Result Descriptor
  found_deleted d (ok none) = ok d
  found_deleted d (ok (some eid)) = err descriptor_deleted
  found_deleted d (err e) = err e
  found_deleted d panic = panic

  insert_again-found_deleted :
      (b : Bundle) (d : Descriptor) (prev : Result (Option EndpointId)) (st : BundleStore D)
      → d.deleted ≡ true
      → insert_again env b d prev st ≡ (st, found_deleted d prev)
  unfolding insert_again add_known_holder
  insert_again-found_deleted b d (ok none) st gone = refl
  insert_again-found_deleted b d (ok (some eid)) st gone = ground (arith, gone)
  insert_again-found_deleted b d (err e) st gone = refl
  insert_again-found_deleted b d panic st gone = refl

  -- An insertion that finds the descriptor of a bundle which is deleted and not yet taken out of the map
  -- changes nothing in the store, its files included, whatever node the bundle names as its sender. It
  -- returns that descriptor and no error if no sender is named, and an error if one is; if the sender
  -- cannot be read, it fails in that way. The bundle cannot be seen afterwards.
  pub insert_bundle-deleted :
      (b : Bundle) (st : BundleStore D) (d : Descriptor)
      → get BundleId-discrete (bundle_id b) st.bundles ≡ some d
      → d.deleted ≡ true
      → (insert_bundle env b st ≡ (st, found_deleted d (previous_node_of b)))
        × (get_bundle_descriptor (bundle_id b) (insert_bundle env b st).0 ≡ none)
  unfolding get_bundle_descriptor
  insert_bundle-deleted b st d here gone =
      let unchanged =
        insert_bundle-again env b st d here
        ∙ insert_again-found_deleted b d (previous_node_of b) st gone in
      (unchanged, rw unchanged (ground (arith, here, gone)))

  -- The store with a new bundle.
  abbrev pub stored : Metadata → BundleStore D → D → BundleStore D
  stored m st disk = record st {
    bundles = set BundleId-discrete m.id (new_descriptor m) st.bundles;
    disk = disk;
  }

  kept_new-ok :
      (m : Metadata) (st : BundleStore D) (out : D × Result (Unit {0}))
      → out.1 ≡ ok tt
      → kept_new env m st out ≡ (stored m st out.0, ok (new_descriptor m))
  kept_new-ok m st (disk, ok _) h = refl
  kept_new-ok m st (disk, err e) h = absurd (ground (arith, h))
  kept_new-ok m st (disk, panic) h = absurd (ground (arith, h))

  pub insert_bundle-stored :
      (b : Bundle) (prev : Option EndpointId) (st : BundleStore D)
      → get BundleId-discrete (bundle_id b) st.bundles ≡ none
      → previous_node_of b ≡ ok prev
      → (store_on_disk env (new_metadata env st.node_id b prev) b st.disk).1 ≡ ok tt
      → insert_bundle env b st ≡ (
        stored
            (new_metadata env st.node_id b prev)
            st
            (store_on_disk env (new_metadata env st.node_id b prev) b st.disk).0,
        ok (new_descriptor (new_metadata env st.node_id b prev)),
      )
  unfolding insert_new_bundle
  insert_bundle-stored b prev st free named written =
      let m = new_metadata env st.node_id b prev in
      insert_bundle-new env b st free
      ∙ ap (λ (r : Result (Option EndpointId)). insert_new_bundle env b r st) named
      ∙ kept_new-ok m st (store_on_disk env m b st.disk) written
