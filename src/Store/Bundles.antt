-- ===== src/Store/Bundles.antt =====
-- pkg/store/store.go. Every method holds the store's mutex from its first line to its last, and
-- `deleteBundle` runs in a goroutine of its own. So what a node does to its store is a sequence of
-- events, one of which is that such a goroutine gets the mutex.
pub mod Invariant
pub mod Deletions
pub mod Sound
pub mod View
pub mod Insertion
pub mod Refinement
pub mod Expiry
use dtn7_go.Base.{
  ◌≡◌, ℕ, ◌+◌, ◌*◌, ◌^◌, List, [], ◌∷◌, ◌++◌, Bool, true, false, not, ◌&&◌, ltb, Option, none, some,
  if◌then◌else◌, ite, Result, ok, err, panic, descriptor_deleted, get, set, remove, change,
  map_values,
}
use dtn7_go.Bpv7.Endpoint.{EndpointId}
use dtn7_go.Bpv7.Bundle.{Bundle, BundleId, bundle_id}
use dtn7_go.Store.Disk.{
  BundleId-discrete, Surroundings, previous_node_of, new_metadata, delete_from_disk, store_on_disk,
}
use dtn7_go.Store.Descriptor.{
  Metadata, Descriptor, Outcome, StoreError, Call, adding, removing, resetting, deleting, telling,
  noting, call, new_descriptor, add_known_holder, delete, has_constraint, may_dispatch, is_retained,
}

-- `deletions` is no field of the program: it has the metadata that the goroutines of `deleteBundle`
-- which have not got the mutex yet were started with.
pub record BundleStore (D : Type 0) : Type 0 where
  pub node_id : EndpointId
  pub bundles : List (BundleId × Descriptor)
  pub deletions : List Metadata
  pub disk : D

-- `Expired`, at a time in nanoseconds since 1970.
unfoldable pub is_expired : ℕ → Descriptor → Bool
is_expired now d = ltb d.metadata.expires (now + 2 ^ 64 * 1_000_000 + 2 ^ 64)

-- What a step of a descriptor starts: `go deleteBundle(metadata)`.
abbrev pub started : Descriptor → Descriptor → List Metadata
started d d' = if ltb d.delete_calls d'.delete_calls then d.metadata ∷ [] else []

-- The body of the loop of `GarbageCollect`. Another goroutine may add a constraint between the test
-- and the call, which then refuses, as it does if the constraint was there before.
unfoldable pub collect : ℕ → Descriptor → Descriptor
collect now d = if is_expired now d && not (is_retained d) then (delete false d).0 else d

unfoldable pub collect_started : ℕ → List (BundleId × Descriptor) → List Metadata
collect_started now [] = []
collect_started now ((i, d) ∷ bundles) = started d (collect now d) ++ collect_started now bundles

-- The methods that write the descriptor's row, if they return no error.
abbrev writes_row : Call → Bool
writes_row (adding c) = false
writes_row (removing c) = false
writes_row resetting = false
writes_row (deleting mark) = false
writes_row (telling peers) = true
writes_row (noting k v) = true

abbrev row_written : Call → Option StoreError → Bool
row_written c none = writes_row c
row_written c (some e) = false

-- An entry of the map that is not one of a deleted bundle.
abbrev pub alive : Option Descriptor → Option Descriptor
alive none = none
alive (some d) = if d.deleted then none else some d

abbrev pub filtered : (Descriptor → Bool) → List (BundleId × Descriptor) → List Descriptor
filtered p [] = []
filtered p ((i, d) ∷ bundles) =
    let rest = filtered p bundles in elim (p d) [ true ↦ d ∷ rest | false ↦ rest ]

-- A test that returns an error is as one that fails.
abbrev passes : Option Bool → Bool
passes none = false
passes (some b) = b

-- The goroutine that is started for an ID and has got the mutex.
unfoldable pub drop_deletion : BundleId → List Metadata → List Metadata
drop_deletion i [] = []
drop_deletion i (m ∷ ms) = ite (BundleId-discrete i m.id) ms (m ∷ drop_deletion i ms)

unfoldable pub find_deletion : BundleId → List Metadata → Option Metadata
find_deletion i [] = none
find_deletion i (m ∷ ms) = ite (BundleId-discrete i m.id) (some m) (find_deletion i ms)

-- What befalls a store. A method that is called on a descriptor which is no longer in the map does
-- nothing to the map: the bundle has been deleted.
pub data Event : Type 0 where
  inserting : Bundle → Event
  calling : BundleId → Call → Event
  collecting : ℕ → Event
  finishing : BundleId → Event

module _ {D : Type 0} where
  unfoldable pub garbage_collect : ℕ → BundleStore D → BundleStore D
  unfolding collect_started
  garbage_collect now st = record st {
    bundles = map_values (collect now) st.bundles;
    deletions = collect_started now st.bundles ++ st.deletions;
  }

  -- `NoSuchBundleError` is `none`.
  unfoldable pub get_bundle_descriptor : BundleId → BundleStore D → Option Descriptor
  get_bundle_descriptor i st = alive (get BundleId-discrete i st.bundles)

  unfoldable pub get_with_constraint : ℕ → BundleStore D → List Descriptor
  get_with_constraint c st = filtered (λ d. passes (has_constraint c d)) st.bundles

  unfoldable pub get_dispatchable : BundleStore D → List Descriptor
  get_dispatchable st = filtered may_dispatch st.bundles

module _ {D : Type 0} (env : Surroundings D) where
  abbrev kept_new :
      Metadata → BundleStore D → D × Result (Unit {0}) → BundleStore D × Result Descriptor
  kept_new m st (disk, ok _) = (
    record st { bundles = set BundleId-discrete m.id (new_descriptor m) st.bundles; disk = disk },
    ok (new_descriptor m),
  )
  kept_new m st (disk, err e) = (record st { disk = disk }, err e)
  kept_new m st (disk, panic) = (record st { disk = disk }, panic)

  -- `insertNewBundleUnsafe`
  unfoldable pub insert_new_bundle :
      Bundle → Result (Option EndpointId) → BundleStore D → BundleStore D × Result Descriptor
  unfolding store_on_disk new_metadata
  insert_new_bundle b (ok prev) st =
      let m = new_metadata env st.node_id b prev in kept_new m st (store_on_disk env m b st.disk)
  insert_new_bundle b (err e) st = (st, err e)
  insert_new_bundle b panic st = (st, panic)

  -- A descriptor of the map as a method leaves it.
  unfoldable pub put_descriptor :
      BundleId → Descriptor → Descriptor → Bool → BundleStore D → BundleStore D
  put_descriptor i d d' row st = record st {
    bundles = set BundleId-discrete i d' st.bundles;
    deletions = started d d' ++ st.deletions;
    disk = if row then env.update_row d'.metadata.id_string d'.metadata st.disk else st.disk;
  }

  abbrev as_told :
      BundleId → Descriptor → BundleStore D → Outcome → BundleStore D × Result Descriptor
  as_told i d st (d', none) = (put_descriptor i d d' true st, ok d')
  as_told i d st (d', some e) = (st, err descriptor_deleted)

  -- The bundle is in the store: who sent it is a known holder.
  unfoldable pub insert_again :
      Bundle
      → Descriptor
      → Result (Option EndpointId)
      → BundleStore D
      → BundleStore D × Result Descriptor
  insert_again b d (ok none) st = (st, ok d)
  insert_again b d (ok (some eid)) st = as_told (bundle_id b) d st (add_known_holder (eid ∷ []) d)
  insert_again b d (err e) st = (st, err e)
  insert_again b d panic st = (st, panic)

  unfoldable pub insert_bundle : Bundle → BundleStore D → BundleStore D × Result Descriptor
  unfolding insert_new_bundle insert_again
  insert_bundle b st = elim (get BundleId-discrete (bundle_id b) st.bundles) [
    | none ↦ insert_new_bundle b (previous_node_of b) st
    | some d ↦ insert_again b d (previous_node_of b) st
  ]

  -- A method of the descriptor that the map has for an ID.
  unfoldable pub call_on : BundleId → Call → BundleStore D → BundleStore D
  unfolding put_descriptor
  call_on i c st = elim (get BundleId-discrete i st.bundles) [
    | none ↦ st
    | some d ↦ let (d', e) = call c d in put_descriptor i d d' (row_written c e) st
  ]

  -- `deleteBundle` of the goroutine that was started for an ID, if there is one.
  unfoldable pub delete_bundle : BundleId → BundleStore D → BundleStore D
  unfolding drop_deletion find_deletion delete_from_disk
  delete_bundle i st = elim (find_deletion i st.deletions) [
    | none ↦ st
    | some m ↦ record st {
      bundles = remove BundleId-discrete m.id st.bundles;
      deletions = drop_deletion i st.deletions;
      disk = delete_from_disk env m st.disk;
    }
  ]

  abbrev with_all : List Metadata → List (BundleId × Descriptor) → List (BundleId × Descriptor)
  with_all [] bundles = bundles
  with_all (m ∷ ms) bundles = with_all ms (set BundleId-discrete m.id (new_descriptor m) bundles)

  abbrev start_with : EndpointId → D → List Metadata → BundleStore D
  start_with node_id disk rows = record {
    node_id = node_id;
    bundles = with_all rows [];
    deletions = [];
    disk = disk;
  }

  -- `InitialiseStore` on a database that is open.
  unfoldable pub initialise_store : EndpointId → D → Option (BundleStore D)
  initialise_store node_id disk = change (start_with node_id disk) (env.all_rows disk)

  unfoldable pub perform : Event → BundleStore D → BundleStore D
  perform (inserting b) st = (insert_bundle b st).0
  perform (calling i c) st = call_on i c st
  perform (collecting now) st = garbage_collect now st
  perform (finishing i) st = delete_bundle i st

  -- What any sequence of events makes of a store that a node has started with.
  pub data Running : BundleStore D → Type 0 where
    initial :
        (node_id : EndpointId) (disk : D) {st : BundleStore D}
        → initialise_store node_id disk ≡ some st
        → Running st
    next : {st : BundleStore D} → Running st → (e : Event) → Running (perform e st)
