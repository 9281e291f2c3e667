-- ===== src/Examples/Stores.antt =====
-- A store on a small disk, and what the theorems say of it.
use dtn7_go.Base.{◌≡◌, refl, List, [], ◌∷◌, true, false, none, some, ok, arith, get, if_pos}
use dtn7_go.Bpv7.Time.{is_zero_time}
use dtn7_go.Bpv7.Extension.{bundle_age, block_type_bundle_age}
use dtn7_go.Bpv7.Canonical.{CanonicalBlock, new_canonical_block}
use dtn7_go.Bpv7.Bundle.{
  Bundle, bundle_id, extension_block_by_type, extension_blocks_by_type, blocks_of_type,
}
use dtn7_go.Bpv7.Bundle.Check.{is_lifetime_exceeded}
use dtn7_go.Store.Descriptor.{Metadata, Descriptor, resetting, new_descriptor}
use dtn7_go.Store.Disk.{Surroundings, BundleId-discrete, previous_node_of, new_metadata}
use dtn7_go.Store.Bundles.{
  BundleStore, inserting, calling, collecting, perform, Running, initial, next, insert_bundle,
  is_expired, get_bundle_descriptor, initialise_store,
}
use dtn7_go.Store.Bundles.Invariant.{IsSound}
use dtn7_go.Store.Bundles.Sound.{Running-IsSound}
use dtn7_go.Store.Bundles.View.{view, Promise}
use dtn7_go.Store.Bundles.Insertion.{insert_bundle-deleted}
use dtn7_go.Store.Bundles.Refinement.{perform-refines}
use dtn7_go.Store.Bundles.Expiry.{is_expired-dated, is_expired-undated}
use dtn7_go.Examples.Wire.{small_libs}
use dtn7_go.Examples.Blocks.{service, known}
use dtn7_go.Examples.Bundles.{of_lifetime}

-- A disk that keeps rows, and one file that holds its name.
abbrev pub Rows : Type 0
Rows = List Metadata

abbrev pub small_disk : Surroundings Rows
small_disk = record {
  libs = small_libs;
  known = known;
  file_name = λ text. 4 ∷ [];
  insert_row = λ key m rows. (m ∷ rows, true);
  update_row = λ key m rows. rows;
  delete_row = λ key rows. rows;
  all_rows = λ rows. some rows;
  create_file = λ name rows. (rows, true);
  write_file = λ name bytes rows. (rows, true);
  remove_file = λ name rows. rows;
  read_file = λ name rows. some name;
}

abbrev pub b₁ : Bundle
b₁ = of_lifetime 1

abbrev pub fresh_store : BundleStore Rows
fresh_store = record { node_id = service 7; bundles = []; deletions = []; disk = [] }

fresh_store-Running : Running small_disk fresh_store
unfolding initialise_store
fresh_store-Running = initial (service 7) [] refl

-- The bundle is stored and its constraints are reset.
abbrev pub idle_store : BundleStore Rows
idle_store =
    perform small_disk (calling (bundle_id b₁) resetting)
      (perform small_disk (inserting b₁) fresh_store)

idle_store-Running : Running small_disk idle_store
idle_store-Running =
    next (next fresh_store-Running (inserting b₁)) (calling (bundle_id b₁) resetting)

perform-refines_example :
    Promise small_disk idle_store.node_id
      (collecting 1_746_684_900_000_000_000)
      (view idle_store)
      (view (perform small_disk (collecting 1_746_684_900_000_000_000) idle_store))
perform-refines_example =
    perform-refines small_disk (collecting 1_746_684_900_000_000_000) idle_store idle_store-Running

Running-IsSound_example : IsSound idle_store
Running-IsSound_example = Running-IsSound small_disk idle_store idle_store-Running

abbrev pub gone : Descriptor
gone = record (new_descriptor (new_metadata small_disk (service 7) b₁ none)) {
  retention_constraints = [];
  retain = false;
  deleted = true;
  delete_calls = 1;
}

-- The goroutine that is to take the bundle out has not run.
abbrev pub deleting_store : BundleStore Rows
deleting_store = record fresh_store { bundles = (bundle_id b₁, gone) ∷ [] }

gone_is_found : get BundleId-discrete (bundle_id b₁) deleting_store.bundles ≡ some gone
unfolding get
gone_is_found = if_pos (BundleId-discrete (bundle_id b₁) (bundle_id b₁)) refl (some gone) none

gone_is_deleted : gone.deleted ≡ true
gone_is_deleted = refl

pub b₁_is_unnamed : previous_node_of b₁ ≡ ok none
unfolding previous_node_of extension_block_by_type extension_blocks_by_type blocks_of_type
b₁_is_unnamed = refl

insert_bundle-deleted_example :
    (insert_bundle small_disk b₁ deleting_store ≡ (deleting_store, ok gone))
    × (get_bundle_descriptor (bundle_id b₁) (insert_bundle small_disk b₁ deleting_store).0 ≡ none)
unfolding previous_node_of extension_block_by_type extension_blocks_by_type blocks_of_type
insert_bundle-deleted_example =
    insert_bundle-deleted small_disk b₁ deleting_store gone gone_is_found gone_is_deleted

is_dated : is_zero_time b₁.primary_block.creation_timestamp ≡ false
unfolding is_zero_time
is_dated = refl

is_expired-dated_example :
    is_lifetime_exceeded 1_746_684_900_000_000_000 b₁
    ≡ ok (
        is_expired 1_746_684_900_000_000_000
          (new_descriptor (new_metadata small_disk (service 7) b₁ (some (service 3)))))
is_expired-dated_example =
    is_expired-dated small_disk 1_746_684_900_000_000_000 (service 7) b₁ (some (service 3)) is_dated

-- A bundle of an hour that is a second old, from a node without a clock.
abbrev pub age_block : CanonicalBlock
age_block = new_canonical_block 2 0 (bundle_age 1_000)

abbrev pub undated : Bundle
undated = record (of_lifetime 3_600_000) {
  primary_block = record (of_lifetime 3_600_000).primary_block {
    creation_timestamp = record { dtn_time = 0; sequence_number = 1 };
  };
  extension_blocks = age_block ∷ [];
}

age_found : extension_block_by_type block_type_bundle_age undated ≡ ok age_block
unfolding extension_block_by_type extension_blocks_by_type blocks_of_type new_canonical_block
age_found = refl

age_is_value : age_block.value ≡ some (bundle_age 1_000)
unfolding new_canonical_block
age_is_value = refl

is_expired-undated_example :
    (is_lifetime_exceeded 1_746_684_900_000_000_000 undated ≡ ok false)
    × (is_expired 1_746_684_900_000_000_000
          (new_descriptor (new_metadata small_disk (service 7) undated none))
        ≡ true)
is_expired-undated_example =
    is_expired-undated small_disk 1_746_684_900_000_000_000 (service 7) undated none age_block 1_000
      refl age_found age_is_value refl (omega arith) (omega arith)
