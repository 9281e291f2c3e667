-- ===== src/Store/Descriptor.antt =====
-- pkg/store/bundle_descriptor.go and constraints.go. Each method holds the descriptor's mutex from
-- its first line to its last, so a method is one step.
pub mod Invariant
pub mod Deletion
use dtn7_go.Base.{
  ℕ, zero, suc, ◌+◌, List, [], ◌∷◌, ◌++◌, Bool, true, false, not, ◌&&◌, ◌||◌, ◌==◌, leb, Option,
  none, some, if◌then◌else◌, bytes_equal,
}
use dtn7_go.Bpv7.Endpoint.{EndpointId}
use dtn7_go.Bpv7.Bundle.{BundleId}

abbrev pub dispatch_pending : ℕ
dispatch_pending = 0

abbrev pub forward_pending : ℕ
forward_pending = 1

abbrev pub reassembly_pending : ℕ
reassembly_pending = 2

-- `Constraint.Valid`
unfoldable pub is_valid_constraint : ℕ → Bool
is_valid_constraint c = leb c reassembly_pending

-- `BundleMetadata`. The values of the map of miscellaneous data are numbers here, as those of its
-- only user are. `expires` is a time in nanoseconds as `Store.Disk.expiry` counts them.
pub record Metadata : Type 0 where
  pub id : BundleId
  pub source : EndpointId
  pub destination : EndpointId
  pub report_to : EndpointId
  pub is_administrative_record : Bool
  pub miscellaneous_data : List (List ℕ × ℕ)
  pub id_string : List ℕ
  pub known_holders : List EndpointId
  pub expires : ℕ
  pub serialised_file_name : List ℕ

-- `delete_calls` is no field of the program: it counts the calls of `deleteBundle` that were started.
pub record Descriptor : Type 0 where
  pub metadata : Metadata
  pub retention_constraints : List ℕ
  pub retain : Bool
  pub dispatch : Bool
  pub deleted : Bool
  pub should_delete : Bool
  pub delete_calls : ℕ

pub data StoreError : Type 0 where
  bundle_deleted : StoreError
  invalid_constraint : ℕ → StoreError
  has_constraints : List ℕ → StoreError

-- The descriptor behind a method, and the error it returns, if any.
abbrev pub Outcome : Type 0
Outcome = Descriptor × Option StoreError

unfoldable pub new_descriptor : Metadata → Descriptor
new_descriptor metadata = record {
  metadata = metadata;
  retention_constraints = dispatch_pending ∷ [];
  retain = true;
  dispatch = true;
  deleted = false;
  should_delete = false;
  delete_calls = 0;
}

-- `unsafeDelete`, for a caller that holds the mutex.
unfoldable pub unsafe_delete : Descriptor → Outcome
unsafe_delete d =
    if d.deleted
    then (d, some bundle_deleted)
    else (record d { deleted = true; delete_calls = d.delete_calls + 1 }, none)

unfoldable pub add_constraint : ℕ → Descriptor → Outcome
add_constraint c d =
    if d.deleted
    then (d, some bundle_deleted)
    else if not (is_valid_constraint c)
    then (d, some (invalid_constraint c))
    else (
      record d {
        retention_constraints = d.retention_constraints ++ (c ∷ []);
        retain = true;
        dispatch = if c == forward_pending then false else d.dispatch;
      },
      none,
    )

-- The loop of `RemoveConstraint`: the constraints that stay.
unfoldable pub without : ℕ → List ℕ → List ℕ
without c [] = []
without c (x ∷ xs) = if x == c then without c xs else x ∷ without c xs

unfoldable pub holds : ℕ → List ℕ → Bool
holds c [] = false
holds c (x ∷ xs) = x == c || holds c xs

abbrev pub is_empty : List ℕ → Bool
is_empty [] = true
is_empty (x ∷ xs) = false

-- `if !bd.retain && bd.shouldDelete { _ = bd.unsafeDelete() }`
unfoldable pub delete_if_due : Descriptor → Descriptor
unfolding unsafe_delete
delete_if_due d = if not d.retain && d.should_delete then (unsafe_delete d).0 else d

unfoldable pub remove_constraint : ℕ → Descriptor → Outcome
unfolding without holds delete_if_due
remove_constraint c d =
    let left = without c d.retention_constraints in
    if d.deleted then (d, some bundle_deleted) else (
      delete_if_due (record d {
        retention_constraints = left;
        retain = not (is_empty left);
        dispatch = not (holds forward_pending left);
      }),
      none,
    )

unfoldable pub reset_constraints : Descriptor → Outcome
unfolding delete_if_due
reset_constraints d = if d.deleted then (d, some bundle_deleted) else (
  delete_if_due (record d { retention_constraints = []; retain = false; dispatch = true }),
  none,
)

unfoldable pub has_constraint : ℕ → Descriptor → Option Bool
has_constraint c d = if d.deleted then none else some (holds c d.retention_constraints)

-- `Delete(markIfConstraint)`
unfoldable pub delete : Bool → Descriptor → Outcome
unfolding unsafe_delete
delete mark d =
    if is_empty d.retention_constraints
    then unsafe_delete d
    else if mark
    then (record d { should_delete = true }, none)
    else (d, some (has_constraints d.retention_constraints))

-- The methods `Dispatch` and `Retain`.
unfoldable pub may_dispatch : Descriptor → Bool
may_dispatch d = d.dispatch && not d.deleted

unfoldable pub is_retained : Descriptor → Bool
is_retained d = d.retain && not d.deleted

unfoldable pub get_known_holders : Descriptor → Option (List EndpointId)
get_known_holders d = if d.deleted then none else some d.metadata.known_holders

-- That the metadata cannot be written to the database is logged and not returned.
unfoldable pub add_known_holder : List EndpointId → Descriptor → Outcome
add_known_holder peers d = if d.deleted then (d, some bundle_deleted) else (
  record d { metadata = record d.metadata { known_holders = d.metadata.known_holders ++ peers } },
  none,
)

unfoldable pub lookup : List ℕ → List (List ℕ × ℕ) → Option ℕ
lookup k [] = none
lookup k ((k', v) ∷ kvs) = if bytes_equal k k' then some v else lookup k kvs

unfoldable pub get_misc_data : List ℕ → Descriptor → Option ℕ
unfolding lookup
get_misc_data k d = lookup k d.metadata.miscellaneous_data

-- The newest value of a key stands first. The error of the database is left out.
unfoldable pub set_misc_data : List ℕ → ℕ → Descriptor → Descriptor
set_misc_data k v d = record d {
  metadata = record d.metadata { miscellaneous_data = (k, v) ∷ d.metadata.miscellaneous_data };
}

-- The methods that change a descriptor.
pub data Call : Type 0 where
  adding removing : ℕ → Call
  resetting : Call
  deleting : Bool → Call
  telling : List EndpointId → Call
  noting : List ℕ → ℕ → Call

unfoldable pub call : Call → Descriptor → Outcome
call (adding c) d = add_constraint c d
call (removing c) d = remove_constraint c d
call resetting d = reset_constraints d
call (deleting mark) d = delete mark d
call (telling peers) d = add_known_holder peers d
call (noting k v) d = (set_misc_data k v d, none)

-- What any sequence of calls, from whatever goroutines, makes of a new descriptor.
pub data Reachable : Descriptor → Type 0 where
  fresh : (m : Metadata) → Reachable (new_descriptor m)
  after : {d : Descriptor} → Reachable d → (c : Call) → Reachable ((call c d).0)
