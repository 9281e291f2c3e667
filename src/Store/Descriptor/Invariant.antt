-- ===== src/Store/Descriptor/Invariant.antt =====
-- What holds of every descriptor: its flags mirror its constraints.
use dtn7_go.Base.{
  ℕ, ◌≡◌, refl, List, [], ◌∷◌, ◌++◌, Bool, true, false, not, ◌||◌, ◌==◌, arith, if◌then◌else◌,
}
use dtn7_go.Store.Descriptor.{
  Metadata, Descriptor, Call, adding, removing, resetting, deleting, telling, noting, call,
  Reachable, fresh, after, new_descriptor, forward_pending, unsafe_delete, add_constraint, holds,
  is_empty, delete_if_due, remove_constraint, reset_constraints, delete, add_known_holder,
  set_misc_data,
}

pub record IsMirrored (d : Descriptor) : Type 0 where
  pub retains : d.retain ≡ not (is_empty d.retention_constraints)
  pub dispatches : d.dispatch ≡ not (holds forward_pending d.retention_constraints)
  pub deleted_is_free : d.deleted ≡ true → is_empty d.retention_constraints ≡ true
  pub called_once : d.delete_calls ≡ (if d.deleted then 1 else 0)
  pub marked_is_held :
      d.should_delete ≡ true → d.deleted ≡ false → is_empty d.retention_constraints ≡ false

pub holds-append : (c x : ℕ) (xs : List ℕ) → holds c (xs ++ (x ∷ [])) ≡ (holds c xs || x == c)
unfolding holds
holds-append c x [] = ground arith
holds-append c x (y ∷ ys) = ground (arith, holds-append c x ys)

is_empty-append : (x : ℕ) (xs : List ℕ) → is_empty (xs ++ (x ∷ [])) ≡ false
is_empty-append x [] = refl
is_empty-append x (y ∷ ys) = refl

fresh-IsMirrored : (m : Metadata) → IsMirrored (new_descriptor m)
unfolding new_descriptor holds
fresh-IsMirrored m = record {
  retains = refl;
  dispatches = refl;
  deleted_is_free = λ h. absurd (ground arith);
  called_once = refl;
  marked_is_held = λ h. absurd (ground arith);
}

unsafe_delete-IsMirrored :
    (d : Descriptor)
    → IsMirrored d
    → is_empty d.retention_constraints ≡ true
    → IsMirrored ((unsafe_delete d).0)
unfolding unsafe_delete
unsafe_delete-IsMirrored d m free = record {
  retains = ground (arith, m.retains);
  dispatches = ground (arith, m.dispatches);
  deleted_is_free = λ _. ground (arith, free);
  called_once = ground (arith, m.called_once);
  marked_is_held = λ _ h. absurd (ground (arith, h));
}

remove_constraint-IsMirrored :
    (c : ℕ) (d : Descriptor) → IsMirrored d → IsMirrored ((remove_constraint c d).0)
unfolding remove_constraint delete_if_due unsafe_delete
remove_constraint-IsMirrored c d m = record {
  retains = ground (arith, m.retains);
  dispatches = ground (arith, m.dispatches);
  deleted_is_free = ground (arith, m.deleted_is_free);
  called_once = ground (arith, m.called_once);
  marked_is_held = ground (arith, m.marked_is_held);
}

reset_constraints-IsMirrored :
    (d : Descriptor) → IsMirrored d → IsMirrored ((reset_constraints d).0)
unfolding reset_constraints delete_if_due unsafe_delete holds
reset_constraints-IsMirrored d m = record {
  retains = ground (arith, m.retains);
  dispatches = ground (arith, m.dispatches);
  deleted_is_free = ground (arith, m.deleted_is_free);
  called_once = ground (arith, m.called_once);
  marked_is_held = ground (arith, m.marked_is_held);
}

add_constraint-IsMirrored :
    (c : ℕ) (d : Descriptor) → IsMirrored d → IsMirrored ((add_constraint c d).0)
unfolding add_constraint
add_constraint-IsMirrored c d m =
    let held = holds-append forward_pending c d.retention_constraints in
    let some_left = is_empty-append c d.retention_constraints in
    record {
      retains = ground (arith, m.retains, some_left);
      dispatches = ground (arith, m.dispatches, held);
      deleted_is_free = ground (arith, m.deleted_is_free);
      called_once = ground (arith, m.called_once);
      marked_is_held = ground (arith, m.marked_is_held, some_left);
    }

delete-IsMirrored : (mark : Bool) (d : Descriptor) → IsMirrored d → IsMirrored ((delete mark d).0)
unfolding delete unsafe_delete
delete-IsMirrored mark d m = record {
  retains = ground (arith, m.retains);
  dispatches = ground (arith, m.dispatches);
  deleted_is_free = ground (arith, m.deleted_is_free);
  called_once = ground (arith, m.called_once);
  marked_is_held = ground (arith, m.marked_is_held);
}

call-IsMirrored : (c : Call) (d : Descriptor) → IsMirrored d → IsMirrored ((call c d).0)
unfolding call add_known_holder set_misc_data
call-IsMirrored (adding c) d m = add_constraint-IsMirrored c d m
call-IsMirrored (removing c) d m = remove_constraint-IsMirrored c d m
call-IsMirrored resetting d m = reset_constraints-IsMirrored d m
call-IsMirrored (deleting mark) d m = delete-IsMirrored mark d m
call-IsMirrored (telling peers) d m = record {
  retains = ground (arith, m.retains);
  dispatches = ground (arith, m.dispatches);
  deleted_is_free = ground (arith, m.deleted_is_free);
  called_once = ground (arith, m.called_once);
  marked_is_held = ground (arith, m.marked_is_held);
}
call-IsMirrored (noting k v) d m = record {
  retains = m.retains;
  dispatches = m.dispatches;
  deleted_is_free = m.deleted_is_free;
  called_once = m.called_once;
  marked_is_held = m.marked_is_held;
}

-- Whatever calls were made since it was new, a descriptor says that its bundle is retained just when
-- it has constraints and that it may be dispatched just when none of them is that forwarding is
-- pending. A deleted one has no constraints, and its deletion was started once; no other was. One
-- that is marked for deletion and is not deleted has constraints.
pub Reachable-IsMirrored : (d : Descriptor) → Reachable d → IsMirrored d
Reachable-IsMirrored _ (fresh m) = fresh-IsMirrored m
Reachable-IsMirrored _ (after {d} r c) = call-IsMirrored c d (Reachable-IsMirrored d r)
