-- ===== src/Store/Descriptor/Deletion.antt =====
-- When a bundle's deletion is started.
use dtn7_go.Base.{ℕ, ◌≡◌, refl, Bool, false, not, ◌&&◌, ◌||◌, arith, none}
use dtn7_go.Store.Descriptor.{
  Descriptor, Call, adding, removing, resetting, deleting, telling, noting, call, Reachable,
  unsafe_delete, add_constraint, without, is_empty, delete_if_due, remove_constraint,
  reset_constraints, delete, add_known_holder, is_retained,
}
use dtn7_go.Store.Descriptor.Invariant.{Reachable-IsMirrored}

-- A method that returns an error leaves the descriptor as it was.
pub call-error : (c : Call) (d : Descriptor) → ((call c d).1 ≡ none → ⊥) → (call c d).0 ≡ d
unfolding call add_constraint remove_constraint reset_constraints delete unsafe_delete
    add_known_holder
call-error (adding c) d h = ground (arith, h)
call-error (removing c) d h = ground (arith, h)
call-error resetting d h = ground (arith, h)
call-error (deleting mark) d h = ground (arith, h)
call-error (telling peers) d h = ground (arith, h)
call-error (noting k v) d h = absurd (h refl)

-- Of a bundle that is not deleted, the removal of a constraint starts the deletion just when the
-- bundle was marked for it and no other constraint is left. The removal succeeds and takes every
-- occurrence of the constraint.
pub remove_constraint-deletes :
    (c : ℕ) (d : Descriptor)
    → d.deleted ≡ false
    → ((remove_constraint c d).0.deleted
        ≡ (d.should_delete && is_empty (without c d.retention_constraints)))
      × ((remove_constraint c d).0.retention_constraints ≡ without c d.retention_constraints)
      × ((remove_constraint c d).1 ≡ none)
unfolding remove_constraint delete_if_due unsafe_delete
remove_constraint-deletes c d here =
    (ground (arith, here), ground (arith, here), ground (arith, here))

-- Of a bundle that is not deleted, and whose descriptor any calls have led to, `Delete` starts the
-- deletion just when the descriptor does not say that it is retained. If it does, the bundle is
-- marked if that was asked for; a mark is never taken back.
pub delete-deletes :
    (mark : Bool) (d : Descriptor)
    → Reachable d
    → d.deleted ≡ false
    → ((delete mark d).0.deleted ≡ not (is_retained d))
      × ((delete mark d).0.should_delete ≡ (d.should_delete || (mark && is_retained d)))
unfolding delete unsafe_delete is_retained
delete-deletes mark d r here =
    let m = Reachable-IsMirrored d r in
    (ground (arith, here, m.retains), ground (arith, here, m.retains, m.marked_is_held))
