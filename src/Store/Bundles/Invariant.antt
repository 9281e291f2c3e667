-- ===== src/Store/Bundles/Invariant.antt =====
-- What holds of a store at all times.
use dtn7_go.Base.{
  ℕ, suc, ◌+◌, ◌-◌, ◌≤◌, ◌≡◌, ◌∙◌, refl, sym, ap, subst, List, [], ◌∷◌, ◌++◌, Bool, false, not,
  ◌&&◌, Option, none, some, ite, arith, get, change-some, KeysDiffer, get-set, get-map_values,
  set-KeysDiffer, map_values-KeysDiffer, set-found, Option-cases, Bool-cases, inl, inr, if_pos,
}
use dtn7_go.Bpv7.Bundle.{BundleId}
use dtn7_go.Store.Descriptor.{
  Metadata, Descriptor, Call, adding, removing, resetting, deleting, telling, noting, call,
  Reachable, after, unsafe_delete, add_constraint, delete_if_due, remove_constraint,
  reset_constraints, delete, add_known_holder, set_misc_data, is_retained,
}
use dtn7_go.Store.Descriptor.Invariant.{Reachable-IsMirrored}
use dtn7_go.Store.Disk.{BundleId-discrete, Surroundings}
use dtn7_go.Store.Bundles.{
  BundleStore, is_expired, started, collect, collect_started, garbage_collect, put_descriptor,
}

-- How many goroutines are to delete a bundle.
unfoldable pub count : BundleId → List Metadata → ℕ
count i [] = 0
count i (m ∷ ms) = ite (BundleId-discrete i m.id) (suc (count i ms)) (count i ms)

abbrev pub calls : Option Descriptor → ℕ
calls none = 0
calls (some d) = d.delete_calls

abbrev Keyed : List (BundleId × Descriptor) → Type 0
Keyed m =
    (i : BundleId) (d : Descriptor)
    → get BundleId-discrete i m ≡ some d
    → (d.metadata.id ≡ i) × Reachable d

pub record IsSound {D : Type 0} (st : BundleStore D) : Type 0 where
  pub differ : KeysDiffer BundleId-discrete st.bundles
  pub keyed : Keyed st.bundles
  pub counted : (i : BundleId) → count i st.deletions ≡ calls (get BundleId-discrete i st.bundles)

call-id : (c : Call) (d : Descriptor) → (call c d).0.metadata.id ≡ d.metadata.id
unfolding call add_constraint remove_constraint reset_constraints delete unsafe_delete
    add_known_holder set_misc_data delete_if_due
call-id (adding c) d = ground arith
call-id (removing c) d = ground arith
call-id resetting d = ground arith
call-id (deleting mark) d = ground arith
call-id (telling peers) d = ground arith
call-id (noting k v) d = ground arith

call-calls : (c : Call) (d : Descriptor) → d.delete_calls ≤ (call c d).0.delete_calls
unfolding call add_constraint remove_constraint reset_constraints delete unsafe_delete
    add_known_holder set_misc_data delete_if_due
call-calls (adding c) d = ground arith
call-calls (removing c) d = ground arith
call-calls resetting d = ground arith
call-calls (deleting mark) d = ground arith
call-calls (telling peers) d = ground arith
call-calls (noting k v) d = ground arith

pub calls_once : (d : Descriptor) → Reachable d → d.delete_calls ≤ 1
calls_once d r = let m = Reachable-IsMirrored d r in ground (arith, m.called_once)

count-append : (i : BundleId) (ms ns : List Metadata) → count i (ms ++ ns) ≡ count i ms + count i ns
unfolding count
count-append i [] ns = omega arith
count-append i (m ∷ ms) ns = ground (arith, count-append i ms ns)

-- What a step that stays within the limits starts.
count-started :
    (i : BundleId) (d d' : Descriptor)
    → d.delete_calls ≤ d'.delete_calls
    → d'.delete_calls ≤ 1
    → count i (started d d')
      ≡ ite (BundleId-discrete i d.metadata.id) (d'.delete_calls - d.delete_calls) 0
unfolding count
count-started i d d' more once = ground (arith, more, once)

pub record Steps (d d' : Descriptor) : Type 0 where
  pub same_id : d'.metadata.id ≡ d.metadata.id
  pub more_calls : d.delete_calls ≤ d'.delete_calls
  pub reaches : Reachable d'

pub call-Steps : (c : Call) (d : Descriptor) → Reachable d → Steps d ((call c d).0)
call-Steps c d r = record {
  same_id = call-id c d;
  more_calls = call-calls c d;
  reaches = after r c;
}

collect-Steps : (now : ℕ) (d : Descriptor) → Reachable d → Steps d (collect now d)
unfolding collect call
collect-Steps now d r = elim (Bool-cases (is_expired now d && not (is_retained d))) [
  | inl h ↦ subst (Steps d) (rw (collect, h) refl) (call-Steps (deleting false) d r)
  | inr h ↦
      subst (Steps d) (rw (collect, h) refl)
        (record { same_id = refl; more_calls = omega arith; reaches = r })
]

module _ {D : Type 0} (env : Surroundings D) where
  pub put_descriptor-IsSound :
      (i : BundleId) (d d' : Descriptor) (row : Bool) (st : BundleStore D)
      → IsSound st
      → get BundleId-discrete i st.bundles ≡ some d
      → Steps d d'
      → IsSound (put_descriptor env i d d' row st)
  unfolding put_descriptor
  put_descriptor-IsSound i d d' row st sound here step =
      let (named, r₀) = sound.keyed i d here in
      record {
        differ = set-KeysDiffer BundleId-discrete i d' st.bundles sound.differ;
        keyed = λ j x h. elim (set-found BundleId-discrete j i d' x st.bundles h) [
          | inl (there, new) ↦ (
            ap (λ (y : Descriptor). y.metadata.id) (sym new) ∙ step.same_id ∙ named ∙ sym there,
            subst Reachable new step.reaches,
          )
          | inr old ↦ sound.keyed j x old
        ];
        counted = λ j. ground (
          arith,
          count-append j (started d d') st.deletions,
          count-started j d d' step.more_calls (calls_once d' step.reaches),
          sound.counted j,
          get-set BundleId-discrete j i d' st.bundles,
          named,
          here,
        );
      }

gained : ℕ → Option Descriptor → ℕ
gained now none = 0
gained now (some d) = (collect now d).delete_calls - d.delete_calls

Keyed-tail :
    (k : BundleId) (x : Descriptor) (m : List (BundleId × Descriptor))
    → get BundleId-discrete k m ≡ none
    → Keyed ((k, x) ∷ m)
    → Keyed m
unfolding get
Keyed-tail k x m free keyed i d h = keyed i d (elim (BundleId-discrete i k) [
  | yes same ↦
      absurd (ground (arith, ap (λ (j : BundleId). get BundleId-discrete j m) same, h, free))
  | no differ ↦ ground (arith, h, differ)
])

Keyed-head :
    (k : BundleId) (x : Descriptor) (m : List (BundleId × Descriptor))
    → Keyed ((k, x) ∷ m)
    → (x.metadata.id ≡ k) × Reachable x
unfolding get
Keyed-head k x m keyed =
    keyed k x (if_pos (BundleId-discrete k k) refl (some x) (get BundleId-discrete k m))

count-collect :
    (now : ℕ) (i : BundleId) (m : List (BundleId × Descriptor))
    → KeysDiffer BundleId-discrete m
    → Keyed m
    → count i (collect_started now m) ≡ gained now (get BundleId-discrete i m)
unfolding collect_started count gained get
count-collect now i [] differ keyed = refl
count-collect now i ((k, x) ∷ m) (free, differ) keyed =
    let (named, r) = Keyed-head k x m keyed in
    let step = collect-Steps now x r in
    let rest = count-collect now i m differ (Keyed-tail k x m free keyed) in
    elim (BundleId-discrete i k) [
      | yes same ↦ ground (
        arith,
        same,
        named,
        count-append i (started x (collect now x)) (collect_started now m),
        count-started i x (collect now x) step.more_calls (calls_once (collect now x) step.reaches),
        rest,
        ap (λ (j : BundleId). get BundleId-discrete j m) same,
        free,
      )
      | no off ↦ ground (
        arith,
        off,
        named,
        count-append i (started x (collect now x)) (collect_started now m),
        count-started i x (collect now x) step.more_calls (calls_once (collect now x) step.reaches),
        rest,
      )
    ]

pub garbage_collect-IsSound :
    {D : Type 0} (now : ℕ) (st : BundleStore D) → IsSound st → IsSound (garbage_collect now st)
unfolding garbage_collect gained
garbage_collect-IsSound now st sound = record {
  differ = map_values-KeysDiffer BundleId-discrete (collect now) st.bundles sound.differ;
  keyed = λ i x h.
      let (d, here, from) =
        change-some (collect now) (get BundleId-discrete i st.bundles) x
          (sym (get-map_values BundleId-discrete (collect now) i st.bundles) ∙ h) in
      let (named, r) = sound.keyed i d here in
      let step = collect-Steps now d r in
      (
        ap (λ (y : Descriptor). y.metadata.id) (sym from) ∙ step.same_id ∙ named,
        subst Reachable from step.reaches,
      );
  counted = λ i.
      let found = get-map_values BundleId-discrete (collect now) i st.bundles in
      let sum = count-append i (collect_started now st.bundles) st.deletions in
      let new = count-collect now i st.bundles sound.differ sound.keyed in
      elim (Option-cases (get BundleId-discrete i st.bundles)) [
        | inl gone ↦ ground (arith, found, sum, new, gone, sound.counted i)
        | inr (d, here) ↦
            let step = collect-Steps now d (sound.keyed i d here).1 in
            ground (arith, found, sum, new, here, sound.counted i, step.more_calls)
      ];
}
