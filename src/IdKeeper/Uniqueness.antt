-- ===== src/IdKeeper/Uniqueness.antt =====
-- No two bundles that a node creates get the same ID.
use dtn7_go.Base.{
  ℕ, suc, ◌+◌, ◌≤◌, ◌<◌, ◌^◌, ◌≡◌, ◌≢◌, ◌∙◌, refl, sym, ap, List, [], ◌∷◌, ltb, Option, inl, inr,
  le_or_lt, none, some, length, All, All-map, arith, if◌then◌else◌, ite,
}
use dtn7_go.Bpv7.Bundle.{Bundle, BundleId, bundle_id}
use dtn7_go.IdKeeper.{
  IdTuple, IdTuple-discrete, new_id_tuple, IdKeeper, find, put, next_number, update, clean, Event,
  stamping, cleaning, run,
}

sequence_of : Bundle → ℕ
sequence_of b = b.primary_block.creation_timestamp.sequence_number

find-put :
    (t u : IdTuple) (n : ℕ) (idk : IdKeeper)
    → find t (put u n idk) ≡ ite (IdTuple-discrete t u) (some n) (find t idk)
unfolding find put
find-put t u n [] = refl
find-put t u n ((v, m) ∷ idk) = ground (arith, find-put t u n idk)

find-clean_early :
    (t : IdTuple) (threshold : ℕ) (idk : IdKeeper)
    → t.time < threshold
    → find t (clean threshold idk) ≡ none
unfolding find clean
find-clean_early t threshold [] h = refl
find-clean_early t threshold ((u, n) ∷ idk) h = ground (arith, find-clean_early t threshold idk h)

find-clean :
    (t : IdTuple) (threshold : ℕ) (idk : IdKeeper)
    → threshold ≤ t.time
    → find t (clean threshold idk) ≡ find t idk
unfolding find clean
find-clean t threshold [] h = refl
find-clean t threshold ((u, n) ∷ idk) h = ground (arith, find-clean t threshold idk h)

-- No bundle is stamped whose creation time lies before a threshold that was cleaned with.
abbrev pub InTime : ℕ → List Event → Type 0
InTime floor [] = Unit {0}
InTime floor (stamping b ∷ es) = (floor ≤ (new_id_tuple b).time) × InTime floor es
InTime floor (cleaning threshold ∷ es) =
    InTime (if ltb floor threshold then threshold else floor) es

-- No number wraps within `k` more bundles.
Bounded : ℕ → IdKeeper → Type 0
Bounded k idk = (t : IdTuple) (n : ℕ) → find t idk ≡ some n → n + k < 2 ^ 64

-- The bundle is newer than the floor and than all that the keeper knows of.
Above : ℕ → IdKeeper → Bundle → Type 0
Above floor idk b =
    (floor ≤ (new_id_tuple b).time)
    × ((n : ℕ) → find (new_id_tuple b) idk ≡ some n → n < sequence_of b)

next_number-bounded :
    (k : ℕ) (o : Option ℕ)
    → k < 2 ^ 64
    → ((m : ℕ) → o ≡ some m → m + suc k < 2 ^ 64)
    → next_number o + k < 2 ^ 64
unfolding next_number
next_number-bounded k none small bound = omega (arith, small)
next_number-bounded k (some m) small bound = let room = bound m refl in omega (arith, room)

next_number-above :
    (o : Option ℕ) (m : ℕ)
    → ((m : ℕ) → o ≡ some m → m + 1 < 2 ^ 64)
    → o ≡ some m
    → next_number o ≡ m + 1
unfolding next_number
next_number-above none m bound h = absurd (ground arith)
next_number-above (some n) m bound h = let room = bound n refl in ground (arith, room, h)

Bounded-clean : (k threshold : ℕ) (idk : IdKeeper) → Bounded k idk → Bounded k (clean threshold idk)
unfolding Bounded
Bounded-clean k threshold idk bound t n h = elim (le_or_lt threshold t.time) [
  | inl late ↦ bound t n (sym (find-clean t threshold idk late) ∙ h)
  | inr early ↦ absurd (ground (arith, find-clean_early t threshold idk early, h))
]

find-update :
    (t : IdTuple) (b : Bundle) (idk : IdKeeper)
    → find t ((update b idk).1)
      ≡ ite
          (IdTuple-discrete t (new_id_tuple b))
          (some (next_number (find (new_id_tuple b) idk)))
          (find t idk)
unfolding update
find-update t b idk = find-put t (new_id_tuple b) _ idk

find-updated :
    (t : IdTuple) (b : Bundle) (idk : IdKeeper)
    → t ≡ new_id_tuple b
    → find t ((update b idk).1) ≡ some (next_number (find (new_id_tuple b) idk))
find-updated t b idk e = ground (arith, find-update t b idk, e)

Bounded-put :
    (k : ℕ) (b : Bundle) (idk : IdKeeper)
    → k < 2 ^ 64
    → Bounded (suc k) idk
    → Bounded k ((update b idk).1)
unfolding Bounded
Bounded-put k b idk small bound t n h = ground (
  arith,
  find-update t b idk,
  next_number-bounded k (find (new_id_tuple b) idk) small (bound (new_id_tuple b)),
  bound t n,
  h,
)

Bounded-weaken : (k : ℕ) (idk : IdKeeper) → Bounded (suc k) idk → Bounded 1 idk
unfolding Bounded
Bounded-weaken k idk bound t n h = omega (arith, bound t n h)

Bounded-weaken_one : (k : ℕ) (idk : IdKeeper) → Bounded (suc k) idk → Bounded k idk
unfolding Bounded
Bounded-weaken_one k idk bound t n h = omega (arith, bound t n h)

Above-clean :
    (floor threshold : ℕ) (idk : IdKeeper) (o : Bundle)
    → Above (if ltb floor threshold then threshold else floor) (clean threshold idk) o
    → Above floor idk o
unfolding Above
Above-clean floor threshold idk o (late, above) = (
  ground (arith, late),
  λ n h. above n (find-clean (new_id_tuple o) threshold idk (ground (arith, late)) ∙ h),
)

Above-put :
    (floor : ℕ) (b o : Bundle) (idk : IdKeeper)
    → Bounded 1 idk
    → Above floor ((update b idk).1) o
    → Above floor idk o
unfolding Above Bounded
Above-put floor b o idk bound (late, above) = (
  late,
  λ n h. ground (
    arith,
    find-update (new_id_tuple o) b idk,
    next_number-above (find (new_id_tuple b) idk) n (bound (new_id_tuple b)),
    above n,
    above (n + 1),
    h,
  ),
)

update-Above :
    (floor : ℕ) (b : Bundle) (idk : IdKeeper)
    → Bounded 1 idk
    → floor ≤ (new_id_tuple b).time
    → Above floor idk ((update b idk).0)
unfolding Above Bounded update sequence_of new_id_tuple
update-Above floor b idk bound late =
    (late, λ n h. omega (arith, next_number-above _ n (bound (new_id_tuple b)) h))

run-Above :
    (es : List Event) (floor : ℕ) (idk : IdKeeper)
    → length es < 2 ^ 64
    → Bounded (length es) idk
    → InTime floor es
    → All (Above floor idk) (run es idk)
unfolding run
run-Above [] floor idk few bound in_time = tt
run-Above (stamping b ∷ es) floor idk few bound (late, in_time) =
    let one = Bounded-weaken (length es) idk bound in
    (
      update-Above floor b idk one late,
      All-map (λ o. Above-put floor b o idk one) (run es ((update b idk).1))
          (run-Above es floor _ (omega (arith, few))
            (Bounded-put (length es) b idk (omega (arith, few)) bound) in_time),
    )
run-Above (cleaning threshold ∷ es) floor idk few bound in_time =
    All-map (Above-clean floor threshold idk) (run es (clean threshold idk)) (
      run-Above es _ _ (omega (arith, few))
        (Bounded-clean (length es) threshold idk (Bounded-weaken_one (length es) idk bound))
        in_time)

-- All the bundles have different IDs.
abbrev pub IdsDiffer : List Bundle → Type 0
IdsDiffer [] = Unit {0}
IdsDiffer (b ∷ bs) = All (λ o. bundle_id b ≢ bundle_id o) bs × IdsDiffer bs

tuple_of_id : BundleId → IdTuple
tuple_of_id i = record { source = i.source_node; time = i.timestamp.dtn_time }

update-differs :
    (floor : ℕ) (b o : Bundle) (idk : IdKeeper)
    → Above floor ((update b idk).1) o
    → bundle_id ((update b idk).0) ≢ bundle_id o
unfolding Above bundle_id sequence_of update new_id_tuple tuple_of_id
update-differs floor b o idk (late, above) same =
    let n = next_number (find (new_id_tuple b) idk) in
    let numbers : n ≡ sequence_of o = ap (λ i. i.timestamp.sequence_number) same in
    let known = find-updated (new_id_tuple o) b idk (sym (ap tuple_of_id same)) in
    absurd (omega (arith, above n known, numbers))

run_differs :
    (es : List Event) (floor : ℕ) (idk : IdKeeper)
    → length es < 2 ^ 64
    → Bounded (length es) idk
    → InTime floor es
    → IdsDiffer (run es idk)
unfolding run
run_differs [] floor idk few bound in_time = tt
run_differs (stamping b ∷ es) floor idk few bound (late, in_time) =
    let bound' = Bounded-put (length es) b idk (omega (arith, few)) bound in
    (
      All-map (λ o. update-differs floor b o idk) (run es ((update b idk).1))
          (run-Above es floor _ (omega (arith, few)) bound' in_time),
      run_differs es floor _ (omega (arith, few)) bound' in_time,
    )
run_differs (cleaning threshold ∷ es) floor idk few bound in_time =
    run_differs es _ _ (omega (arith, few))
      (Bounded-clean (length es) threshold idk (Bounded-weaken_one (length es) idk bound)) in_time

-- Starting with an empty keeper, the bundles that are stamped in turn get pairwise different IDs,
-- whatever they are and however the keeper is cleaned in between, as long as no bundle is stamped
-- whose creation time lies before a threshold of an earlier cleaning, and fewer than 2 ^ 64 events
-- take place.
pub run-IdsDiffer : (es : List Event) → length es < 2 ^ 64 → InTime 0 es → IdsDiffer (run es [])
unfolding Bounded find
run-IdsDiffer es few in_time = run_differs es 0 [] few (λ t n h. absurd (ground arith)) in_time
