-- ===== src/Base/Lookup.antt =====
-- What is looked up in a map that has been changed.
use mathlib.Core.Path.{◌≡◌, ◌∙◌, refl, sym, ap, subst}
use mathlib.Core.Logic.{◌≢◌, ◌↔◌, ite, if_pos, if_neg, ◌⊎◌, inl, inr}
use mathlib.Core.Bool.{Bool, true, false}
use mathlib.Core.List.{List, [], ◌∷◌, Memᴰ}
use mathlib.Core.List.Memᴰ
use mathlib.Core.Option.{Option, none, some}
use native.Mathlib.Omega.{arith}
use Prim.Native.Nat.{suc, ◌≤◌}
use dtn7_go.Base.Tests.{Bool-cases}
use dtn7_go.Base.Lists.{length}
use dtn7_go.Base.Assoc.{get, set, remove, KeysDiffer, map_values, keep, keys, change, only_if}

pub some-injective {ℓ} : {A : Type ℓ} {a b : A} → Path (Option A) (some a) (some b) → a ≡ b
some-injective {A} {a} h = ap (λ (o : Option A). elim o [ none ↦ a | some x ↦ x ]) h

pub change-some {ℓ κ} :
    {A : Type ℓ} {B : Type κ} (f : A → B) (o : Option A) (b : B)
    → change f o ≡ some b
    → (a : A) × (o ≡ some a) × (f a ≡ b)
change-some f none b h = absurd (ground (arith, h))
change-some f (some a) b h = (a, refl, some-injective h)

module _ {K V : Type 0} (eq : Discrete K) where
  pub get-set :
      (k u : K) (v : V) (m : List (K × V))
      → get eq k (set eq u v m) ≡ ite (eq k u) (some v) (get eq k m)
  unfolding get set
  get-set k u v [] = refl
  get-set k u v ((w, x) ∷ m) = ground (arith, get-set k u v m)

  pub get-remove :
      (k u : K) (m : List (K × V)) → get eq k (remove eq u m) ≡ ite (eq k u) none (get eq k m)
  unfolding get remove
  get-remove k u [] = ground arith
  get-remove k u ((w, x) ∷ m) = ground (arith, get-remove k u m)

  pub get-map_values :
      {W : Type 0} (f : V → W) (k : K) (m : List (K × V))
      → get eq k (map_values f m) ≡ change f (get eq k m)
  unfolding get
  get-map_values f k [] = refl
  get-map_values f k ((u, x) ∷ m) = ground (arith, get-map_values f k m)

  set_aside :
      (k u : K) (v : V) (m : List (K × V))
      → k ≢ u
      → get eq k m ≡ none
      → get eq k (set eq u v m) ≡ none
  set_aside k u v m differ h = ground (arith, get-set k u v m, differ, h)

  pub set-KeysDiffer :
      (k : K) (v : V) (m : List (K × V)) → KeysDiffer eq m → KeysDiffer eq (set eq k v m)
  unfolding set get
  set-KeysDiffer k v [] d = (refl, tt)
  set-KeysDiffer k v ((u, x) ∷ m) (free, d) = elim (eq k u) [
    | yes same ↦
        subst (KeysDiffer eq) (sym (if_pos (eq k u) same ((k, v) ∷ m) ((u, x) ∷ set eq k v m)))
          (ap (λ (w : K). get eq w m) same ∙ free, d)
    | no differ ↦
        subst (KeysDiffer eq) (sym (if_neg (eq k u) differ ((k, v) ∷ m) ((u, x) ∷ set eq k v m)))
          (set_aside u k v m (λ h. differ (sym h)) free, set-KeysDiffer k v m d)
  ]

  remove_aside : (k u : K) (m : List (K × V)) → get eq k m ≡ none → get eq k (remove eq u m) ≡ none
  remove_aside k u m h = ground (arith, get-remove k u m, h)

  pub remove-KeysDiffer :
      (k : K) (m : List (K × V)) → KeysDiffer eq m → KeysDiffer eq (remove eq k m)
  unfolding remove
  remove-KeysDiffer k [] d = tt
  remove-KeysDiffer k ((u, x) ∷ m) (free, d) = elim (eq k u) [
    | yes same ↦
        subst (KeysDiffer eq) (sym (if_pos (eq k u) same (remove eq k m) ((u, x) ∷ remove eq k m)))
          (remove-KeysDiffer k m d)
    | no differ ↦
        subst (KeysDiffer eq)
          (sym (if_neg (eq k u) differ (remove eq k m) ((u, x) ∷ remove eq k m)))
          (remove_aside u k m free, remove-KeysDiffer k m d)
  ]

  pub map_values-KeysDiffer :
      {W : Type 0} (f : V → W) (m : List (K × V)) → KeysDiffer eq m → KeysDiffer eq (map_values f m)
  map_values-KeysDiffer f [] d = tt
  map_values-KeysDiffer f ((u, x) ∷ m) (free, d) =
      (get-map_values f u m ∙ ap (change f) free, map_values-KeysDiffer f m d)

  keep-step :
      (p : K → V → Bool) (u : K) (x : V) (m : List (K × V))
      → ((p u x ≡ true) × (keep p ((u, x) ∷ m) ≡ (u, x) ∷ keep p m))
        ⊎ ((p u x ≡ false) × (keep p ((u, x) ∷ m) ≡ keep p m))
  keep-step p u x m = elim (Bool-cases (p u x)) [
    | inl h ↦ inl (h, rw (keep, h) refl)
    | inr h ↦ inr (h, rw (keep, h) refl)
  ]

  pub get-keep :
      (p : K → V → Bool) (k : K) (m : List (K × V))
      → KeysDiffer eq m
      → get eq k (keep p m) ≡ only_if (p k) (get eq k m)
  unfolding get
  get-keep p k [] d = refl
  get-keep p k ((u, x) ∷ m) (free, d) = elim (eq k u) [
    | yes same ↦ elim (keep-step p u x m) [
      | inl (h, e) ↦ ground (arith, h, e, same)
      | inr (h, e) ↦ ground (arith, h, e, same, free, get-keep p k m d)
    ]
    | no differ ↦ elim (keep-step p u x m) [
      | inl (h, e) ↦ ground (arith, h, e, differ, get-keep p k m d)
      | inr (h, e) ↦ ground (arith, h, e, differ, get-keep p k m d)
    ]
  ]

  pub keep-KeysDiffer :
      (p : K → V → Bool) (m : List (K × V)) → KeysDiffer eq m → KeysDiffer eq (keep p m)
  keep-KeysDiffer p [] d = tt
  keep-KeysDiffer p ((u, x) ∷ m) (free, d) = elim (keep-step p u x m) [
    | inl (h, e) ↦
        subst (KeysDiffer eq) (sym e)
          (get-keep p u m d ∙ ap (only_if (p u)) free, keep-KeysDiffer p m d)
    | inr (h, e) ↦ subst (KeysDiffer eq) (sym e) (keep-KeysDiffer p m d)
  ]

  -- A key is listed just when it has an entry.
  pub keys-Mem : (k : K) (m : List (K × V)) → Memᴰ k (keys m) ↔ ¬ (get eq k m ≡ none)
  unfolding get
  keys-Mem k [] = (λ x. absurd (Memᴰ.not-nil x), λ h. absurd (h refl))
  keys-Mem k ((u, x) ∷ m) = elim (eq k u) [
    | yes same ↦ (λ _ h. absurd (ground (arith, h, same)), λ _. Memᴰ.head same)
    | no differ ↦
        let (to, from) = keys-Mem k m in
        (
          λ mem. elim (Memᴰ.cases_cons mem) [
            | inl same ↦ absurd (differ same)
            | inr mem' ↦ λ h. to mem' (ground (arith, h, differ))
          ],
          λ h. Memᴰ.tail (from λ h'. h (ground (arith, h', differ))),
        )
  ]

  -- What is found after an assignment was assigned or was there before.
  pub set-found :
      (k u : K) (v w : V) (m : List (K × V))
      → get eq k (set eq u v m) ≡ some w
      → ((k ≡ u) × (v ≡ w)) ⊎ (get eq k m ≡ some w)
  set-found k u v w m h = elim (eq k u) [
    | yes same ↦ inl (same, some-injective (ground (arith, get-set k u v m, h, same)))
    | no differ ↦ inr (ground (arith, get-set k u v m, h, differ))
  ]

  pub remove-found :
      (k u : K) (w : V) (m : List (K × V)) → get eq k (remove eq u m) ≡ some w → get eq k m ≡ some w
  remove-found k u w m h = elim (eq k u) [
    | yes same ↦ absurd (ground (arith, get-remove k u m, h, same))
    | no differ ↦ ground (arith, get-remove k u m, h, differ)
  ]

module _ {K V : Type 0} (eq : Discrete K) where
  pub remove-set :
      (k : K) (v : V) (m : List (K × V)) → get eq k m ≡ none → remove eq k (set eq k v m) ≡ m
  unfolding get set remove
  remove-set k v [] h = ground arith
  remove-set k v ((u, x) ∷ m) h = ground (arith, h, remove-set k v m)

  in_rest :
      (k u : K) (x : V) (m : List (K × V))
      → get eq k ((u, x) ∷ m) ≡ none
      → (k ≢ u) × (get eq k m ≡ none)
  unfolding get
  in_rest k u x m h = (λ same. absurd (ground (arith, h, same)), ground (arith, h))

  pub length-set :
      (k : K) (v : V) (m : List (K × V))
      → get eq k m ≡ none
      → length (set eq k v m) ≡ suc (length m)
  unfolding set
  length-set k v [] h = refl
  length-set k v ((u, x) ∷ m) h =
      let (differ, free) = in_rest k u x m h in ground (arith, differ, length-set k v m free)

  remove_free : (k : K) (m : List (K × V)) → get eq k m ≡ none → remove eq k m ≡ m
  unfolding remove
  remove_free k [] h = refl
  remove_free k ((u, x) ∷ m) h =
      let (differ, free) = in_rest k u x m h in ground (arith, differ, remove_free k m free)

  pub length-remove :
      (k : K) (m : List (K × V)) → KeysDiffer eq m → length m ≤ suc (length (remove eq k m))
  unfolding remove
  length-remove k [] d = omega arith
  length-remove k ((u, x) ∷ m) (free, d) = elim (eq k u) [
    | yes same ↦
        let here : get eq k m ≡ none = ap (λ (w : K). get eq w m) same ∙ free in
        ground (arith, same, remove_free k m here)
    | no differ ↦ ground (arith, differ, length-remove k m d)
  ]

  -- Deleting a key that has an entry leaves one entry less.
  pub length-remove_found :
      (k : K) (v : V) (m : List (K × V))
      → KeysDiffer eq m
      → get eq k m ≡ some v
      → suc (length (remove eq k m)) ≡ length m
  unfolding remove get
  length-remove_found k v [] d h = absurd (ground arith)
  length-remove_found k v ((u, x) ∷ m) (free, d) h = elim (eq k u) [
    | yes same ↦
        let here : get eq k m ≡ none = ap (λ (w : K). get eq w m) same ∙ free in
        ground (arith, same, remove_free k m here)
    | no differ ↦
        let rest : get eq k m ≡ some v = ground (arith, differ, h) in
        ground (arith, differ, length-remove_found k v m d rest)
  ]

pub length-map_values {ℓ κ ι} :
    {K : Type ℓ} {V : Type κ} {W : Type ι} (f : V → W) (m : List (K × V))
    → length (map_values f m) ≡ length m
length-map_values f [] = refl
length-map_values f ((k, v) ∷ m) = ap suc (length-map_values f m)
