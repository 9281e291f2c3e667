-- ===== src/Base/Assoc.antt =====
-- Go's maps as lists of entries, of which the first of a key counts, and what a lookup finds.
use mathlib.Core.Path.{◌≡◌}
use mathlib.Core.Logic.{ite}
use mathlib.Core.Bool.{Bool, true, false}
use mathlib.Core.List.{List, [], ◌∷◌}
use mathlib.Core.Option.{Option, none, some}

module _ {ℓ κ} {K : Type ℓ} {V : Type κ} (eq : Discrete K) where
  -- `v, ok := m[k]`
  unfoldable pub get : K → List (K × V) → Option V
  get k [] = none
  get k ((k', v) ∷ m) = ite (eq k k') (some v) (get k m)

  -- `m[k] = v`
  unfoldable pub set : K → V → List (K × V) → List (K × V)
  set k v [] = (k, v) ∷ []
  set k v ((k', v') ∷ m) = ite (eq k k') ((k, v) ∷ m) ((k', v') ∷ set k v m)

  -- `delete(m, k)`
  unfoldable pub remove : K → List (K × V) → List (K × V)
  remove k [] = []
  remove k ((k', v) ∷ m) = ite (eq k k') (remove k m) ((k', v) ∷ remove k m)

  -- No key has two entries.
  abbrev pub KeysDiffer : List (K × V) → Type (ℓ ⊔ κ)
  KeysDiffer [] = Unit {ℓ ⊔ κ}
  KeysDiffer ((k, v) ∷ m) = (get k m ≡ none) × KeysDiffer m

module _ {ℓ κ ι} {K : Type ℓ} {V : Type κ} {W : Type ι} where
  -- What a loop over the map that writes to the entry it stands at leaves.
  abbrev pub map_values : (V → W) → List (K × V) → List (K × W)
  map_values f [] = []
  map_values f ((k, v) ∷ m) = (k, f v) ∷ map_values f m

module _ {ℓ κ} {K : Type ℓ} {V : Type κ} where
  -- What a loop over the map that deletes the keys without `p` leaves.
  abbrev pub keep : (K → V → Bool) → List (K × V) → List (K × V)
  keep p [] = []
  keep p ((k, v) ∷ m) = let rest = keep p m in elim (p k v) [ true ↦ (k, v) ∷ rest | false ↦ rest ]

  abbrev pub keys : List (K × V) → List K
  keys [] = []
  keys ((k, v) ∷ m) = k ∷ keys m

abbrev pub change {ℓ κ} : {A : Type ℓ} {B : Type κ} → (A → B) → Option A → Option B
change f none = none
change f (some a) = some (f a)

-- An entry that a loop keeps or deletes.
abbrev pub only_if {ℓ} : {A : Type ℓ} → (A → Bool) → Option A → Option A
only_if p none = none
only_if p (some a) = elim (p a) [ true ↦ some a | false ↦ none ]
