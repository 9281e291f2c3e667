-- ===== src/Bpv7/Extension/Registry.antt =====
-- `ExtensionBlockManager`: which block types a manager can make, by their codes.
use dtn7_go.Base.{
  ℕ, ◌≡◌, refl, List, [], ◌∷◌, Bool, true, false, ◌==◌, ◌||◌, Option, none, some, if◌then◌else◌,
  arith, ==_refl, Option-cases, inl, inr,
}
use dtn7_go.Bpv7.Extension.{
  BlockKind, payload_kind, previous_node_kind, bundle_age_kind, hop_count_kind, kind_code,
}

-- `data map[uint64]reflect.Type`
abbrev pub ExtensionBlockManager : Type 0
ExtensionBlockManager = List (ℕ × BlockKind)

unfoldable pub known_kind : ExtensionBlockManager → ℕ → Option BlockKind
known_kind [] code = none
known_kind ((c, kind) ∷ m) code = if c == code then some kind else known_kind m code

abbrev is_some : Option BlockKind → Bool
is_some none = false
is_some (some kind) = true

unfoldable pub is_known : ExtensionBlockManager → ℕ → Bool
unfolding known_kind
is_known m code = is_some (known_kind m code)

-- `none` is the error that the code is registered already.
unfoldable pub register : ExtensionBlockManager → BlockKind → Option ExtensionBlockManager
unfolding is_known
register m kind = if is_known m (kind_code kind) then none else some ((kind_code kind, kind) ∷ m)

unfoldable pub unregister : ExtensionBlockManager → BlockKind → ExtensionBlockManager
unregister [] kind = []
unregister ((c, k) ∷ m) kind =
    if c == kind_code kind then unregister m kind else (c, k) ∷ unregister m kind

abbrev or_keep : ExtensionBlockManager → Option ExtensionBlockManager → ExtensionBlockManager
or_keep m none = m
or_keep m (some m') = m'

register_all : List BlockKind → ExtensionBlockManager → ExtensionBlockManager
unfolding register
register_all [] m = m
register_all (k ∷ ks) m = register_all ks (or_keep m (register m k))

-- `GetExtensionBlockManager`: a new manager, and four registrations whose errors are ignored.
unfoldable pub default_manager : ExtensionBlockManager
unfolding register_all
default_manager =
    register_all (payload_kind ∷ previous_node_kind ∷ bundle_age_kind ∷ hop_count_kind ∷ []) []

-- After a registration the code is known as its kind, every other code is as before, and the same
-- code cannot be registered again.
pub register_lem :
    (m m' : ExtensionBlockManager) (kind : BlockKind)
    → register m kind ≡ some m'
    → (known_kind m (kind_code kind) ≡ none)
      × ((code : ℕ)
          → known_kind m' code ≡ (if kind_code kind == code then some kind else known_kind m code))
      × ((other : BlockKind) → kind_code other ≡ kind_code kind → register m' other ≡ none)
unfolding register
register_lem m m' kind h = elim (Option-cases (known_kind m (kind_code kind))) [
  | inl fresh ↦
      let grown : (kind_code kind, kind) ∷ m ≡ m' = ground (arith, fresh) in
      (
        fresh,
        λ code. rw (← grown) (unfold known_kind in refl),
        λ other same. rw (← grown, same) (unfold known_kind in rw (==_refl (kind_code kind))),
      )
  | inr (k, taken) ↦ absurd (ground (arith, taken))
]

-- The default manager knows payload, previous node, bundle age and hop count blocks, and no other
-- code.
pub default_manager_lem :
    (code : ℕ) → is_known default_manager code ≡ (code == 1 || code == 6 || code == 7 || code == 10)
unfolding default_manager
default_manager_lem code = ground arith
