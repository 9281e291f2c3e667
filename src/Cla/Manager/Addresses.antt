-- ===== src/Cla/Manager/Addresses.antt =====
-- How many CLAs of a list have an address.
use dtn7_go.Base.{
  ℕ, suc, ◌+◌, ◌≤◌, ◌≡◌, refl, ap, List, [], ◌∷◌, ◌++◌, true, false, if◌then◌else◌, arith,
  bytes_equal, bytes_equal→eq, Bool-cases, ◌⊎◌, inl, inr, none, some, some-injective,
}
use dtn7_go.Cla.Manager.{Convergence, has_address, others, find_cla, drop_cla}

unfoldable pub count_address : List ℕ → List Convergence → ℕ
count_address a [] = 0
count_address a (c ∷ cs) =
    if bytes_equal a c.address then suc (count_address a cs) else count_address a cs

pub bytes_equal_swap : (a x y : List ℕ) → bytes_equal x y ≡ true → bytes_equal a x ≡ bytes_equal a y
bytes_equal_swap a x y h = ap (bytes_equal a) (bytes_equal→eq x y h)

pub count_address-append :
    (a : List ℕ) (cs : List Convergence) (c : Convergence)
    → count_address a (cs ++ (c ∷ []))
      ≡ count_address a cs + (if bytes_equal a c.address then 1 else 0)
unfolding count_address
count_address-append a [] c = ground arith
count_address-append a (x ∷ xs) c = ground (arith, count_address-append a xs c)

pub count_address-others :
    (a b : List ℕ) (cs : List Convergence)
    → count_address a (others b cs) ≡ (if bytes_equal a b then 0 else count_address a cs)
unfolding count_address others
count_address-others a b [] = ground arith
count_address-others a b (c ∷ cs) = elim (Bool-cases (bytes_equal b c.address)) [
  | inl same ↦
      ground (arith, same, bytes_equal_swap a b c.address same, count_address-others a b cs)
  | inr differ ↦ elim (Bool-cases (bytes_equal a b)) [
    | inl as_b ↦ ground (arith, differ, as_b, bytes_equal→eq a b as_b, count_address-others a b cs)
    | inr off ↦ ground (arith, differ, off, count_address-others a b cs)
  ]
]

pub has_address-count :
    (a : List ℕ) (cs : List Convergence) → has_address a cs ≡ false → count_address a cs ≡ 0
unfolding count_address has_address
has_address-count a [] h = refl
has_address-count a (c ∷ cs) h = ground (arith, h, has_address-count a cs)

pub others_all : (a : List ℕ) (cs : List Convergence) → count_address a cs ≡ 0 → others a cs ≡ cs
unfolding count_address others
others_all a [] h = refl
others_all a (c ∷ cs) h = ground (arith, h, others_all a cs)

-- Where an address occurs once, the first CLA that has it is the only one.
pub drop_cla-others :
    (a : List ℕ) (cs : List Convergence) → count_address a cs ≤ 1 → drop_cla a cs ≡ others a cs
unfolding count_address others drop_cla
drop_cla-others a [] h = refl
drop_cla-others a (c ∷ cs) h = elim (Bool-cases (bytes_equal a c.address)) [
  | inl same ↦ ground (arith, h, same, others_all a cs)
  | inr differ ↦ ground (arith, h, differ, drop_cla-others a cs)
]

pub find_cla-found :
    (a : List ℕ) (cs : List Convergence) (c : Convergence)
    → find_cla a cs ≡ some c
    → bytes_equal a c.address ≡ true
unfolding find_cla
find_cla-found a [] c h = absurd (ground (arith, h))
find_cla-found a (x ∷ xs) c h = ground (arith, h, find_cla-found a xs c)

pub find_cla-append :
    (a : List ℕ) (cs : List Convergence) (c x : Convergence)
    → find_cla a (cs ++ (c ∷ [])) ≡ some x
    → (find_cla a cs ≡ some x) ⊎ ((bytes_equal a c.address ≡ true) × (c ≡ x))
unfolding find_cla
find_cla-append a [] c x h = elim (Bool-cases (bytes_equal a c.address)) [
  | inl same ↦ inr (same, some-injective (ground (arith, h, same)))
  | inr differ ↦ absurd (ground (arith, h, differ))
]
find_cla-append a (y ∷ cs) c x h = elim (Bool-cases (bytes_equal a y.address)) [
  | inl same ↦ inl (ground (arith, h, same))
  | inr differ ↦ elim (find_cla-append a cs c x (ground (arith, h, differ))) [
    | inl there ↦ inl (ground (arith, there, differ))
    | inr new ↦ inr new
  ]
]

pub find_cla-others :
    (a b : List ℕ) (cs : List Convergence)
    → find_cla a (others b cs) ≡ (if bytes_equal a b then none else find_cla a cs)
unfolding find_cla others
find_cla-others a b [] = ground arith
find_cla-others a b (c ∷ cs) = elim (Bool-cases (bytes_equal b c.address)) [
  | inl same ↦ ground (arith, same, bytes_equal_swap a b c.address same, find_cla-others a b cs)
  | inr differ ↦ elim (Bool-cases (bytes_equal a b)) [
    | inl as_b ↦ ground (arith, differ, as_b, bytes_equal→eq a b as_b, find_cla-others a b cs)
    | inr off ↦ ground (arith, differ, off, find_cla-others a b cs)
  ]
]
