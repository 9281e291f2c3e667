-- ===== src/Cla/Manager/Joined.antt =====
-- What the lists hold when a CLA has been appended or has left.
use dtn7_go.Base.{
  ℕ, ◌+◌, ◌≤◌, ◌≡◌, refl, ap, List, [], ◌∷◌, ◌++◌, Bool, true, false, ◌&&◌, if◌then◌else◌, arith,
  bytes_equal, bytes_equal→eq, Bool-cases, inl, inr, some,
}
use dtn7_go.Cla.Manager.{Convergence, others, find_cla}
use dtn7_go.Cla.Manager.Addresses.{count_address, count_address-append, find_cla-others}

pub count_at :
    (a b : List ℕ) (cs : List Convergence)
    → bytes_equal a b ≡ true
    → count_address a cs ≡ count_address b cs
count_at a b cs h = ap (λ (x : List ℕ). count_address x cs) (bytes_equal→eq a b h)

joined :
    (adds : Bool) (a : List ℕ) (c : Convergence) (cs : List Convergence)
    → count_address a (if adds then cs ++ (c ∷ []) else cs)
      ≡ count_address a cs + (if adds && bytes_equal a c.address then 1 else 0)
joined true a c cs = count_address-append a cs c
joined false a c cs = omega arith

pub joined_once :
    (adds : Bool) (a : List ℕ) (c : Convergence) (cs : List Convergence)
    → count_address a cs ≤ 1
    → (adds ≡ true → count_address c.address cs ≡ 0)
    → count_address a (if adds then cs ++ (c ∷ []) else cs) ≤ 1
joined_once false a c cs once free = once
joined_once true a c cs once free = elim (Bool-cases (bytes_equal a c.address)) [
  | inl same ↦
      ground (arith, same, count_address-append a cs c, count_at a c.address cs same, free refl)
  | inr off ↦ ground (arith, off, count_address-append a cs c, once)
]

-- A CLA of another address that was pending still is.
pub still_pending :
    (b a : List ℕ) (cs : List Convergence) (x : Convergence)
    → find_cla b (others a cs) ≡ some x
    → (bytes_equal b a ≡ false) × (find_cla b cs ≡ some x)
still_pending b a cs x h =
    (ground (arith, h, find_cla-others b a cs), ground (arith, h, find_cla-others b a cs))

pub joined_free :
    (adds : Bool) (a : List ℕ) (c : Convergence) (cs : List Convergence)
    → bytes_equal a c.address ≡ false
    → count_address a cs ≡ 0
    → count_address a (if adds then cs ++ (c ∷ []) else cs) ≡ 0
joined_free adds a c cs off none_there = ground (arith, off, joined adds a c cs, none_there)

pub both_true : (a b : Bool) → (a && b) ≡ true → b ≡ true
both_true a b h = ground (arith, h)
