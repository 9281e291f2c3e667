-- ===== src/Bpv7/Bundle/Numbers.antt =====
-- The block numbers that `AddExtensionBlock` gives, and what adding and removing keep.
use dtn7_go.Base.{
  ℕ, zero, suc, ◌+◌, ◌≤◌, ◌<◌, ◌≡◌, ◌≢◌, inl, inr, List, [], ◌∷◌, true, false, ◌==◌, leb, length,
  arith, if◌then◌else◌, Bool-cases,
}
use dtn7_go.Bpv7.Extension.{ExtensionBlock, block_type_code, block_type_payload}
use dtn7_go.Bpv7.Canonical.{CanonicalBlock}
use dtn7_go.Bpv7.Bundle.{among, free_number, block_numbers, new_block_number}

-- How many of the numbers are at least `n`: the tries that may still fail.
at_least : ℕ → List ℕ → ℕ
at_least n [] = 0
at_least n (m ∷ ms) = (if leb n m then 1 else 0) + at_least n ms

at_least-le-length : (n : ℕ) (ms : List ℕ) → at_least n ms ≤ length ms
unfolding at_least
at_least-le-length n [] = omega arith
at_least-le-length n (m ∷ ms) = ground (arith, at_least-le-length n ms)

at_least_next : (n : ℕ) (ms : List ℕ) → at_least (n + 1) ms ≤ at_least n ms
unfolding at_least
at_least_next n [] = omega arith
at_least_next n (m ∷ ms) = ground (arith, at_least_next n ms)

at_least-among : (n : ℕ) (ms : List ℕ) → among n ms ≡ true → at_least (n + 1) ms < at_least n ms
unfolding at_least among
at_least-among n [] h = absurd (ground arith)
at_least-among n (m ∷ ms) h = ground (arith, at_least_next n ms, at_least-among n ms)

-- With a try more than there are numbers from `n` on, the search ends at the least free number.
free_number_lem :
    (fuel n : ℕ) (ms : List ℕ)
    → at_least n ms < fuel
    → (among (free_number fuel n ms) ms ≡ false)
      × (n ≤ free_number fuel n ms)
      × (free_number fuel n ms ≤ n + at_least n ms)
unfolding free_number
free_number_lem zero n ms h = absurd (omega arith)
free_number_lem (suc fuel) n ms h = elim (Bool-cases (among n ms)) [
  | inl taken ↦
      let fewer = at_least-among n ms taken in
      let (free, low, high) = free_number_lem fuel (n + 1) ms (omega (arith, fewer)) in
      rw taken (free, omega (arith, low), omega (arith, high, fewer))
  | inr free ↦ rw free (free, omega arith, omega arith)
]

-- The number for a block that is added is one that no extension block has. It is 1 at least, 2 at least
-- if the block is no payload block, and at most 2 more than there are extension blocks.
pub new_block_number_lem :
    (value : ExtensionBlock) (cbs : List CanonicalBlock)
    → (among (new_block_number value cbs) (block_numbers cbs) ≡ false)
      × ((block_type_code value ≢ block_type_payload) → 2 ≤ new_block_number value cbs)
      × (1 ≤ new_block_number value cbs)
      × (new_block_number value cbs ≤ 2 + length (block_numbers cbs))
unfolding new_block_number
new_block_number_lem value cbs =
    let start : ℕ = if block_type_code value == block_type_payload then 1 else 2 in
    let numbers = block_numbers cbs in
    let bound = at_least-le-length start numbers in
    let (free, low, high) =
      free_number_lem (length numbers + 1) start numbers (omega (arith, bound)) in
    (free, λ other. ground (arith, low, other), ground (arith, low), ground (arith, high, bound))
