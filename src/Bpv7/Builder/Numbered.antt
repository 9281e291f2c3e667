-- ===== src/Bpv7/Builder/Numbered.antt =====
-- The numbers that a builder gives to its blocks.
use dtn7_go.Base.{
  ℕ, zero, suc, ◌+◌, ◌%◌, ◌^◌, ◌≡◌, ◌≢◌, refl, ◌∙◌, sym, ap, ◌⊎◌, inl, inr, List, [], ◌∷◌, ◌++◌,
  none, some, arith, length, length-append, append_assoc, Bool-cases, ◌==◌, All,
}
use dtn7_go.Bpv7.Extension.{ExtensionBlock, block_type_code, block_type_payload}
use dtn7_go.Bpv7.Canonical.{CanonicalBlock}
use dtn7_go.Bpv7.Bundle.{block_numbers}
use dtn7_go.Bpv7.Builder.{Builder, placed}

-- `n` numbers of 64 bits from `i` on.
abbrev pub count_up : ℕ → ℕ → List ℕ
count_up i zero = []
count_up i (suc n) = i % 2 ^ 64 ∷ count_up (i + 1) n

-- A block that has a value, of the payload's type or not.
abbrev pub IsPayload : CanonicalBlock → Type 0
IsPayload cb = (v : ExtensionBlock) × (cb.value ≡ some v) × (block_type_code v ≡ block_type_payload)

abbrev pub IsExtension : CanonicalBlock → Type 0
IsExtension cb =
    (v : ExtensionBlock) × (cb.value ≡ some v) × (block_type_code v ≢ block_type_payload)

-- The extension blocks are numbered from 2 on in the order in which they were added, the counter
-- holds the next number, and the payload block, if there is one, has the number 1. The first of the
-- extension blocks are those of `base`.
abbrev pub IsNumbered : List CanonicalBlock → Builder → Type 0
IsNumbered base b =
    (block_numbers b.canonicals ≡ count_up 2 (length b.canonicals))
    × (b.canonical_counter ≡ (2 + length b.canonicals) % 2 ^ 64)
    × All IsExtension b.canonicals
    × ((b.payload_block.value ≡ none)
        ⊎ (IsPayload b.payload_block × (b.payload_block.block_number ≡ 1)))
    × ((added : List CanonicalBlock) × (b.canonicals ≡ base ++ added))

count_up-suc : (i n : ℕ) → count_up i (suc n) ≡ count_up i n ++ ((i + n) % 2 ^ 64 ∷ [])
count_up-suc i zero = ground arith
count_up-suc i (suc n) =
    ap (◌∷◌ (i % 2 ^ 64)) (
      count_up-suc (i + 1) n
      ∙ ap (λ (k : ℕ). count_up (i + 1) n ++ (k % 2 ^ 64 ∷ [])) (omega arith))

block_numbers-append :
    (cbs : List CanonicalBlock) (cb : CanonicalBlock)
    → block_numbers (cbs ++ (cb ∷ [])) ≡ block_numbers cbs ++ (cb.block_number ∷ [])
block_numbers-append [] cb = refl
block_numbers-append (x ∷ xs) cb = ap (◌∷◌ x.block_number) (block_numbers-append xs cb)

All-append :
    (cbs : List CanonicalBlock) (cb : CanonicalBlock)
    → All IsExtension cbs
    → IsExtension cb
    → All IsExtension (cbs ++ (cb ∷ []))
All-append [] cb h x = (x, tt)
All-append (y ∷ ys) cb h x = (h.0, All-append ys cb h.1 x)

length-append_one :
    (cbs : List CanonicalBlock) (cb : CanonicalBlock) → length (cbs ++ (cb ∷ [])) ≡ suc (length cbs)
length-append_one cbs cb = omega (arith, length-append cbs (cb ∷ []))

numbers-append :
    (cbs : List CanonicalBlock) (cb : CanonicalBlock)
    → block_numbers cbs ≡ count_up 2 (length cbs)
    → cb.block_number ≡ (2 + length cbs) % 2 ^ 64
    → block_numbers (cbs ++ (cb ∷ [])) ≡ count_up 2 (length (cbs ++ (cb ∷ [])))
numbers-append cbs cb numbers next =
    block_numbers-append cbs cb
    ∙ ap (λ (l : List ℕ). l ++ (cb.block_number ∷ [])) numbers
    ∙ ap (λ (k : ℕ). count_up 2 (length cbs) ++ (k ∷ [])) next
    ∙ sym (count_up-suc 2 (length cbs))
    ∙ ap (count_up 2) (sym (length-append_one cbs cb))

module _ (base : List CanonicalBlock) where
  pub placed-IsNumbered :
      (v : ExtensionBlock) (cb : CanonicalBlock) (b : Builder)
      → cb.value ≡ some v
      → IsNumbered base b
      → IsNumbered base (placed (block_type_code v) cb b)
  placed-IsNumbered v cb b h (numbers, counter, types, pay, (added, grown)) =
      let cb' : CanonicalBlock = record cb { block_number = b.canonical_counter } in
      elim (Bool-cases (block_type_code v == block_type_payload)) [
        | inl p ↦
            rw p (numbers, counter, types, inr ((v, h, ground (arith, p)), refl), (added, grown))
        | inr p ↦ rw p (
          numbers-append b.canonicals cb' numbers counter,
          omega (arith, counter, length-append_one b.canonicals cb'),
          All-append b.canonicals cb' types (v, h, λ q. ground (arith, p, q)),
          pay,
          (
            added ++ (cb' ∷ []),
            ap (λ (l : List CanonicalBlock). l ++ (cb' ∷ [])) grown
                ∙ append_assoc base added (cb' ∷ []),
          ),
        )
      ]
