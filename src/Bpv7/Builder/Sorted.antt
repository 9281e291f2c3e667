-- ===== src/Bpv7/Builder/Sorted.antt =====
-- Sorting changes nothing of blocks that are numbered from 2 on.
use dtn7_go.Base.{
  ℕ, ◌+◌, ◌^◌, ◌≤◌, ◌<◌, ◌≡◌, refl, ◌∙◌, sym, ap, subst, List, [], ◌∷◌, ◌++◌, append-nil,
  append_assoc, arith, length, All,
}
use dtn7_go.Bpv7.Canonical.{CanonicalBlock, less}
use dtn7_go.Bpv7.Bundle.{block_numbers, insert_sorted, insert_all}
use dtn7_go.Bpv7.Builder.Numbered.{count_up}

-- The numbers lie from 2 on and below `n`.
abbrev Below : ℕ → List CanonicalBlock → Type 0
Below n = All λ cb. (2 ≤ cb.block_number) × (cb.block_number < n)

insert_sorted-last :
    (b : CanonicalBlock) (cbs : List CanonicalBlock)
    → Below b.block_number cbs
    → insert_sorted b cbs ≡ cbs ++ (b ∷ [])
unfolding insert_sorted less
insert_sorted-last b [] h = refl
insert_sorted-last b (x ∷ xs) h = ground (arith, h.0, insert_sorted-last b xs h.1)

Below-append :
    (n : ℕ) (cbs : List CanonicalBlock) (cb : CanonicalBlock)
    → Below n cbs
    → 2 ≤ n
    → cb.block_number ≡ n
    → Below (n + 1) (cbs ++ (cb ∷ []))
Below-append n [] cb h two e = ((omega arith, omega arith), tt)
Below-append n (x ∷ xs) cb h two e = ((h.0.0, omega (arith, h.0.1)), Below-append n xs cb h.1 two e)

pub insert_all-numbered :
    (sorted cbs : List CanonicalBlock) (i : ℕ)
    → 2 ≤ i
    → Below i sorted
    → block_numbers cbs ≡ count_up i (length cbs)
    → i + length cbs ≤ 2 ^ 64
    → insert_all sorted cbs ≡ sorted ++ cbs
unfolding insert_all
insert_all-numbered sorted [] i two below numbers fits = sym (append-nil sorted)
insert_all-numbered sorted (b ∷ bs) i two below numbers fits =
    let first : b.block_number ≡ i = ground (arith, numbers) in
    let rest : block_numbers bs ≡ count_up (i + 1) (length bs) = ground (arith, numbers) in
    let last : insert_sorted b sorted ≡ sorted ++ (b ∷ []) =
      insert_sorted-last b sorted (subst (λ (k : ℕ). Below k sorted) (sym first) below) in
    ap (λ (l : List CanonicalBlock). insert_all l bs) last
    ∙ insert_all-numbered (sorted ++ (b ∷ [])) bs (i + 1) (omega arith)
        (Below-append i sorted b below two first) rest (omega arith)
    ∙ append_assoc sorted (b ∷ []) bs
