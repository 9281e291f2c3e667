-- ===== src/Bpv7/Bundle/Distinct.antt =====
-- The block numbers of a bundle stay distinct when blocks are sorted, added and removed.
use dtn7_go.Base.{
  ℕ, ◌≡◌, ◌∙◌, refl, ap, List, [], ◌∷◌, ◌++◌, Bool, true, false, ◌||◌, ◌==◌, ◌&&◌, not, some, ok,
  arith, Bool-cases, inl, inr,
}
use dtn7_go.Bpv7.Extension.{ExtensionBlock}
use dtn7_go.Bpv7.Canonical.{CanonicalBlock, less}
use dtn7_go.Bpv7.Bundle.{
  Bundle, among, block_numbers, new_block_number, insert_sorted, insert_all, remove_block_number,
  remove_extension_block, sort_extension_blocks, add_extension_block,
}
use dtn7_go.Bpv7.Bundle.Numbers.{new_block_number_lem}

-- No two blocks have the same number.
unfoldable pub numbers_differ : List CanonicalBlock → Bool
numbers_differ [] = true
numbers_differ (cb ∷ cbs) = not (among cb.block_number (block_numbers cbs)) && numbers_differ cbs

among-insert_sorted :
    (n : ℕ) (b : CanonicalBlock) (cbs : List CanonicalBlock)
    → among n (block_numbers (insert_sorted b cbs))
      ≡ (n == b.block_number || among n (block_numbers cbs))
unfolding among insert_sorted
among-insert_sorted n b [] = refl
among-insert_sorted n b (x ∷ xs) = elim (Bool-cases (less b x)) [
  | inl h ↦ rw (insert_sorted, h) refl
  | inr h ↦ rw (insert_sorted, h) (ground (arith, among-insert_sorted n b xs))
]

insert_sorted_differ :
    (b : CanonicalBlock) (cbs : List CanonicalBlock)
    → among b.block_number (block_numbers cbs) ≡ false
    → numbers_differ cbs ≡ true
    → numbers_differ (insert_sorted b cbs) ≡ true
unfolding among numbers_differ insert_sorted
insert_sorted_differ b [] new d = refl
insert_sorted_differ b (x ∷ xs) new d = elim (Bool-cases (less b x)) [
  | inl h ↦ rw (insert_sorted, h) (ground (arith, new, d))
  | inr h ↦
      rw (insert_sorted, h)
        (ground (arith, new, d, insert_sorted_differ b xs, among-insert_sorted x.block_number b xs))
]

among-insert_all :
    (n : ℕ) (sorted cbs : List CanonicalBlock)
    → among n (block_numbers (insert_all sorted cbs))
      ≡ (among n (block_numbers sorted) || among n (block_numbers cbs))
unfolding among insert_all
among-insert_all n sorted [] = ground arith
among-insert_all n sorted (b ∷ bs) =
    ground (arith, among-insert_all n (insert_sorted b sorted) bs, among-insert_sorted n b sorted)

among-insert :
    (n : ℕ) (b : CanonicalBlock) (bs sorted : List CanonicalBlock)
    → among b.block_number (block_numbers bs) ≡ false
    → among n (block_numbers bs) ≡ true
    → among n (block_numbers sorted) ≡ false
    → among n (block_numbers (insert_sorted b sorted)) ≡ false
among-insert n b bs sorted fresh there new = elim (Bool-cases (n == b.block_number)) [
  | inl same ↦
      let e : n ≡ b.block_number = ground (arith, same) in
      absurd (ground (arith, ap (λ (m : ℕ). among m (block_numbers bs)) e, fresh, there))
  | inr other ↦ ground (arith, among-insert_sorted n b sorted, other, new)
]

insert_all_differ :
    (sorted cbs : List CanonicalBlock)
    → numbers_differ sorted ≡ true
    → numbers_differ cbs ≡ true
    → ((n : ℕ) → among n (block_numbers cbs) ≡ true → among n (block_numbers sorted) ≡ false)
    → numbers_differ (insert_all sorted cbs) ≡ true
unfolding among numbers_differ insert_all
insert_all_differ sorted [] ds dc apart = ds
insert_all_differ sorted (b ∷ bs) ds dc apart =
    let first : among b.block_number (block_numbers sorted) ≡ false =
      apart b.block_number (ground arith) in
    let fresh : among b.block_number (block_numbers bs) ≡ false = ground (arith, dc) in
    insert_all_differ (insert_sorted b sorted) bs (insert_sorted_differ b sorted first ds)
      (ground (arith, dc))
      (λ n there. among-insert n b bs sorted fresh there (apart n (ground (arith, there))))

among-append :
    (n : ℕ) (cbs : List CanonicalBlock) (b : CanonicalBlock)
    → among n (block_numbers (cbs ++ (b ∷ [])))
      ≡ (among n (block_numbers cbs) || n == b.block_number)
unfolding among
among-append n [] b = ground arith
among-append n (x ∷ xs) b = ground (arith, among-append n xs b)

append_differ :
    (cbs : List CanonicalBlock) (b : CanonicalBlock)
    → numbers_differ cbs ≡ true
    → among b.block_number (block_numbers cbs) ≡ false
    → numbers_differ (cbs ++ (b ∷ [])) ≡ true
unfolding among numbers_differ
append_differ [] b d new = refl
append_differ (x ∷ xs) b d new =
    ground (arith, d, new, append_differ xs b, among-append x.block_number xs b)

-- Adding a block that has a value succeeds. If the numbers of the extension blocks were distinct, they
-- still are; they are the old ones and that of the new block, which none of the old ones was. The
-- primary block and the payload block stay.
pub add_extension_block-differ :
    (cb : CanonicalBlock) (v : ExtensionBlock) (b : Bundle)
    → cb.value ≡ some v
    → numbers_differ b.extension_blocks ≡ true
    → (b' : Bundle) × (add_extension_block cb b ≡ ok b')
      × (numbers_differ b'.extension_blocks ≡ true)
      × ((n : ℕ)
          → among n (block_numbers b'.extension_blocks) ≡ (
              among n (block_numbers b.extension_blocks)
              || n == new_block_number v b.extension_blocks))
      × (among (new_block_number v b.extension_blocks) (block_numbers b.extension_blocks) ≡ false)
      × (b'.primary_block ≡ b.primary_block)
      × (b'.payload_block ≡ b.payload_block)
unfolding add_extension_block sort_extension_blocks numbers_differ among
add_extension_block-differ cb v b h d =
    let (new, _, _, _) = new_block_number_lem v b.extension_blocks in
    let numbered : CanonicalBlock = record cb {
      block_number = new_block_number v b.extension_blocks;
    } in
    let all : List CanonicalBlock = b.extension_blocks ++ (numbered ∷ []) in
    (
      record b { extension_blocks = insert_all [] all },
      rw h refl,
      insert_all_differ [] all refl (append_differ b.extension_blocks numbered d new) (λ n _. refl),
      λ n. among-insert_all n [] all ∙ among-append n b.extension_blocks numbered,
      new,
      refl,
      refl,
    )

among-remove_block_number :
    (n m : ℕ) (cbs : List CanonicalBlock)
    → numbers_differ cbs ≡ true
    → among m (block_numbers (remove_block_number n cbs))
      ≡ (among m (block_numbers cbs) && not (m == n))
unfolding among numbers_differ remove_block_number
among-remove_block_number n m [] d = refl
among-remove_block_number n m (x ∷ xs) d = elim (Bool-cases (m == x.block_number)) [
  | inl same ↦
      let e : m ≡ x.block_number = ground (arith, same) in
      let gone : among m (block_numbers xs) ≡ false =
        ap (λ (k : ℕ). among k (block_numbers xs)) e ∙ ground (arith, d) in
      ground (arith, d, e, gone, among-remove_block_number n m xs)
  | inr other ↦ ground (arith, d, other, among-remove_block_number n m xs)
]

remove_block_number_differ :
    (n : ℕ) (cbs : List CanonicalBlock)
    → numbers_differ cbs ≡ true
    → numbers_differ (remove_block_number n cbs) ≡ true
unfolding among numbers_differ remove_block_number
remove_block_number_differ n [] d = refl
remove_block_number_differ n (x ∷ xs) d =
    ground
      (arith, d, remove_block_number_differ n xs, among-remove_block_number n x.block_number xs)

-- If the numbers of the extension blocks were distinct, they still are when a block is removed by its
-- number. That number is gone, if it was there, and every other stays; so do the primary block and the
-- payload block.
pub remove_extension_block-differ :
    (n : ℕ) (b : Bundle)
    → numbers_differ b.extension_blocks ≡ true
    → (numbers_differ (remove_extension_block n b).extension_blocks ≡ true)
      × ((m : ℕ)
          → among m (block_numbers (remove_extension_block n b).extension_blocks)
            ≡ (among m (block_numbers b.extension_blocks) && not (m == n)))
      × ((remove_extension_block n b).primary_block ≡ b.primary_block)
      × ((remove_extension_block n b).payload_block ≡ b.payload_block)
unfolding remove_extension_block
remove_extension_block-differ n b d = (
  remove_block_number_differ n b.extension_blocks d,
  λ m. among-remove_block_number n m b.extension_blocks d,
  refl,
  refl,
)
