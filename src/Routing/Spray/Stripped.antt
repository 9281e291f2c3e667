-- ===== src/Routing/Spray/Stripped.antt =====
-- A bundle without its spray block.
use dtn7_go.Base.{
  ℕ, suc, ◌+◌, ◌-◌, ◌≤◌, ◌≡◌, inl, inr, ◌∙◌, refl, sym, ap, List, [], ◌∷◌, ◌++◌, Bool, true, false,
  ◌==◌, some, All, Result, ok, then_ok, length, take, drop, get_elem?, arith, if◌then◌else◌,
  Bool-cases, Option-cases, le_or_lt, take_all, take-append_length, append_assoc, length-append,
  ==_refl,
}
use dtn7_go.Bpv7.Extension.{ExtensionBlock, block_type_code, block_type_binary_spray}
use dtn7_go.Bpv7.Canonical.{CanonicalBlock, has_type}
use dtn7_go.Bpv7.Bundle.{Bundle, block_numbers, among}
use dtn7_go.Bpv7.Bundle.Distinct.{numbers_differ}
use dtn7_go.Routing.Spray.{
  spray_positions, index_of, remove_in_place, remove_pointed, remove_spray_blocks,
  without_spray_blocks,
}

-- Blocks that were read or made: none is empty.
abbrev pub HasValue : CanonicalBlock → Type 0
HasValue cb = (v : ExtensionBlock) × (cb.value ≡ some v)

abbrev pub is_spray : CanonicalBlock → Bool
is_spray cb = has_type block_type_binary_spray cb

-- All blocks that are no spray blocks.
unfoldable pub other_blocks : List CanonicalBlock → List CanonicalBlock
other_blocks [] = []
other_blocks (cb ∷ cbs) = let rest = other_blocks cbs in if is_spray cb then rest else cb ∷ rest

unfoldable pub count_sprays : List CanonicalBlock → ℕ
count_sprays [] = 0
count_sprays (cb ∷ cbs) = (if is_spray cb then 1 else 0) + count_sprays cbs

no_sprays :
    (i : ℕ) (cbs : List CanonicalBlock)
    → All HasValue cbs
    → count_sprays cbs ≡ 0
    → (spray_positions i cbs ≡ ok []) × (other_blocks cbs ≡ cbs)
unfolding spray_positions other_blocks count_sprays has_type
no_sprays i [] vs h = (refl, refl)
no_sprays i (cb ∷ cbs) ((v, e), vs) h =
    elim (Bool-cases (block_type_code v == block_type_binary_spray)) [
      | inl spray ↦ absurd (ground (arith, h, e, spray))
      | inr other ↦
          let none_later : count_sprays cbs ≡ 0 = ground (arith, h, e, other) in
          let (positions, others) = no_sprays (suc i) cbs vs none_later in
          (ground (arith, e, other, positions), ground (arith, e, other, others))
    ]

index_of-among :
    (n k : ℕ) (cbs : List CanonicalBlock)
    → index_of n cbs ≡ some k
    → among n (block_numbers cbs) ≡ true
unfolding index_of among
index_of-among n k [] h = absurd (ground (arith, h))
index_of-among n k (cb ∷ cbs) h = elim (Bool-cases (cb.block_number == n)) [
  | inl here ↦ ground (arith, here)
  | inr later ↦ elim (Option-cases (index_of n cbs)) [
    | inl missing ↦ absurd (ground (arith, h, later, missing))
    | inr (j, found) ↦ ground (arith, index_of-among n j cbs found)
  ]
]

-- The one spray block of these, with what stands before it and behind it.
record HasOne (cbs : List CanonicalBlock) : Type 0 where
  before : List CanonicalBlock
  spray : CanonicalBlock
  behind : List CanonicalBlock
  parts : cbs ≡ before ++ (spray ∷ behind)
  index : index_of spray.block_number cbs ≡ some (length before)
  left_ones : other_blocks cbs ≡ before ++ behind
  positions : (i : ℕ) → spray_positions i cbs ≡ ok ((i + length before) ∷ [])

first-HasOne :
    (cb : CanonicalBlock) (cbs : List CanonicalBlock) (v : ExtensionBlock)
    → cb.value ≡ some v
    → (block_type_code v == block_type_binary_spray) ≡ true
    → All HasValue cbs
    → count_sprays cbs ≡ 0
    → HasOne (cb ∷ cbs)
unfolding spray_positions other_blocks index_of has_type
first-HasOne cb cbs v e spray vs h = record {
  before = [];
  spray = cb;
  behind = cbs;
  parts = refl;
  index = ground (arith, ==_refl cb.block_number);
  left_ones = ground (arith, e, spray, (no_sprays 0 cbs vs h).1);
  positions = λ i. ground (arith, e, spray, (no_sprays (suc i) cbs vs h).0);
}

later-HasOne :
    (cb : CanonicalBlock) (cbs : List CanonicalBlock) (v : ExtensionBlock)
    → cb.value ≡ some v
    → (block_type_code v == block_type_binary_spray) ≡ false
    → among cb.block_number (block_numbers cbs) ≡ false
    → HasOne cbs
    → HasOne (cb ∷ cbs)
unfolding spray_positions other_blocks index_of has_type
later-HasOne cb cbs v e other new one =
    let differ : (cb.block_number == one.spray.block_number) ≡ false =
      elim (Bool-cases (cb.block_number == one.spray.block_number)) [
        | inr differ ↦ differ
        | inl same ↦
            let there = index_of-among one.spray.block_number (length one.before) cbs one.index in
            let numbers : cb.block_number ≡ one.spray.block_number = ground (arith, same) in
            absurd (ground (arith, ap (λ (n : ℕ). among n (block_numbers cbs)) numbers, new, there))
      ] in
    record {
      before = cb ∷ one.before;
      spray = one.spray;
      behind = one.behind;
      parts = ap (◌∷◌ cb) one.parts;
      index = ground (arith, differ, one.index);
      left_ones = ground (arith, e, other, one.left_ones);
      positions = λ i.
          let later : suc i + length one.before ≡ i + suc (length one.before) = omega arith in
          ground (arith, e, other, one.positions (suc i), later);
    }

one_spray :
    (cbs : List CanonicalBlock)
    → All HasValue cbs
    → numbers_differ cbs ≡ true
    → count_sprays cbs ≡ 1
    → HasOne cbs
unfolding numbers_differ count_sprays has_type
one_spray [] vs d h = absurd (omega (arith, h))
one_spray (cb ∷ cbs) ((v, e), vs) d h =
    elim (Bool-cases (block_type_code v == block_type_binary_spray)) [
      | inl spray ↦ first-HasOne cb cbs v e spray vs (ground (arith, h, e, spray))
      | inr other ↦
          later-HasOne cb cbs v e other (ground (arith, d))
            (one_spray cbs vs (ground (arith, d)) (ground (arith, h, e, other)))
    ]

get_elem?-between :
    (xs ys : List CanonicalBlock) (x : CanonicalBlock)
    → get_elem? (xs ++ (x ∷ ys)) (length xs) ≡ some x
get_elem?-between [] ys x = refl
get_elem?-between (z ∷ xs) ys x = get_elem?-between xs ys x

drop-between :
    (xs ys : List CanonicalBlock) (x : CanonicalBlock)
    → drop (suc (length xs)) (xs ++ (x ∷ ys)) ≡ ys
drop-between [] ys x = refl
drop-between (z ∷ xs) ys x = drop-between xs ys x

-- What is left of the blocks when those at these places have been removed.
abbrev left_over : List CanonicalBlock → List ℕ → List CanonicalBlock
left_over cbs ps = let bs = remove_spray_blocks ps (cbs, length cbs) in take bs.1 bs.0

removed_between :
    (xs ys : List CanonicalBlock) (x : CanonicalBlock)
    → index_of x.block_number (xs ++ (x ∷ ys)) ≡ some (length xs)
    → left_over (xs ++ (x ∷ ys)) (length xs ∷ []) ≡ xs ++ ys
unfolding remove_spray_blocks remove_in_place
removed_between xs ys x h =
    let all = xs ++ (x ∷ ys) in
    let live : take (length all) all ≡ all = take_all (length all) all (omega arith) in
    let indexed : index_of x.block_number (take (length all) all) ≡ some (length xs) =
      ap (index_of x.block_number) live ∙ h in
    let kept : take (length xs) all ≡ xs = take-append_length (length xs) xs (x ∷ ys) refl in
    let moved : drop (suc (length xs)) (take (length all) all) ≡ ys =
      ap (drop (suc (length xs))) live ∙ drop-between xs ys x in
    let count : length (xs ++ ys) ≡ length all - 1 =
      omega (arith, length-append xs ys, length-append xs (x ∷ ys)) in
    let junk = drop (length all - 1) all in
    let removed : remove_in_place x.block_number (all, length all)
        ≡ (xs ++ (ys ++ junk), length all - 1) =
      rw (remove_in_place, indexed, kept, moved) refl in
    let pointed : remove_spray_blocks (length xs ∷ []) (all, length all)
        ≡ (xs ++ (ys ++ junk), length all - 1) =
      ap (λ o. remove_pointed o (all, length all)) (get_elem?-between xs ys x) ∙ removed in
    ap (λ (bs : List CanonicalBlock × ℕ). take bs.1 bs.0) pointed
    ∙ ap (take (length all - 1)) (sym (append_assoc xs ys junk))
    ∙ take-append_length (length all - 1) (xs ++ ys) junk count

one_removed :
    (cbs : List CanonicalBlock) (one : HasOne cbs)
    → left_over cbs (length one.before ∷ []) ≡ other_blocks cbs
one_removed cbs one =
    let index = ap (index_of one.spray.block_number) (sym one.parts) ∙ one.index in
    ap (λ l. left_over l (length one.before ∷ [])) one.parts
    ∙ removed_between one.before one.behind one.spray index
    ∙ sym one.left_ones

none_removed : (cbs : List CanonicalBlock) → left_over cbs [] ≡ cbs
unfolding remove_spray_blocks
none_removed cbs = take_all (length cbs) cbs (omega arith)

-- Of a bundle with one spray block at most, whose blocks all have values and different numbers, all
-- other extension blocks are left, in their order.
pub without_spray_blocks-others :
    (b : Bundle)
    → All HasValue b.extension_blocks
    → numbers_differ b.extension_blocks ≡ true
    → count_sprays b.extension_blocks ≤ 1
    → without_spray_blocks b ≡ ok (record b { extension_blocks = other_blocks b.extension_blocks })
unfolding without_spray_blocks
without_spray_blocks-others b vs d few =
    let cbs = b.extension_blocks in
    let rest : Result (List ℕ) → Result Bundle =
      λ r. then_ok r λ ps. ok (record b { extension_blocks = left_over cbs ps }) in
    let with_blocks : List CanonicalBlock → Result Bundle =
      λ l. ok (record b { extension_blocks = l }) in
    elim (le_or_lt 1 (count_sprays cbs)) [
      | inl some_spray ↦
          let one = one_spray cbs vs d (omega (arith, few, some_spray)) in
          let zeroth : 0 + length one.before ≡ length one.before = omega arith in
          ap rest (one.positions 0 ∙ ap (λ (k : ℕ). ok (k ∷ [])) zeroth)
          ∙ ap with_blocks (one_removed cbs one)
      | inr none_there ↦
          let (positions, others) = no_sprays 0 cbs vs (omega (arith, none_there)) in
          ap rest positions ∙ ap with_blocks (none_removed cbs ∙ sym others)
    ]
