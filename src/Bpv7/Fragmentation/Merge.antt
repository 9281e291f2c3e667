-- ===== src/Bpv7/Fragmentation/Merge.antt =====
-- What `mergeFragmentPayload` makes of fragments that `prepareReassembly` accepts.
use dtn7_go.Base.{
  ℕ, ◌+◌, ◌-◌, ◌≤◌, ◌<◌, ◌≡◌, ◌∙◌, refl, ap, List, [], ◌∷◌, ◌++◌, length, take, drop, All, arith,
  ok, panic, drop-take, drop-drop, take_add, take_all, Result-cases, inl, inr, le_or_lt,
}
use dtn7_go.Bpv7.Bundle.{Bundle}
use dtn7_go.Bpv7.Fragmentation.{payload_data, last_index, prepare_sorted, merge_fragment_payload}

abbrev pub offset_of : Bundle → ℕ
offset_of b = b.primary_block.fragment_offset

unfoldable pub data_length : Bundle → ℕ
data_length b = elim (payload_data b) [ ok bytes ↦ length bytes | _ ↦ 0 ]

-- No fragment ends before the one in front of it.
abbrev pub EndsGrow : ℕ → List Bundle → Type 0
EndsGrow last [] = Unit {0}
EndsGrow last (b ∷ bs) =
    (last ≤ offset_of b + data_length b) × EndsGrow (offset_of b + data_length b) bs

-- The bundle carries the bytes of a payload that start at its offset.
abbrev pub IsPiece : List ℕ → Bundle → Type 0
IsPiece whole b =
    (payload_data b ≡ ok (take (data_length b) (drop (offset_of b) whole)))
    × (offset_of b + data_length b ≤ length whole)

-- One step of the loop that goes through.
last_index-step :
    (last end : ℕ) (b : Bundle) (bs : List Bundle)
    → last_index last (b ∷ bs) ≡ ok end
    → (offset_of b ≤ last)
      × (last_index (offset_of b + data_length b) bs ≡ ok end)
      × ((bytes : List ℕ) × (payload_data b ≡ ok bytes) × (data_length b ≡ length bytes))
unfolding last_index data_length
last_index-step last end b bs h = elim (Result-cases (payload_data b)) [
  | inl (bytes, e) ↦ (ground (arith, h), ground (arith, h, e), (bytes, e, ground (arith, e)))
  | inr (inl (x, e)) ↦ absurd (ground (arith, h, e))
  | inr (inr e) ↦ absurd (ground (arith, h, e))
]

joined :
    (whole : List ℕ) (last off len end : ℕ)
    → off ≤ last
    → last ≤ off + len
    → off + len ≤ end
    → drop (last - off) (take len (drop off whole))
        ++ take (end - (off + len)) (drop (off + len) whole)
      ≡ take (end - last) (drop last whole)
joined whole last off len end h1 h2 h3 =
    let e1 = drop-take (last - off) len (drop off whole) in
    let e2 = drop-drop (last - off) off whole in
    let e3 = take_add (len - (last - off)) (end - (off + len)) (drop last whole) in
    let e4 = drop-drop (len - (last - off)) last whole in
    let n1 : off + (last - off) ≡ last = omega (arith, h1) in
    let n2 : last + (len - (last - off)) ≡ off + len = omega (arith, h1, h2) in
    let n3 : len - (last - off) + (end - (off + len)) ≡ end - last = omega (arith, h1, h2, h3) in cc

-- The loop goes on behind a fragment that starts no later, and ends no earlier, than the last did.
merge-step :
    (last : ℕ) (b : Bundle) (bs : List Bundle) (bytes more : List ℕ)
    → payload_data b ≡ ok bytes
    → offset_of b ≤ last
    → last ≤ offset_of b + data_length b
    → merge_fragment_payload (offset_of b + data_length b) bs ≡ ok more
    → merge_fragment_payload last (b ∷ bs) ≡ ok (drop (last - offset_of b) bytes ++ more)
unfolding merge_fragment_payload data_length
merge-step last b bs bytes more e low high rest = ground (arith, e, low, high, rest)

merge-panic :
    (last : ℕ) (b : Bundle) (bs : List Bundle) (bytes : List ℕ)
    → payload_data b ≡ ok bytes
    → offset_of b + data_length b < last
    → merge_fragment_payload last (b ∷ bs) ≡ panic
unfolding merge_fragment_payload data_length
merge-panic last b bs bytes e short = ground (arith, e, short)

merge-rest_panic :
    (last : ℕ) (b : Bundle) (bs : List Bundle) (bytes : List ℕ)
    → payload_data b ≡ ok bytes
    → merge_fragment_payload (offset_of b + data_length b) bs ≡ panic
    → merge_fragment_payload last (b ∷ bs) ≡ panic
unfolding merge_fragment_payload data_length
merge-rest_panic last b bs bytes e rest = ground (arith, e, rest)

last_index-grows :
    (bs : List Bundle) (last end : ℕ) → last_index last bs ≡ ok end → EndsGrow last bs → last ≤ end
unfolding last_index
last_index-grows [] last end h grow = ground (arith, h)
last_index-grows (b ∷ bs) last end h (high, grow) =
    let (low, rest, found) = last_index-step last end b bs h in
    omega (arith, high, last_index-grows bs _ end rest grow)

merge-pieces :
    (whole : List ℕ) (bs : List Bundle) (last end : ℕ)
    → last_index last bs ≡ ok end
    → EndsGrow last bs
    → All (IsPiece whole) bs
    → merge_fragment_payload last bs ≡ ok (take (end - last) (drop last whole))
unfolding last_index merge_fragment_payload
merge-pieces whole [] last end h grow pieces =
    let none_left : end - last ≡ 0 = ground (arith, h) in rw none_left refl
merge-pieces whole (b ∷ bs) last end h (high, grow) ((piece, inside), pieces) =
    let (low, rest, found) = last_index-step last end b bs h in
    merge-step last b bs _ _ piece low high (merge-pieces whole bs _ end rest grow pieces)
    ∙ ap ok (
        joined whole last (offset_of b) (data_length b) end low high
          (last_index-grows bs _ end rest grow))

-- If sorted fragments are accepted, are pieces of one payload, state its length as their total, and
-- none ends before the one in front of it, then merging them gives that payload.
pub merge-whole :
    (whole : List ℕ) (b : Bundle) (bs : List Bundle)
    → prepare_sorted (b ∷ bs) ≡ ok tt
    → b.primary_block.total_data_length ≡ length whole
    → EndsGrow 0 (b ∷ bs)
    → All (IsPiece whole) (b ∷ bs)
    → merge_fragment_payload 0 (b ∷ bs) ≡ ok whole
unfolding prepare_sorted
merge-whole whole b bs prepared total grow pieces = elim (Result-cases (last_index 0 (b ∷ bs))) [
  | inl (end, e) ↦
      let reached : end ≡ length whole = ground (arith, prepared, e, total) in
      merge-pieces whole (b ∷ bs) 0 end e grow pieces
      ∙ ap ok (take_all (end - 0) whole (omega (arith, reached)))
  | inr (inl (x, e)) ↦ absurd (ground (arith, prepared, e))
  | inr (inr e) ↦ absurd (ground (arith, prepared, e))
]

merge_ends :
    (bs : List Bundle) (last end : ℕ)
    → last_index last bs ≡ ok end
    → ¬ (EndsGrow last bs)
    → merge_fragment_payload last bs ≡ panic
merge_ends [] last end h shrink = absurd (shrink tt)
merge_ends (b ∷ bs) last end h shrink =
    let (low, rest, (bytes, e, n)) = last_index-step last end b bs h in
    elim (le_or_lt last (offset_of b + data_length b)) [
      | inl high ↦
          merge-rest_panic last b bs bytes e
            (merge_ends bs _ end rest (λ grow. shrink (high, grow)))
      | inr short ↦ merge-panic last b bs bytes e short
    ]

-- If sorted fragments are accepted but one of them ends before the one in front of it, then merging
-- them panics.
pub merge-panics :
    (bs : List Bundle)
    → prepare_sorted bs ≡ ok tt
    → ¬ (EndsGrow 0 bs)
    → merge_fragment_payload 0 bs ≡ panic
unfolding prepare_sorted
merge-panics [] prepared shrink = absurd (shrink tt)
merge-panics (b ∷ bs) prepared shrink = elim (Result-cases (last_index 0 (b ∷ bs))) [
  | inl (end, e) ↦ merge_ends (b ∷ bs) 0 end e shrink
  | inr (inl (x, e)) ↦ absurd (ground (arith, prepared, e))
  | inr (inr e) ↦ absurd (ground (arith, prepared, e))
]
