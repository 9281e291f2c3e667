-- ===== src/Bpv7/Bundle/Wire/Loop.antt =====
-- The loop of `UnmarshalCbor` over the blocks that `MarshalCbor` wrote.
use dtn7_go.Base.{
  ℕ, suc, ◌+◌, ◌≤◌, ◌≡◌, ◌∙◌, refl, ap, List, [], ◌∷◌, ◌++◌, append_assoc, append-nil, map, Bool,
  false, Option, All, length, length-append, arith, ok, if◌then◌else◌,
}
use dtn7_go.Cbor.{Libs}
use dtn7_go.Cbor.Laws.{CborLaws}
use dtn7_go.Bpv7.Extension.{BlockKind, block_type_payload}
use dtn7_go.Bpv7.Canonical.{CanonicalBlock, has_type, unmarshal_canonical}
use dtn7_go.Bpv7.Canonical.RoundTrip.{CanonicalFits, unmarshal-marshal_canonical}
use dtn7_go.Bpv7.Bundle.Check.Stripped.{stripped_block}
use dtn7_go.Bpv7.Bundle.Wire.{Blocks, place, marshal_blocks, read_blocks}
use dtn7_go.Bpv7.Bundle.Wire.NoPayload.{canonical-break}

-- A block that can be read back and is no payload block.
abbrev pub IsExtension : Libs → (ℕ → Option BlockKind) → CanonicalBlock → Type 0
IsExtension lib known cb = CanonicalFits lib known cb × (has_type block_type_payload cb ≡ false)

module _ (lib : Libs) (laws : CborLaws lib) (known : ℕ → Option BlockKind) where
  pub read_blocks-step :
      (fuel : ℕ) (bs : Blocks) (s s' : List ℕ) (cb : CanonicalBlock)
      → unmarshal_canonical lib known s ≡ ok (cb, s')
      → read_blocks lib known (suc fuel) bs s ≡ read_blocks lib known fuel (place cb bs) s'
  unfolding read_blocks
  read_blocks-step fuel bs s s' cb h = rw (read_blocks, h) refl

  -- What was read as a block was not empty: the break in its place would have ended the loop.
  pub read_not_empty :
      (bs : List ℕ) (cb : CanonicalBlock)
      → ((rest : List ℕ) → unmarshal_canonical lib known (bs ++ rest) ≡ ok (cb, rest))
      → 1 ≤ length bs
  read_not_empty [] cb read =
      absurd (ground (arith, read (lib.break_code ∷ []), canonical-break lib laws known []))
  read_not_empty (x ∷ bs) cb read = omega arith

  -- The blocks are written, and the loop takes a round for each to read them.
  unfoldable pub BlocksRead : List CanonicalBlock → Type 0
  BlocksRead cbs =
      (bytes : List ℕ) × (cbs' : List CanonicalBlock) × (marshal_blocks lib cbs ≡ ok (bytes, cbs'))
      × (map stripped_block cbs' ≡ map stripped_block cbs)
      × (length cbs ≤ length bytes)
      × ((fuel : ℕ) (exts : List CanonicalBlock) (p : CanonicalBlock) (rest : List ℕ)
          → read_blocks lib known (length cbs + fuel) (exts, p) (bytes ++ rest)
            ≡ read_blocks lib known fuel (exts ++ cbs', p) rest)

  next :
      (cb : CanonicalBlock) (v bs more : List ℕ) (cbs cbs' : List CanonicalBlock)
      → has_type block_type_payload cb ≡ false
      → ((rest : List ℕ)
          → unmarshal_canonical lib known (bs ++ rest) ≡ ok (record cb { crc = v }, rest))
      → ((fuel : ℕ) (exts : List CanonicalBlock) (p : CanonicalBlock) (rest : List ℕ)
          → read_blocks lib known (length cbs + fuel) (exts, p) (more ++ rest)
            ≡ read_blocks lib known fuel (exts ++ cbs', p) rest)
      → (fuel : ℕ) (exts : List CanonicalBlock) (p : CanonicalBlock) (rest : List ℕ)
      → read_blocks lib known (suc (length cbs) + fuel) (exts, p) ((bs ++ more) ++ rest)
        ≡ read_blocks lib known fuel (exts ++ (record cb { crc = v } ∷ cbs'), p) rest
  unfolding has_type
  next cb v bs more cbs cbs' other read loop fuel exts p rest =
      let cb' : CanonicalBlock = record cb { crc = v } in
      let rounds : suc (length cbs) + fuel ≡ suc (length cbs + fuel) = omega arith in
      let placed : place cb' (exts, p) ≡ (exts ++ (cb' ∷ []), p) =
        ap (λ (t : Bool). if t then (exts, cb') else (exts ++ (cb' ∷ []), p)) other in
      let joined : (exts ++ (cb' ∷ [])) ++ cbs' ≡ exts ++ (cb' ∷ cbs') =
        append_assoc exts (cb' ∷ []) cbs' in
      let split : (bs ++ more) ++ rest ≡ bs ++ (more ++ rest) = append_assoc bs more rest in
      ap (λ (s : List ℕ). read_blocks lib known (suc (length cbs) + fuel) (exts, p) s) split
      ∙ ap (λ (n : ℕ). read_blocks lib known n (exts, p) (bs ++ (more ++ rest))) rounds
      ∙ read_blocks-step (length cbs + fuel) (exts, p) _ (more ++ rest) cb' (read (more ++ rest))
      ∙ ap (λ (b : Blocks). read_blocks lib known (length cbs + fuel) b (more ++ rest)) placed
      ∙ loop fuel (exts ++ (cb' ∷ [])) p rest
      ∙ ap (λ (l : List CanonicalBlock). read_blocks lib known fuel (l, p) rest) joined

  pub blocks_read : (cbs : List CanonicalBlock) → All (IsExtension lib known) cbs → BlocksRead cbs
  unfolding BlocksRead marshal_blocks
  blocks_read [] fit = (
    [],
    [],
    refl,
    refl,
    omega arith,
    λ fuel exts p rest.
        rw (append-nil exts) (ap (λ (n : ℕ). read_blocks lib known n (exts, p) rest) (omega arith)),
  )
  blocks_read (cb ∷ cbs) ((fits, other), fit) =
      let (bs, v, written, read) = unmarshal-marshal_canonical lib laws known cb fits in
      let (more, cbs', written', same, enough, loop) = blocks_read cbs fit in
      (
        bs ++ more,
        record cb { crc = v } ∷ cbs',
        rw (written, written') refl,
        ap (λ (l : List CanonicalBlock). stripped_block cb ∷ l) same,
        omega (arith, enough, length-append bs more, read_not_empty bs _ read),
        λ fuel exts p rest. next cb v bs more cbs cbs' other read loop fuel exts p rest,
      )
