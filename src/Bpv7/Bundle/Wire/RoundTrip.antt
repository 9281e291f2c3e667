-- ===== src/Bpv7/Bundle/Wire/RoundTrip.antt =====
-- A bundle is read back, its CRCs included, from what was written for it.
use dtn7_go.Base.{
  ℕ, suc, ◌+◌, ◌-◌, ◌≤◌, ◌≡◌, ◌∙◌, refl, sym, ap, List, [], ◌∷◌, ◌++◌, Bool, true, Option, All,
  length, length-append, arith, Error, Result, ok, then_ok, wrap, wrap_step, if◌then◌else◌,
}
use dtn7_go.Cbor.{Libs}
use dtn7_go.Cbor.Laws.{CborLaws}
use dtn7_go.Bpv7.Primary.{PrimaryBlock, unmarshal_primary}
use dtn7_go.Bpv7.Primary.Fields.{PrimaryFits}
use dtn7_go.Bpv7.Primary.RoundTrip.{unmarshal-marshal_primary}
use dtn7_go.Bpv7.Extension.{BlockKind, block_type_payload}
use dtn7_go.Bpv7.Canonical.{CanonicalBlock, empty_block, has_type, unmarshal_canonical}
use dtn7_go.Bpv7.Canonical.RoundTrip.{CanonicalFits, unmarshal-marshal_canonical}
use dtn7_go.Bpv7.Bundle.{Bundle}
use dtn7_go.Bpv7.Bundle.Check.{check_valid}
use dtn7_go.Bpv7.Bundle.Check.Stripped.{stripped, check_valid-stripped}
use dtn7_go.Bpv7.Bundle.Wire.{
  Blocks, place, accepted, finish, marshal_bundle, read_blocks, parse_bundle,
}
use dtn7_go.Bpv7.Bundle.Wire.NoPayload.{read_blocks-break, blocks_from}
use dtn7_go.Bpv7.Bundle.Wire.Loop.{
  read_blocks-step, read_not_empty, IsExtension, BlocksRead, blocks_read,
}

-- All blocks can be read back, the extension blocks are none of them payload blocks, and the payload
-- block is one.
pub record BundleFits (lib : Libs) (known : ℕ → Option BlockKind) (b : Bundle) : Type 0 where
  pub primary_fits : PrimaryFits b.primary_block
  pub extensions_fit : All (IsExtension lib known) b.extension_blocks
  pub payload_fits : CanonicalFits lib known b.payload_block
  pub payload_type : has_type block_type_payload b.payload_block ≡ true

module _ (lib : Libs) (laws : CborLaws lib) (known : ℕ → Option BlockKind) where
  -- The rounds behind the extension blocks: the payload block, and the break.
  last_rounds :
      (fuel : ℕ) (exts : List CanonicalBlock) (p cb : CanonicalBlock) (v bs s : List ℕ)
      → has_type block_type_payload cb ≡ true
      → ((rest : List ℕ)
          → unmarshal_canonical lib known (bs ++ rest) ≡ ok (record cb { crc = v }, rest))
      → read_blocks lib known (2 + fuel) (exts, p) (bs ++ (lib.break_code ∷ s))
        ≡ ok (exts, record cb { crc = v })
  unfolding has_type
  last_rounds fuel exts p cb v bs s is_payload read =
      let cb' : CanonicalBlock = record cb { crc = v } in
      let placed : place cb' (exts, p) ≡ (exts, cb') =
        ap (λ (t : Bool). if t then (exts, cb') else (exts ++ (cb' ∷ []), p)) is_payload in
      let rounds : 2 + fuel ≡ suc (suc fuel) = omega arith in
      ap (λ (n : ℕ). read_blocks lib known n (exts, p) (bs ++ (lib.break_code ∷ s))) rounds
      ∙ read_blocks-step lib laws known (suc fuel) (exts, p) _ _ cb' (read _)
      ∙ read_blocks-break lib laws known fuel _ s
      ∙ ap ok placed

  accepted_again :
      (now : ℕ) (b b' : Bundle)
      → stripped b' ≡ stripped b
      → check_valid now b ≡ ok []
      → accepted (check_valid now b') b' ≡ ok b'
  accepted_again now b b' same valid =
      let again : check_valid now b' ≡ ok [] =
        sym (check_valid-stripped now b')
        ∙ ap (check_valid now) same
        ∙ check_valid-stripped now b
        ∙ valid in
      ap (λ (r : Result (List Error)). accepted r b') again

  parsed :
      (now : ℕ) (pb : PrimaryBlock) (pbs ebs wbs : List ℕ) (exts : List CanonicalBlock)
      (cb : CanonicalBlock) (n : ℕ)
      → ((rest : List ℕ) → unmarshal_primary lib (pbs ++ rest) ≡ ok (pb, rest))
      → ((fuel : ℕ)
          → (rest : List ℕ)
          → read_blocks lib known (n + fuel) ([], empty_block) (ebs ++ rest)
            ≡ read_blocks lib known fuel (exts, empty_block) rest)
      → n ≤ length ebs
      → ((fuel : ℕ)
          → read_blocks lib known (2 + fuel) (exts, empty_block) (wbs ++ (lib.break_code ∷ []))
            ≡ ok (exts, cb))
      → 1 ≤ length wbs
      → parse_bundle lib known now
          (lib.indefinite_array ∷ (pbs ++ (ebs ++ (wbs ++ (lib.break_code ∷ [])))))
        ≡ finish now pb (exts, cb)
  unfolding parse_bundle blocks_from
  parsed now pb pbs ebs wbs exts cb n read_pb loop enough last some_byte =
      let end : List ℕ = wbs ++ (lib.break_code ∷ []) in
      let tail : List ℕ = ebs ++ end in
      let spare : ℕ = suc (length tail) - n - 2 in
      let rounds : suc (length tail) ≡ n + (2 + spare) = omega (
        arith,
        length-append ebs end,
        length-append wbs (lib.break_code ∷ []),
        enough,
        some_byte,
      ) in
      let looped : read_blocks lib known (suc (length tail)) ([], empty_block) tail
          ≡ ok (exts, cb) =
        ap (λ (k : ℕ). read_blocks lib known k ([], empty_block) tail) rounds
        ∙ loop (2 + spare) end
        ∙ last spare in
      ap
        (λ r.
          then_ok r λ start.
            then_ok (wrap (unmarshal_primary lib) start.1) (blocks_from lib laws known now))
        (laws.expect lib.indefinite_array (pbs ++ tail))
      ∙ ap (λ r. then_ok r (blocks_from lib laws known now))
          (wrap_step (unmarshal_primary lib) (read_pb tail))
      ∙ ap (λ (r : Result Blocks). then_ok r (finish now pb)) looped

  -- A bundle that is valid at some time and whose blocks can be read back is written without an
  -- error. What was written is parsed at that time, by a node that knows its block types, to the
  -- same bundle with the CRCs that it keeps since it was written.
  pub parse-marshal_bundle :
      (now : ℕ) (b : Bundle)
      → BundleFits lib known b
      → check_valid now b ≡ ok []
      → (bs : List ℕ) × (b' : Bundle) × (marshal_bundle lib b ≡ ok (bs, b'))
        × (stripped b' ≡ stripped b)
        × (parse_bundle lib known now bs ≡ ok b')
  unfolding marshal_bundle BlocksRead
  parse-marshal_bundle now b fits valid =
      let (pbs, pv, p_written, p_read) =
        unmarshal-marshal_primary lib laws b.primary_block fits.primary_fits in
      let (ebs, exts, e_written, same, enough, loop) =
        blocks_read lib laws known b.extension_blocks fits.extensions_fit in
      let (wbs, wv, w_written, w_read) =
        unmarshal-marshal_canonical lib laws known b.payload_block fits.payload_fits in
      let pb : PrimaryBlock = record b.primary_block { crc = pv } in
      let cb : CanonicalBlock = record b.payload_block { crc = wv } in
      let b' : Bundle = record {
        primary_block = pb;
        extension_blocks = exts;
        payload_block = cb;
      } in
      let same' : stripped b' ≡ stripped b =
        ap (λ (l : List CanonicalBlock). record (stripped b) { extension_blocks = l }) same in
      (
        lib.indefinite_array ∷ (pbs ++ (ebs ++ (wbs ++ (lib.break_code ∷ [])))),
        b',
        rw (p_written, e_written, w_written) refl,
        same',
        parsed now pb pbs ebs wbs exts cb (length b.extension_blocks) p_read
              (λ fuel rest. loop fuel [] empty_block rest) enough
              (λ fuel.
                last_rounds fuel exts empty_block b.payload_block wv wbs [] fits.payload_type
                  w_read)
              (read_not_empty lib laws known wbs cb w_read)
            ∙ accepted_again now b b' same' valid,
      )
