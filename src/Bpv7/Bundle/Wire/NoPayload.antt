-- ===== src/Bpv7/Bundle/Wire/NoPayload.antt =====
-- A bundle that ends before its payload block.
use dtn7_go.Base.{
  ℕ, ◌≡◌, ◌∙◌, refl, List, [], ◌∷◌, ◌++◌, Option, ok, err, panic, flag_break_code, ◌>>=◌, wrap_step,
  wrap, ap, then_ok, suc, length, Result,
}
use dtn7_go.Cbor.{Libs}
use dtn7_go.Cbor.Laws.{CborLaws}
use dtn7_go.Bpv7.Primary.{PrimaryBlock, marshal_primary, unmarshal_primary}
use dtn7_go.Bpv7.Primary.Fields.{PrimaryFits}
use dtn7_go.Bpv7.Primary.RoundTrip.{unmarshal-marshal_primary}
use dtn7_go.Bpv7.Extension.{BlockKind}
use dtn7_go.Bpv7.Canonical.{empty_block, unmarshal_canonical, check_canonical}
use dtn7_go.Bpv7.Bundle.{Bundle}
use dtn7_go.Bpv7.Bundle.Check.{check_valid, check_blocks}
use dtn7_go.Bpv7.Bundle.Wire.{Blocks, read_blocks, parse_bundle, accepted, finish}

-- The payload block that no block on the wire replaced has no value, and checking it panics.
check_valid-empty_payload :
    (now : ℕ) (primary : PrimaryBlock)
    → let b : Bundle = record {
      primary_block = primary;
      extension_blocks = [];
      payload_block = empty_block;
    } in
      accepted (check_valid now b) b ≡ panic
unfolding check_valid check_canonical check_blocks
check_valid-empty_payload now primary = refl

module _ (lib : Libs) (laws : CborLaws lib) (known : ℕ → Option BlockKind) where
  pub canonical-break :
      (s : List ℕ) → unmarshal_canonical lib known (lib.break_code ∷ s) ≡ err flag_break_code
  unfolding unmarshal_canonical
  canonical-break s = rw (laws.array_break s, ◌>>=◌)

  pub read_blocks-break :
      (fuel : ℕ) (bs : Blocks) (s : List ℕ)
      → read_blocks lib known (suc fuel) bs (lib.break_code ∷ s) ≡ ok bs
  unfolding read_blocks
  read_blocks-break fuel bs s = rw (read_blocks, canonical-break s)

  -- What `parse_bundle` does behind the primary block.
  unfoldable pub blocks_from : ℕ → PrimaryBlock × List ℕ → Result Bundle
  blocks_from now p =
      then_ok (read_blocks lib known (suc (length p.1)) ([], empty_block) p.1) (finish now p.0)

  stops :
      (now : ℕ) (pb : PrimaryBlock) (rest : List ℕ)
      → blocks_from now (pb, lib.break_code ∷ rest) ≡ panic
  unfolding blocks_from
  stops now pb rest = rw (read_blocks-break _ _ rest) (check_valid-empty_payload now pb)

  -- Whatever well-formed primary block stands in front: if the break follows it at once, parsing the
  -- bytes panics, at any time, whatever comes behind and whatever block types are known.
  pub parse_bundle-no_payload :
      (now : ℕ) (pb : PrimaryBlock) (rest : List ℕ)
      → PrimaryFits pb
      → (bs : List ℕ) × (pb' : PrimaryBlock) × (marshal_primary lib pb ≡ ok (bs, pb'))
        × (parse_bundle lib known now (lib.indefinite_array ∷ (bs ++ (lib.break_code ∷ rest)))
            ≡ panic)
  unfolding parse_bundle blocks_from
  parse_bundle-no_payload now pb rest fits =
      let (bs, crc_val, written, read) = unmarshal-marshal_primary lib laws pb fits in
      (
        bs,
        record pb { crc = crc_val },
        written,
        ap
              (λ r.
                then_ok r λ start. then_ok (wrap (unmarshal_primary lib) start.1) (blocks_from now))
              (laws.expect lib.indefinite_array (bs ++ (lib.break_code ∷ rest)))
            ∙ (ap (λ r. then_ok r (blocks_from now))
                  (wrap_step (unmarshal_primary lib) (read (lib.break_code ∷ rest)))
                ∙ stops now (record pb { crc = crc_val }) rest),
      )
