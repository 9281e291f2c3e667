-- ===== src/Bpv7/Bundle/Check/Stripped.antt =====
-- What is checked of a bundle does not depend on the CRCs that its blocks keep, nor on their types.
use dtn7_go.Base.{
  ℕ, ◌==◌, if◌then◌else◌, ◌≡◌, ◌∙◌, refl, ap, List, [], ◌∷◌, map, Option, none, some, Result, ok,
  err, panic, then_ok, arith, then_ok-eq-ok, Bool-cases, Result-cases, inl, inr,
}
use dtn7_go.Cbor.{Libs}
use dtn7_go.Bpv7.Primary.{
  check_primary, PrimaryBlock, set_primary_crc_type, calculate_crc, marshal_primary, primary_body,
  has_crc, with_crc,
}
use dtn7_go.Bpv7.Crc.{calculate_crc_buff, crc_no, crc_32}
use dtn7_go.Bpv7.Extension.{
  ExtensionBlock, payload, previous_node, bundle_age, hop_count, binary_spray, generic,
}
use dtn7_go.Bpv7.Canonical.{CanonicalBlock, of_value, check_canonical, set_block_crc_type}
use dtn7_go.Bpv7.Bundle.{
  Bundle, set_crc_type, blocks_of_type, extension_blocks_by_type, extension_block_by_type,
  has_extension_block, some_block, only_block, succeeds,
}
use dtn7_go.Bpv7.Bundle.Check.{
  check_blocks, check_context, check_extensions, check_age, is_lifetime_exceeded,
  after_max_timestamp, check_valid, aged_out, checks,
}

abbrev mapped {ℓ} : {A B : Type ℓ} → (A → B) → Result A → Result B
mapped f (ok a) = ok (f a)
mapped f (err e) = err e
mapped f panic = panic

module _ (t : CanonicalBlock → ℕ) (c : CanonicalBlock → List ℕ) (pt : ℕ) (pc : List ℕ) where
  abbrev recoded_block : CanonicalBlock → CanonicalBlock
  recoded_block cb = record cb { crc_type = t cb; crc = c cb }

  -- The bundle with CRC types and CRCs of any choice.
  abbrev recoded : Bundle → Bundle
  recoded b = record {
    primary_block = record b.primary_block { crc_type = pt; crc = pc };
    extension_blocks = map recoded_block b.extension_blocks;
    payload_block = recoded_block b.payload_block;
  }

  check_blocks-recoded :
      (cbs : List CanonicalBlock) → check_blocks (map recoded_block cbs) ≡ check_blocks cbs
  unfolding check_blocks check_canonical
  check_blocks-recoded [] = refl
  check_blocks-recoded (cb ∷ cbs) = rw (check_blocks-recoded cbs)

  blocks_of_type-recoded :
      (t : ℕ) (cbs : List CanonicalBlock)
      → blocks_of_type t (map recoded_block cbs) ≡ mapped (map recoded_block) (blocks_of_type t cbs)
  unfolding blocks_of_type
  blocks_of_type-recoded t [] = refl
  blocks_of_type-recoded t (cb ∷ cbs) = ground (arith, blocks_of_type-recoded t cbs)

  only_block-recoded :
      (t : ℕ) (r : Result (List CanonicalBlock))
      → then_ok (then_ok (mapped (map recoded_block) r) (some_block t)) (only_block t)
        ≡ mapped recoded_block (then_ok (then_ok r (some_block t)) (only_block t))
  only_block-recoded t (ok []) = refl
  only_block-recoded t (ok (x ∷ [])) = refl
  only_block-recoded t (ok (x ∷ y ∷ zs)) = refl
  only_block-recoded t (err e) = refl
  only_block-recoded t panic = refl

  extension_block_by_type-recoded :
      (t : ℕ) (b : Bundle)
      → extension_block_by_type t (recoded b) ≡ mapped recoded_block (extension_block_by_type t b)
  unfolding extension_block_by_type extension_blocks_by_type
  extension_block_by_type-recoded t b =
      ap (λ r. then_ok (then_ok r (some_block t)) (only_block t))
        (blocks_of_type-recoded t b.extension_blocks)
      ∙ only_block-recoded t (blocks_of_type t b.extension_blocks)

  succeeds-recoded :
      (t : ℕ) (r : Result (List CanonicalBlock))
      → succeeds (then_ok (mapped (map recoded_block) r) (some_block t))
        ≡ succeeds (then_ok r (some_block t))
  succeeds-recoded t (ok []) = refl
  succeeds-recoded t (ok (x ∷ xs)) = refl
  succeeds-recoded t (err e) = refl
  succeeds-recoded t panic = refl

  has_extension_block-recoded :
      (t : ℕ) (b : Bundle) → has_extension_block t (recoded b) ≡ has_extension_block t b
  unfolding has_extension_block extension_blocks_by_type
  has_extension_block-recoded t b =
      ap (λ r. succeeds (then_ok r (some_block t))) (blocks_of_type-recoded t b.extension_blocks)
      ∙ succeeds-recoded t (blocks_of_type t b.extension_blocks)

  checks-recoded : (r : Result CanonicalBlock) → checks (mapped recoded_block r) ≡ checks r
  checks-recoded (ok cb) = refl
  checks-recoded (err e) = refl
  checks-recoded panic = refl

  aged_out-recoded :
      (lifetime : ℕ) (r : Result CanonicalBlock)
      → aged_out lifetime (mapped recoded_block r) ≡ aged_out lifetime r
  aged_out-recoded lifetime (ok cb) = refl
  aged_out-recoded lifetime (err e) = refl
  aged_out-recoded lifetime panic = refl

  check_one-recoded :
      (t : ℕ) (b : Bundle)
      → checks (extension_block_by_type t (recoded b)) ≡ checks (extension_block_by_type t b)
  check_one-recoded t b =
      ap (λ (r : Result CanonicalBlock). checks r) (extension_block_by_type-recoded t b)
      ∙ checks-recoded (extension_block_by_type t b)

  check_context-recoded :
      (b : Bundle) (v : ExtensionBlock) → check_context (recoded b) v ≡ check_context b v
  unfolding check_context
  check_context-recoded b (previous_node eid) = check_one-recoded 6 b
  check_context-recoded b (bundle_age ms) = check_one-recoded 7 b
  check_context-recoded b (hop_count hcb) = check_one-recoded 10 b
  check_context-recoded b (payload bytes) = refl
  check_context-recoded b (binary_spray copies) = refl
  check_context-recoded b (generic code bytes) = refl

  of_context-recoded :
      (b : Bundle) (v : Option ExtensionBlock)
      → of_value v (check_context (recoded b)) ≡ of_value v (check_context b)
  of_context-recoded b none = refl
  of_context-recoded b (some v) = check_context-recoded b v

  check_extensions-recoded :
      (b : Bundle) (seen : List ℕ) (cbs : List CanonicalBlock)
      → check_extensions (recoded b) seen (map recoded_block cbs) ≡ check_extensions b seen cbs
  unfolding check_extensions
  check_extensions-recoded b seen [] = refl
  check_extensions-recoded b seen (cb ∷ cbs) =
      rw (of_context-recoded b cb.value, check_extensions-recoded b (cb.block_number ∷ seen) cbs)
        refl

  is_lifetime_exceeded-recoded :
      (now : ℕ) (b : Bundle) → is_lifetime_exceeded now (recoded b) ≡ is_lifetime_exceeded now b
  unfolding is_lifetime_exceeded after_max_timestamp
  is_lifetime_exceeded-recoded now b =
      rw
        (
          extension_block_by_type-recoded 7 b,
          aged_out-recoded b.primary_block.lifetime (extension_block_by_type 7 b),
        )
        refl

  check_age-recoded : (b : Bundle) → check_age (recoded b) ≡ check_age b
  unfolding check_age
  check_age-recoded b = rw (has_extension_block-recoded 7 b) refl

  -- What is found wrong with a bundle does not depend on the CRCs, nor on their types.
  pub check_valid-recoded : (now : ℕ) (b : Bundle) → check_valid now (recoded b) ≡ check_valid now b
  unfolding check_valid check_primary check_canonical
  check_valid-recoded now b =
      rw
        (
          check_blocks-recoded b.extension_blocks,
          check_extensions-recoded b [] b.extension_blocks,
          check_age-recoded b,
          is_lifetime_exceeded-recoded now b,
        )
        refl

abbrev pub stripped_block : CanonicalBlock → CanonicalBlock
stripped_block cb = record cb { crc = [] }

-- The bundle without its CRCs.
abbrev pub stripped : Bundle → Bundle
stripped b = record {
  primary_block = record b.primary_block { crc = [] };
  extension_blocks = map stripped_block b.extension_blocks;
  payload_block = stripped_block b.payload_block;
}

pub check_valid-stripped : (now : ℕ) (b : Bundle) → check_valid now (stripped b) ≡ check_valid now b
check_valid-stripped now b =
    check_valid-recoded (λ cb. cb.crc_type) (λ cb. []) b.primary_block.crc_type [] now b

marshal_primary-same :
    (lib : Libs) (pb pb' : PrimaryBlock) (bytes : List ℕ)
    → marshal_primary lib pb ≡ ok (bytes, pb')
    → pb' ≡ record pb { crc = pb'.crc }
unfolding marshal_primary
marshal_primary-same lib pb pb' bytes h =
    let (body, p, q) = then_ok-eq-ok (primary_body lib pb) _ {b = (bytes, pb')} h in
    elim (Bool-cases (has_crc pb)) [
      | inl some_crc ↦
          let (v, c, w) =
            then_ok-eq-ok (calculate_crc_buff lib body pb.crc_type) (with_crc lib body pb)
              {b = (bytes, pb')} (ground (arith, q, some_crc)) in
          ground (arith, w)
      | inr no_crc ↦ ground (arith, no_crc, q)
    ]

-- Computing the CRC changes nothing else in the block.
pub calculate_crc-same :
    (lib : Libs) (pb : PrimaryBlock)
    → calculate_crc lib pb ≡ record pb { crc = (calculate_crc lib pb).crc }
unfolding calculate_crc
calculate_crc-same lib pb = elim (Result-cases (marshal_primary lib (record pb { crc = [] }))) [
  | inl ((bytes, pb'), h) ↦
      ground (arith, h, marshal_primary-same lib (record pb { crc = [] }) pb' bytes h)
  | inr (inl (e, h)) ↦ ground (arith, h)
  | inr (inr h) ↦ ground (arith, h)
]

pub check_valid-set_crc_type :
    (lib : Libs) (now t : ℕ) (b : Bundle)
    → check_valid now (set_crc_type lib t b) ≡ check_valid now b
unfolding set_crc_type set_primary_crc_type set_block_crc_type
check_valid-set_crc_type lib now t b =
    let pb : PrimaryBlock = record b.primary_block {
      crc_type = if t == crc_no then crc_32 else t;
    } in
    rw (calculate_crc-same lib pb)
      (check_valid-recoded (λ cb. t) (λ cb. cb.crc) pb.crc_type (calculate_crc lib pb).crc now b)
