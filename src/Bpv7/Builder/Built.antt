-- ===== src/Bpv7/Builder/Built.antt =====
-- What `Build` makes of a builder.
use dtn7_go.Base.{
  ℕ, ◌+◌, ◌^◌, ◌≤◌, ◌≡◌, ◌≢◌, refl, ◌∙◌, ap, subst, inl, inr, List, [], ◌∷◌, ◌++◌, none, Result, ok,
  err, panic, then_ok-eq-ok, Error, arith, Option-cases, Result-cases, length, map, false,
  Bool-cases, ◌==◌, if◌then◌else◌,
}
use dtn7_go.Cbor.{Libs}
use dtn7_go.Bpv7.Crc.{crc_no, crc_32}
use dtn7_go.Bpv7.Primary.{PrimaryBlock, set_primary_crc_type}
use dtn7_go.Bpv7.Canonical.{CanonicalBlock, check_canonical, set_block_crc_type}
use dtn7_go.Bpv7.Bundle.{
  Bundle, block_numbers, sort_extension_blocks, must_new_bundle, set_crc_type,
}
use dtn7_go.Bpv7.Bundle.Check.{check_blocks, check_valid, new_bundle}
use dtn7_go.Bpv7.Bundle.Check.Stripped.{check_valid-set_crc_type, calculate_crc-same}
use dtn7_go.Bpv7.Bundle.Wire.{accepted}
use dtn7_go.Bpv7.Builder.{Outside, Builder, new_builder, build, with_report_to, is_unset}
use dtn7_go.Bpv7.Builder.Calls.{Call, run}
use dtn7_go.Bpv7.Builder.Numbered.{count_up, IsPayload, IsNumbered}
use dtn7_go.Bpv7.Builder.Kept.{run-IsNumbered, new_builder-IsNumbered, from_here-IsNumbered}
use dtn7_go.Bpv7.Builder.Sorted.{insert_all-numbered}

-- A block without a value makes the check panic, and nothing makes it fail.
check_blocks-no_error : (cbs : List CanonicalBlock) (e : Error) → check_blocks cbs ≢ err e
unfolding check_blocks check_canonical
check_blocks-no_error [] e h = absurd (ground arith)
check_blocks-no_error (cb ∷ cbs) e h = elim (Option-cases cb.value) [
  | inl nil ↦ absurd (ground (arith, nil, h))
  | inr (v, q) ↦ elim (Result-cases (check_blocks cbs)) [
    | inl (es, r) ↦ absurd (ground (arith, q, r, h))
    | inr (inl (x, r)) ↦ check_blocks-no_error cbs x r
    | inr (inr r) ↦ absurd (ground (arith, q, r, h))
  ]
]

check_valid-no_payload :
    (now : ℕ) (b : Bundle) → b.payload_block.value ≡ none → check_valid now b ≡ panic
unfolding check_valid check_canonical
check_valid-no_payload now b h = elim (Result-cases (check_blocks b.extension_blocks)) [
  | inl (es, q) ↦ rw (q, h) refl
  | inr (inl (e, q)) ↦ absurd (check_blocks-no_error b.extension_blocks e q)
  | inr (inr q) ↦ rw q refl
]

-- `Build` of a builder that has had a source and a destination, but no payload, does not return an
-- error: it panics.
pub build-no_payload :
    (out : Outside) (now : ℕ) (b : Builder)
    → b.error ≡ none
    → is_unset out b.primary.source_node ≡ false
    → is_unset out b.primary.destination ≡ false
    → b.payload_block.value ≡ none
    → build out now b ≡ panic
unfolding build new_bundle must_new_bundle
build-no_payload out now b fine s d h = ground (
  arith,
  fine,
  s,
  d,
  check_valid-no_payload now
      (must_new_bundle (with_report_to out b.primary) b.canonicals b.payload_block) h,
)

accepted-ok :
    (r : Result (List Error)) (b b' : Bundle) → accepted r b ≡ ok b' → (r ≡ ok []) × (b ≡ b')
accepted-ok (ok []) b b' h = (refl, ground (arith, h))
accepted-ok (ok (e ∷ es)) b b' h = absurd (ground arith)
accepted-ok (err e) b b' h = absurd (ground arith)
accepted-ok panic b b' h = absurd (ground arith)

built_bundle :
    (out : Outside) (now : ℕ) (b : Builder) (bndl : Bundle)
    → build out now b ≡ ok bndl
    → let whole : Bundle =
        must_new_bundle (with_report_to out b.primary) b.canonicals b.payload_block in
      (b.error ≡ none)
      × (is_unset out b.primary.source_node ≡ false)
      × (is_unset out b.primary.destination ≡ false)
      × (check_valid now whole ≡ ok [])
      × (set_crc_type out.libs b.crc_type whole ≡ bndl)
unfolding build new_bundle must_new_bundle
built_bundle out now b bndl h = elim (Option-cases b.error) [
  | inr (e, failed) ↦ absurd (ground (arith, failed, h))
  | inl fine ↦ elim (Bool-cases (is_unset out b.primary.source_node)) [
    | inl unset ↦ absurd (ground (arith, fine, unset, h))
    | inr source ↦ elim (Bool-cases (is_unset out b.primary.destination)) [
      | inl unset ↦ absurd (ground (arith, fine, source, unset, h))
      | inr destination ↦
          let whole : Bundle =
            must_new_bundle (with_report_to out b.primary) b.canonicals b.payload_block in
          let (checked, p, q) =
            then_ok-eq-ok (accepted (check_valid now whole) whole)
              (λ b'. ok (set_crc_type out.libs b.crc_type b')) {b = bndl}
              (ground (arith, fine, source, destination, h)) in
          let (valid, same) = accepted-ok (check_valid now whole) whole checked p in
          (fine, source, destination, valid, ground (arith, same, q))
    ]
  ]
]

-- All fields of a primary block but the CRC and its type.
abbrev pub WithoutCrc : PrimaryBlock → PrimaryBlock → Type 0
WithoutCrc pb pb' = record pb { crc_type = 0; crc = [] } ≡ record pb' { crc_type = 0; crc = [] }

primary_after :
    (lib : Libs) (t : ℕ) (b : Bundle)
    → WithoutCrc (set_crc_type lib t b).primary_block b.primary_block
unfolding set_crc_type set_primary_crc_type
primary_after lib t b =
    ap (λ (x : PrimaryBlock). record x { crc_type = 0; crc = [] })
      (calculate_crc-same lib
        (record b.primary_block { crc_type = if t == crc_no then crc_32 else t }))

-- The bundle before `SetCRCType`.
abbrev whole_of : Outside → Builder → Bundle
whole_of out b = must_new_bundle (with_report_to out b.primary) b.canonicals b.payload_block

extension_blocks_of :
    (out : Outside) (t : ℕ) (b : Builder)
    → block_numbers b.canonicals ≡ count_up 2 (length b.canonicals)
    → 2 + length b.canonicals ≤ 2 ^ 64
    → (set_crc_type out.libs t (whole_of out b)).extension_blocks
      ≡ map (set_block_crc_type t) b.canonicals
unfolding set_crc_type must_new_bundle sort_extension_blocks
extension_blocks_of out t b numbers few =
    ap (map (set_block_crc_type t))
      (insert_all-numbered [] b.canonicals 2 (omega arith) tt numbers few)

payload_block-IsPayload :
    (out : Outside) (now : ℕ) (base : List CanonicalBlock) (b : Builder)
    → IsNumbered base b
    → check_valid now (whole_of out b) ≡ ok []
    → IsPayload b.payload_block × (b.payload_block.block_number ≡ 1)
unfolding must_new_bundle
payload_block-IsPayload out now base b (numbers, counter, types, pay, added) valid = elim pay [
  | inl nil ↦ absurd (ground (arith, valid, check_valid-no_payload now (whole_of out b) nil))
  | inr found ↦ found
]

payload_block_of :
    (out : Outside) (t : ℕ) (b : Builder)
    → (set_crc_type out.libs t (whole_of out b)).payload_block
      ≡ set_block_crc_type t b.payload_block
unfolding set_crc_type must_new_bundle
payload_block_of out t b = refl

-- Two parts of a chain of calls: `earlier` leads from a fresh builder to `b₁`, and `later` from there to
-- `b`. A bundle that `Build` returns then is valid, and the builder has not failed. The bundle's
-- extension blocks are the builder's in the builder's order, with its CRC type, if there are at most
-- 2 ^ 64 - 2 of them: first those that `b₁` had, whatever the later calls were, and all are numbered from
-- 2 on. Its payload block is the builder's with that CRC type; it holds a payload and has the number 1.
-- All of its primary block but the CRC and its type is the builder's, with a source and a destination,
-- and reports go to the source if the builder was not told where they go.
pub build-valid :
    (out : Outside) (now : ℕ) (earlier later : List Call) (b₁ b : Builder) (bndl : Bundle)
    → run out earlier new_builder ≡ ok b₁
    → run out later b₁ ≡ ok b
    → build out now b ≡ ok bndl
    → 2 + length b.canonicals ≤ 2 ^ 64
    → (b.error ≡ none)
      × (check_valid now bndl ≡ ok [])
      × (bndl.extension_blocks ≡ map (set_block_crc_type b.crc_type) b.canonicals)
      × ((added : List CanonicalBlock) × (b.canonicals ≡ b₁.canonicals ++ added))
      × (block_numbers b.canonicals ≡ count_up 2 (length b.canonicals))
      × (bndl.payload_block ≡ set_block_crc_type b.crc_type b.payload_block)
      × IsPayload b.payload_block
      × (b.payload_block.block_number ≡ 1)
      × WithoutCrc bndl.primary_block (with_report_to out b.primary)
      × (is_unset out b.primary.source_node ≡ false)
      × (is_unset out b.primary.destination ≡ false)
build-valid out now earlier later b₁ b bndl r₁ r h few =
    let start = run-IsNumbered [] out earlier new_builder b₁ new_builder-IsNumbered r₁ in
    let n = run-IsNumbered b₁.canonicals out later b₁ b (from_here-IsNumbered [] b₁ start) r in
    let (numbers, counter, types, pay, grown) = n in
    let (fine, source, destination, valid, made) = built_bundle out now b bndl h in
    let (p, one) = payload_block-IsPayload out now b₁.canonicals b n valid in
    (
      fine,
      subst (λ (x : Bundle). check_valid now x ≡ ok []) made
          (check_valid-set_crc_type out.libs now b.crc_type (whole_of out b) ∙ valid),
      subst (λ (x : Bundle). x.extension_blocks ≡ map (set_block_crc_type b.crc_type) b.canonicals)
          made (extension_blocks_of out b.crc_type b numbers few),
      grown,
      numbers,
      subst (λ (x : Bundle). x.payload_block ≡ set_block_crc_type b.crc_type b.payload_block) made
          (payload_block_of out b.crc_type b),
      p,
      one,
      subst (λ (x : Bundle). WithoutCrc x.primary_block (with_report_to out b.primary)) made
          (unfold must_new_bundle in primary_after out.libs b.crc_type (whole_of out b)),
      source,
      destination,
    )
