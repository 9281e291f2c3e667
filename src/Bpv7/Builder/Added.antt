-- ===== src/Bpv7/Builder/Added.antt =====
-- Where a block stands in the bundle that was given to the builder.
use dtn7_go.Base.{
  ℕ, ◌+◌, ◌^◌, ◌≤◌, ◌<◌, ◌≡◌, ◌≢◌, refl, ◌∙◌, ap, inl, inr, List, [], ◌∷◌, ◌++◌, append_assoc, none,
  ok, arith, Option-cases, length, length-append, map, false, ◌==◌, ne→==,
}
use dtn7_go.Bpv7.Extension.{ExtensionBlock, block_type_code, block_type_payload}
use dtn7_go.Bpv7.Canonical.{new_canonical_block, CanonicalBlock, set_block_crc_type}
use dtn7_go.Bpv7.Bundle.{Bundle}
use dtn7_go.Bpv7.Builder.{
  extension, block_flags, canonical, add_canonical, Outside, Builder, new_builder, build,
}
use dtn7_go.Bpv7.Builder.Calls.{Call, adding, perform, run}
use dtn7_go.Bpv7.Builder.Kept.{run-IsNumbered, new_builder-IsNumbered, from_here-IsNumbered}
use dtn7_go.Bpv7.Builder.Failed.{run-failed}
use dtn7_go.Bpv7.Builder.Built.{build-valid}

-- The arguments of a `Canonical` call for a value with flags.
abbrev pub adding_value : ExtensionBlock → ℕ → Call
adding_value v flags = adding (extension v ∷ block_flags flags ∷ [])

added_block :
    (out : Outside) (v : ExtensionBlock) (flags : ℕ) (b b' : Builder)
    → b.error ≡ none
    → block_type_code v ≢ block_type_payload
    → perform out (adding_value v flags) b ≡ ok b'
    → b'.canonicals ≡ b.canonicals ++ (new_canonical_block b.canonical_counter flags v ∷ [])
unfolding perform canonical add_canonical new_canonical_block
added_block out v flags b b' fine other h =
    let differ : (block_type_code v == block_type_payload) ≡ false =
      ne→== (block_type_code v) block_type_payload other in
    ground (arith, fine, differ, h)

-- A builder that a bundle is built of in the end has not failed before.
has_not_failed :
    (out : Outside) (now : ℕ) (cs : List Call) (b b' : Builder) (bndl : Bundle)
    → run out cs b ≡ ok b'
    → build out now b' ≡ ok bndl
    → b.error ≡ none
has_not_failed out now cs b b' bndl r h = elim (Option-cases b.error) [
  | inl fine ↦ fine
  | inr (e, failed) ↦
      let (e', same, refused) = run-failed out now cs b b' e failed r in
      absurd (ground (arith, refused, h))
]

chained :
    (out : Outside) (c : Call) (cs : List Call) (b b₂ b' : Builder)
    → perform out c b ≡ ok b₂
    → run out cs b₂ ≡ ok b'
    → run out (c ∷ cs) b ≡ ok b'
unfolding run
chained out c cs b b₂ b' h r = rw (run, h) r

run_nothing : (out : Outside) (b : Builder) → run out [] b ≡ ok b
unfolding run
run_nothing out b = refl

length-earlier :
    (xs ys zs : List CanonicalBlock) (cb : CanonicalBlock)
    → zs ≡ (xs ++ (cb ∷ [])) ++ ys
    → length xs < length zs
length-earlier xs ys zs cb e = omega (
  arith,
  ap (λ (l : List CanonicalBlock). length l) e,
  length-append (xs ++ (cb ∷ [])) ys,
  length-append xs (cb ∷ []),
)

-- `Canonical` is called somewhere in a chain of calls with a value, which is no payload, and its flags.
-- If `Build` returns a bundle then, this has a block of that value and these flags behind the extension
-- blocks that the builder had before the call, and in front of all others. Its number is two more than
-- the count of the blocks before it, and its CRC type is the builder's in the end. The builder has at
-- most 2 ^ 64 - 2 extension blocks.
pub build-adding_value :
    (out : Outside) (now : ℕ) (earlier later : List Call) (v : ExtensionBlock) (flags : ℕ)
    (b₁ b₂ b : Builder) (bndl : Bundle)
    → run out earlier new_builder ≡ ok b₁
    → perform out (adding_value v flags) b₁ ≡ ok b₂
    → run out later b₂ ≡ ok b
    → build out now b ≡ ok bndl
    → 2 + length b.canonicals ≤ 2 ^ 64
    → block_type_code v ≢ block_type_payload
    → (added : List CanonicalBlock) × (bndl.extension_blocks
        ≡ map
            (set_block_crc_type b.crc_type)
            (b₁.canonicals ++ (new_canonical_block (2 + length b₁.canonicals) flags v ∷ added)))
build-adding_value out now earlier later v flags b₁ b₂ b bndl r₁ c r h few other =
    let whole = chained out (adding_value v flags) later b₁ b₂ b c r in
    let fine = has_not_failed out now (adding_value v flags ∷ later) b₁ b bndl whole h in
    let appended = added_block out v flags b₁ b₂ fine other c in
    let n₁ = run-IsNumbered [] out earlier new_builder b₁ new_builder-IsNumbered r₁ in
    let n₂ =
      run-IsNumbered [] out (adding_value v flags ∷ []) b₁ b₂ n₁
        (chained out (adding_value v flags) [] b₁ b₂ b₂ c (run_nothing out b₂)) in
    let (numbers, counter, types, pay, (added, grown)) =
      run-IsNumbered b₂.canonicals out later b₂ b (from_here-IsNumbered [] b₂ n₂) r in
    let cb = new_canonical_block b₁.canonical_counter flags v in
    let placed : b.canonicals ≡ (b₁.canonicals ++ (cb ∷ [])) ++ added =
      grown ∙ ap (λ (l : List CanonicalBlock). l ++ added) appended in
    let fits = length-earlier b₁.canonicals added b.canonicals cb placed in
    let number : b₁.canonical_counter ≡ 2 + length b₁.canonicals = omega (arith, n₁.1, fits, few) in
    let valid =
      build-valid out now earlier (adding_value v flags ∷ later) b₁ b bndl r₁ whole h few in
    (
      added,
      valid.2
          ∙ ap (map (set_block_crc_type b.crc_type)) (
              placed
              ∙ append_assoc b₁.canonicals (cb ∷ []) added
              ∙ ap (λ (k : ℕ). b₁.canonicals ++ (new_canonical_block k flags v ∷ added)) number),
    )
