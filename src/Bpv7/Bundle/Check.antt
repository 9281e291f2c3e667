-- ===== src/Bpv7/Bundle/Check.antt =====
-- `IsLifetimeExceeded` and `CheckValid` of pkg/bpv7/bundle.go, at a time `now` that is given.
pub mod Stripped
use dtn7_go.Base.{
  ℕ, ◌+◌, ◌*◌, ◌%◌, ◌^◌, List, [], ◌∷◌, ◌++◌, Bool, true, ltb, if◌then◌else◌, Error, Result, ok,
  err, panic, then_ok, status_report_on_payload, duplicate_block_number, age_block_missing,
  lifetime_exceeded,
}
use dtn7_go.Bpv7.Flags.{has, status_report_block}
use dtn7_go.Bpv7.Time.{is_zero_time, unix_milliseconds, raised}
use dtn7_go.Bpv7.Primary.{PrimaryBlock, check_primary}
use dtn7_go.Bpv7.Extension.{
  ExtensionBlock, payload, previous_node, bundle_age, hop_count, binary_spray, generic,
  block_type_previous_node, block_type_bundle_age, block_type_hop_count,
}
use dtn7_go.Bpv7.Canonical.{CanonicalBlock, of_value, check_canonical}
use dtn7_go.Bpv7.Bundle.{
  Bundle, among, extension_block_by_type, has_extension_block, must_new_bundle,
}

-- `time.Duration(b.PrimaryBlock.Lifetime) * time.Millisecond`: 64 bits of nanoseconds, with a sign.
abbrev pub lifetime_duration : ℕ → ℕ
lifetime_duration lifetime = lifetime * 1_000_000 % 2 ^ 64

-- `now.After(maxTimestamp)`, in nanoseconds since 1970. Both sides are raised by the same amount,
-- which keeps them from being negative.
unfoldable pub after_max_timestamp : ℕ → PrimaryBlock → Bool
after_max_timestamp now pb =
    ltb
      (raised (unix_milliseconds pb.creation_timestamp.dtn_time) * 1_000_000
        + raised (lifetime_duration pb.lifetime))
      (now + 2 ^ 64 * 1_000_000 + 2 ^ 64)

-- `bab.Value.(*BundleAgeBlock).Age() > lifetime`; the assertion panics on any other type.
abbrev age_exceeds : ℕ → ExtensionBlock → Result Bool
age_exceeds lifetime (bundle_age ms) = ok (ltb lifetime ms)
age_exceeds lifetime (payload bytes) = panic
age_exceeds lifetime (previous_node eid) = panic
age_exceeds lifetime (hop_count hcb) = panic
age_exceeds lifetime (binary_spray copies) = panic
age_exceeds lifetime (generic code bytes) = panic

abbrev pub aged_out : ℕ → Result CanonicalBlock → Result Bool
aged_out lifetime (ok cb) = of_value cb.value (age_exceeds lifetime)
aged_out lifetime (err e) = ok true
aged_out lifetime panic = panic

unfoldable pub is_lifetime_exceeded : ℕ → Bundle → Result Bool
unfolding extension_block_by_type
is_lifetime_exceeded now b =
    if is_zero_time b.primary_block.creation_timestamp
    then aged_out b.primary_block.lifetime (extension_block_by_type block_type_bundle_age b)
    else ok (after_max_timestamp now b.primary_block)

abbrev pub checks {ℓ} : {A : Type ℓ} → Result A → Result (List Error)
checks (ok a) = ok []
checks (err e) = ok (e ∷ [])
checks panic = panic

-- `CheckContextValid`: the block is the only one of its type. Where there is one block of a type it
-- is the block that asks, so that the comparison of pointers which follows cannot fail.
unfoldable pub check_context : Bundle → ExtensionBlock → Result (List Error)
check_context b (previous_node eid) = checks (extension_block_by_type block_type_previous_node b)
check_context b (bundle_age ms) = checks (extension_block_by_type block_type_bundle_age b)
check_context b (hop_count hcb) = checks (extension_block_by_type block_type_hop_count b)
check_context b (payload bytes) = ok []
check_context b (binary_spray copies) = ok []
check_context b (generic code bytes) = ok []

abbrev both : Result (List Error) → Result (List Error) → Result (List Error)
both r s = then_ok r λ es. then_ok s λ es'. ok (es ++ es')

unfoldable pub check_blocks : List CanonicalBlock → Result (List Error)
check_blocks [] = ok []
check_blocks (cb ∷ cbs) = both (check_canonical cb) (check_blocks cbs)

-- The loop over the extension blocks, with the numbers that it has met.
unfoldable pub check_extensions : Bundle → List ℕ → List CanonicalBlock → Result (List Error)
unfolding among check_context
check_extensions b seen [] = ok []
check_extensions b seen (cb ∷ cbs) =
    both
      (ok (if among cb.block_number seen then duplicate_block_number cb.block_number ∷ [] else []))
      (both (of_value cb.value (check_context b)) (check_extensions b (cb.block_number ∷ seen) cbs))

unfoldable pub check_age : Bundle → Result (List Error)
check_age b =
    if is_zero_time b.primary_block.creation_timestamp
    then then_ok (has_extension_block block_type_bundle_age b)
        (λ found. ok (if found then [] else age_block_missing ∷ []))
    else ok []

-- `CheckValid` at a time: all that is wrong with the bundle.
unfoldable pub check_valid : ℕ → Bundle → Result (List Error)
check_valid now b = both (ok (check_primary b.primary_block)) (
    both (check_blocks b.extension_blocks) (
      both (check_canonical b.payload_block) (
        both
          (ok (
            if has b.payload_block.block_control_flags status_report_block
            then status_report_on_payload ∷ []
            else []))
          (both (check_extensions b [] b.extension_blocks) (
            both (check_age b) (
              then_ok (is_lifetime_exceeded now b)
                (λ over. ok (if over then lifetime_exceeded ∷ [] else []))))))))

-- `NewBundle` returns the bundle with what is wrong with it.
unfoldable pub new_bundle :
    ℕ → PrimaryBlock → List CanonicalBlock → CanonicalBlock → Bundle × Result (List Error)
unfolding must_new_bundle
new_bundle now primary extensions payload_cb =
    let b = must_new_bundle primary extensions payload_cb in (b, check_valid now b)
