-- ===== src/Bpv7/Builder/Kept.antt =====
-- Every call of a builder keeps its blocks numbered, and in their order.
use dtn7_go.Base.{
  bit_or, ◌≡◌, refl, sym, subst, inl, inr, List, [], ◌∷◌, Result, ok, err, panic, then_ok-eq-ok,
  arith, Option-cases, Result-cases, append-nil, payload_not_written,
}
use dtn7_go.Base.Int.{to_uint8}
use dtn7_go.Bpv7.Flags.{replicate_block}
use dtn7_go.Bpv7.Extension.{
  ExtensionBlock, payload, bundle_age, hop_count, previous_node, new_hop_count, block_type_code,
}
use dtn7_go.Bpv7.Canonical.{CanonicalBlock, new_canonical_block}
use dtn7_go.Bpv7.Administrative.{StatusReport, write_administrative_record}
use dtn7_go.Bpv7.Builder.{
  Argument, bytes, extension, block_flags, canonical_block, Outside, Builder, new_builder, set_crc,
  destination, source, report_to, creation_timestamp, bundle_ctrl_flags, canonical, add_canonical,
  add_flagged, canonical_parse_flags, hop_count_block, previous_node_block, lifetime,
  bundle_age_block, payload_block, administrative_record, status_report, failing, placed, keeping,
  unless_failed, going_on, parse_endpoint, parse_lifetime, limit_of, report_of, record_flags,
}
use dtn7_go.Bpv7.Builder.Calls.{
  Call, crc, to_destination, from_source, reporting_to, created_epoch, created_now, created_at,
  living, with_flags, adding, adding_age, adding_hops, adding_payload, adding_previous, recording,
  reporting, perform, run,
}
use dtn7_go.Bpv7.Builder.Numbered.{IsNumbered, placed-IsNumbered}

module _ (base : List CanonicalBlock) where
  -- What a step of the builder makes of a numbered one, if it returns.
  abbrev Keeps : (Builder → Result Builder) → Type 0
  Keeps step = (b b' : Builder) → IsNumbered base b → step b ≡ ok b' → IsNumbered base b'

  unless_failed-Keeps :
      (step : Builder → Result Builder) → Keeps step → Keeps (λ b. unless_failed b (step b))
  unless_failed-Keeps step k b b' n h = elim (Option-cases b.error) [
    | inl fine ↦ k b b' n (ground (arith, fine, h))
    | inr (e, failed) ↦
        let same : b ≡ b' = ground (arith, failed, h) in subst (IsNumbered base) same n
  ]

  keeping-Keeps {ℓ} :
      {A : Type ℓ} (r : Result A) (f : A → Builder → Builder)
      → ((a : A) (b : Builder) → IsNumbered base b → IsNumbered base (f a b))
      → Keeps (λ b. keeping r (λ a. f a b) b)
  keeping-Keeps (ok a) f k b b' n h =
      let same : f a b ≡ b' = ground (arith, h) in subst (IsNumbered base) same (k a b n)
  keeping-Keeps (err e) f k b b' n h =
      let same : failing e b ≡ b' = ground (arith, h) in subst (IsNumbered base) same n
  keeping-Keeps panic f k b b' n h = absurd (ground arith)

  going_on-Keeps {ℓ} :
      {A : Type ℓ} (z : A) (r : Result A) (f : A → Builder → Result Builder)
      → ((a : A) → Keeps (f a))
      → Keeps (going_on z r f)
  going_on-Keeps z (ok a) f k b b' n h = k a b b' n h
  going_on-Keeps z (err e) f k b b' n h = k z (failing e b) b' n h
  going_on-Keeps z panic f k b b' n h = absurd (ground arith)

  returned :
      (b b' : Builder)
      → IsNumbered base b
      → Path (Result Builder) (ok b) (ok b')
      → IsNumbered base b'
  returned b b' n h = let same : b ≡ b' = ground (arith, h) in subst (IsNumbered base) same n

  add_canonical-Keeps : (args : List Argument) → Keeps (add_canonical args)
  unfolding add_canonical new_canonical_block
  add_canonical-Keeps [] b b' n h = returned _ b' n h
  add_canonical-Keeps (extension v ∷ []) b b' n h =
      returned _ b' (placed-IsNumbered base v (new_canonical_block 0 0 v) b refl n) h
  add_canonical-Keeps (extension v ∷ block_flags flags ∷ []) b b' n h =
      returned _ b' (placed-IsNumbered base v (new_canonical_block 0 flags v) b refl n) h
  add_canonical-Keeps (extension v ∷ rest) b b' n h = returned _ b' n h
  add_canonical-Keeps (canonical_block cb ∷ rest) b b' n h = elim (Option-cases cb.value) [
    | inl nil ↦ absurd (ground (arith, nil, h))
    | inr (v, q) ↦
        returned (placed (block_type_code v) cb b) b' (placed-IsNumbered base v cb b q n)
          (ground (arith, q, h))
  ]
  add_canonical-Keeps (a ∷ rest) b b' n h = returned _ b' n h

  canonical-Keeps : (args : List Argument) → Keeps (canonical args)
  unfolding canonical
  canonical-Keeps args = unless_failed-Keeps (add_canonical args) (add_canonical-Keeps args)

  add_flagged-Keeps : (v : ExtensionBlock) (args : List Argument) → Keeps (add_flagged v args)
  unfolding add_flagged canonical_parse_flags
  add_flagged-Keeps v args =
      canonical-Keeps (extension v ∷ block_flags (bit_or 0 replicate_block) ∷ [])

  hop_count_block-Keeps : (args : List Argument) → Keeps (hop_count_block args)
  unfolding hop_count_block
  hop_count_block-Keeps [] = unless_failed-Keeps (λ b. panic) λ b b' n h. absurd (ground arith)
  hop_count_block-Keeps (a ∷ rest) = unless_failed-Keeps _ (
      going_on-Keeps _ (limit_of a) _
        λ limit. add_flagged-Keeps (hop_count (new_hop_count (to_uint8 limit))) (a ∷ rest))

  previous_node_block-Keeps : (args : List Argument) → Keeps (previous_node_block args)
  unfolding previous_node_block
  previous_node_block-Keeps [] = unless_failed-Keeps (λ b. panic) λ b b' n h. absurd (ground arith)
  previous_node_block-Keeps (a ∷ rest) = unless_failed-Keeps _ (
      going_on-Keeps _ (parse_endpoint a) _ λ eid. add_flagged-Keeps (previous_node eid) (a ∷ rest))

  module _ (out : Outside) where
    bundle_age_block-Keeps : (args : List Argument) → Keeps (bundle_age_block out args)
    unfolding bundle_age_block
    bundle_age_block-Keeps [] = unless_failed-Keeps (λ b. panic) λ b b' n h. absurd (ground arith)
    bundle_age_block-Keeps (a ∷ rest) = unless_failed-Keeps _ (
        going_on-Keeps _ (parse_lifetime out a) _
          λ ms. add_flagged-Keeps (bundle_age ms) (a ∷ rest))

    payload_block-Keeps : (args : List Argument) → Keeps (payload_block out args)
    unfolding payload_block
    payload_block-Keeps [] b b' n h = absurd (ground arith)
    payload_block-Keeps (a ∷ rest) b b' n h = elim (Option-cases (out.binary_write a)) [
      | inl w ↦ returned (failing payload_not_written b) b' n (ground (arith, w, h))
      | inr (written, w) ↦
          canonical-Keeps (extension (payload written) ∷ rest) b b' n (ground (arith, w, h))
    ]

    administrative_record-Keeps : (sr : StatusReport) → Keeps (administrative_record out sr)
    unfolding administrative_record
    administrative_record-Keeps sr = unless_failed-Keeps _ λ b b' n h.
        elim (Result-cases (write_administrative_record out.libs sr)) [
          | inl (written, w) ↦
              payload_block-Keeps (bytes written ∷ [])
                (record b {
                  primary = record b.primary {
                    bundle_control_flags = record_flags out b.primary.bundle_control_flags;
                  };
                })
                b' n (ground (arith, w, h))
          | inr (inl (e, w)) ↦ returned (failing e b) b' n (ground (arith, w, h))
          | inr (inr w) ↦ absurd (ground (arith, w, h))
        ]

    status_report-Keeps : (args : List Argument) → Keeps (status_report out args)
    unfolding status_report
    status_report-Keeps args = unless_failed-Keeps _ λ b b' n h.
        elim (Result-cases (report_of out args)) [
          | inl (sr, w) ↦ administrative_record-Keeps sr b b' n (ground (arith, w, h))
          | inr (inl (e, w)) ↦ returned (failing e b) b' n (ground (arith, w, h))
          | inr (inr w) ↦ absurd (ground (arith, w, h))
        ]

    perform-Keeps : (c : Call) → Keeps (perform out c)
    unfolding perform set_crc destination source report_to creation_timestamp bundle_ctrl_flags
        lifetime
    perform-Keeps (crc t) = unless_failed-Keeps _ λ b b' n h. returned _ b' n h
    perform-Keeps (to_destination a) =
        unless_failed-Keeps _ (keeping-Keeps (parse_endpoint a) _ λ e b n. n)
    perform-Keeps (from_source a) =
        unless_failed-Keeps _ (keeping-Keeps (parse_endpoint a) _ λ e b n. n)
    perform-Keeps (reporting_to a) =
        unless_failed-Keeps _ (keeping-Keeps (parse_endpoint a) _ λ e b n. n)
    perform-Keeps created_epoch = unless_failed-Keeps _ λ b b' n h. returned _ b' n h
    perform-Keeps created_now = unless_failed-Keeps _ λ b b' n h. returned _ b' n h
    perform-Keeps (created_at t) = unless_failed-Keeps _ λ b b' n h. returned _ b' n h
    perform-Keeps (living a) =
        unless_failed-Keeps _ (keeping-Keeps (parse_lifetime out a) _ λ ms b n. n)
    perform-Keeps (with_flags bcf) = unless_failed-Keeps _ λ b b' n h. returned _ b' n h
    perform-Keeps (adding args) = canonical-Keeps args
    perform-Keeps (adding_age args) = bundle_age_block-Keeps args
    perform-Keeps (adding_hops args) = hop_count_block-Keeps args
    perform-Keeps (adding_payload args) = payload_block-Keeps args
    perform-Keeps (adding_previous args) = previous_node_block-Keeps args
    perform-Keeps (recording sr) = administrative_record-Keeps sr
    perform-Keeps (reporting args) = status_report-Keeps args

    run-Keeps : (cs : List Call) → Keeps (run out cs)
    unfolding run
    run-Keeps [] b b' n h = returned b b' n h
    run-Keeps (c ∷ cs) b b' n h =
        let (b₁, q, rest) = then_ok-eq-ok (perform out c b) (run out cs) {b = b'} h in
        run-Keeps cs b₁ b' (perform-Keeps c b b₁ n q) rest

    -- Every chain of calls, whatever the arguments, leads from a numbered builder to a numbered one, if it
    -- does not panic, and the extension blocks that were there stay the first ones.
    pub run-IsNumbered :
        (cs : List Call) (b b' : Builder)
        → IsNumbered base b
        → run out cs b ≡ ok b'
        → IsNumbered base b'
    run-IsNumbered cs b b' n h = run-Keeps cs b b' n h

-- A fresh builder has no blocks.
pub new_builder-IsNumbered : IsNumbered [] new_builder
unfolding new_builder
new_builder-IsNumbered = (refl, refl, tt, inl refl, ([], refl))

-- The blocks that a builder has now are the first of those that it will have.
pub from_here-IsNumbered :
    (base : List CanonicalBlock) (b : Builder) → IsNumbered base b → IsNumbered b.canonicals b
from_here-IsNumbered base b (numbers, counter, types, pay, grown) =
    (numbers, counter, types, pay, ([], sym (append-nil b.canonicals)))
