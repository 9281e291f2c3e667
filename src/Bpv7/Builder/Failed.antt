-- ===== src/Bpv7/Builder/Failed.antt =====
-- A builder that has failed stays failed.
use dtn7_go.Base.{
  ℕ, ◌≡◌, refl, ◌∙◌, ap, inl, inr, List, [], ◌∷◌, some, Result, ok, err, then_ok-eq-ok, Error,
  arith, subst, payload_not_written, Option-cases,
}
use dtn7_go.Bpv7.Builder.{
  Argument, Outside, Builder, set_crc, destination, source, report_to, creation_timestamp,
  bundle_ctrl_flags, canonical, hop_count_block, previous_node_block, lifetime, bundle_age_block,
  payload_block, administrative_record, status_report, build,
}
use dtn7_go.Bpv7.Builder.Calls.{
  Call, crc, to_destination, from_source, reporting_to, created_epoch, created_now, created_at,
  living, with_flags, adding, adding_age, adding_hops, adding_payload, adding_previous, recording,
  reporting, perform, run,
}

-- The same but for the error.
abbrev pub FailedAs : Builder → Builder → Type 0
FailedAs b b' = (e : Error) × (b' ≡ record b { error = some e })

failed_self : (b : Builder) (e : Error) → b.error ≡ some e → FailedAs b b
failed_self b e h = (e, rw (← h) refl)

module _ (out : Outside) where
  payload_block-failed :
      (args : List Argument) (b b' : Builder) (e : Error)
      → b.error ≡ some e
      → payload_block out args b ≡ ok b'
      → FailedAs b b'
  unfolding payload_block canonical
  payload_block-failed [] b b' e h p = absurd (ground arith)
  payload_block-failed (a ∷ rest) b b' e h p = elim (Option-cases (out.binary_write a)) [
    | inl w ↦ (payload_not_written, ground (arith, w))
    | inr (written, w) ↦
        let same : b ≡ b' = ground (arith, w, h) in subst (FailedAs b) same (failed_self b e h)
  ]

  added-failed :
      (args : List Argument) (b : Builder) (e : Error)
      → b.error ≡ some e
      → (hop_count_block args b ≡ ok b)
        × (previous_node_block args b ≡ ok b)
        × (bundle_age_block out args b ≡ ok b)
  unfolding hop_count_block previous_node_block bundle_age_block
  added-failed [] b e h = (rw h refl, rw h refl, rw h refl)
  added-failed (a ∷ rest) b e h = (rw h refl, rw h refl, rw h refl)

  stays :
      {b b' : Builder} {e : Error} {r : Result Builder}
      → b.error ≡ some e
      → r ≡ ok b
      → r ≡ ok b'
      → FailedAs b b'
  stays {b} {b'} {e} h p q =
      let same : b ≡ b' = ground (arith, p, q) in subst (FailedAs b) same (failed_self b e h)

  -- One call on a builder that has failed.
  perform-failed :
      (c : Call) (b b' : Builder) (e : Error)
      → b.error ≡ some e
      → perform out c b ≡ ok b'
      → FailedAs b b'
  unfolding perform set_crc destination source report_to creation_timestamp bundle_ctrl_flags
      canonical lifetime administrative_record status_report
  perform-failed (crc t) b b' e h p = stays h (rw h refl) p
  perform-failed (to_destination a) b b' e h p = stays h (rw h refl) p
  perform-failed (from_source a) b b' e h p = stays h (rw h refl) p
  perform-failed (reporting_to a) b b' e h p = stays h (rw h refl) p
  perform-failed created_epoch b b' e h p = stays h (rw h refl) p
  perform-failed created_now b b' e h p = stays h (rw h refl) p
  perform-failed (created_at t) b b' e h p = stays h (rw h refl) p
  perform-failed (living a) b b' e h p = stays h (rw h refl) p
  perform-failed (with_flags bcf) b b' e h p = stays h (rw h refl) p
  perform-failed (adding args) b b' e h p = stays h (rw h refl) p
  perform-failed (adding_age args) b b' e h p = stays h (added-failed args b e h).2 p
  perform-failed (adding_hops args) b b' e h p = stays h (added-failed args b e h).0 p
  perform-failed (adding_payload args) b b' e h p = payload_block-failed args b b' e h p
  perform-failed (adding_previous args) b b' e h p = stays h (added-failed args b e h).1 p
  perform-failed (recording sr) b b' e h p = stays h (rw h refl) p
  perform-failed (reporting args) b b' e h p = stays h (rw h refl) p

  -- Any chain of calls on a builder that has failed, if it does not panic, changes nothing but the
  -- error that the builder keeps, and `Build` after it returns that error.
  pub run-failed :
      (now : ℕ) (cs : List Call) (b b' : Builder) (e : Error)
      → b.error ≡ some e
      → run out cs b ≡ ok b'
      → (e' : Error) × (b' ≡ record b { error = some e' }) × (build out now b' ≡ err e')
  unfolding run build
  run-failed now [] b b' e h p = let (e', same) = stays h refl p in (e', same, rw same refl)
  run-failed now (c ∷ cs) b b' e h p =
      let (b₁, q, rest) = then_ok-eq-ok (perform out c b) (run out cs) {b = b'} p in
      let (e₁, same) = perform-failed c b b₁ e h q in
      let (e', same', built) =
        run-failed now cs b₁ b' e₁ (ap (λ (x : Builder). x.error) same) rest in
      (e', same' ∙ ap (λ (x : Builder). record x { error = some e' }) same, built)
