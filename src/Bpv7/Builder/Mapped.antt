-- ===== src/Bpv7/Builder/Mapped.antt =====
-- `BuildFromMap` and the calls that it stands for.
use dtn7_go.Base.{
  ℕ, ◌≡◌, refl, ◌↔◌, sym, inl, inr, List, [], ◌∷◌, none, Result, ok, then_ok, then_ok-eq-ok, arith,
  subst, Option-cases,
}
use dtn7_go.Bpv7.Bundle.{Bundle}
use dtn7_go.Bpv7.Builder.{Argument, Outside, Builder, new_builder, build}
use dtn7_go.Bpv7.Builder.Calls.{
  Call, Method, call_of, perform, run, error_free, call_all, build_from_map,
}
use dtn7_go.Bpv7.Builder.Failed.{run-failed}

-- The calls that the entries stand for, if all of them stand for one.
unfoldable pub calls_of : List (Method × Argument) → Result (List Call)
unfolding call_of
calls_of [] = ok []
calls_of ((m, a) ∷ rest) = then_ok (call_of m a) λ c. then_ok (calls_of rest) λ cs. ok (c ∷ cs)

error_free-ok : (b b' : Builder) → error_free b ≡ ok b' → (b.error ≡ none) × (b ≡ b')
error_free-ok b b' h = elim (Option-cases b.error) [
  | inl fine ↦ (fine, ground (arith, fine, h))
  | inr (e, failed) ↦ absurd (ground (arith, failed, h))
]

module _ (out : Outside) where
  call_all-run :
      (entries : List (Method × Argument)) (b b' : Builder)
      → call_all out entries b ≡ ok b'
      → (cs : List Call) × (calls_of entries ≡ ok cs) × (run out cs b ≡ ok b')
  unfolding call_all calls_of run
  call_all-run [] b b' h = ([], refl, h)
  call_all-run ((m, a) ∷ rest) b b' h =
      let (c, p, h₁) = then_ok-eq-ok (call_of m a) _ {b = b'} h in
      let (b₁, q, h₂) = then_ok-eq-ok (perform out c b) _ {b = b'} h₁ in
      let (b₂, free, h₃) = then_ok-eq-ok (error_free b₁) (call_all out rest) {b = b'} h₂ in
      let (_, same) = error_free-ok b₁ b₂ free in
      let (cs, e, r) = call_all-run rest b₂ b' h₃ in
      (c ∷ cs, ground (arith, p, e), ground (arith, q, same, r))

  run-call_all :
      (now : ℕ) (entries : List (Method × Argument)) (cs : List Call) (b b' : Builder)
      (bndl : Bundle)
      → calls_of entries ≡ ok cs
      → run out cs b ≡ ok b'
      → build out now b' ≡ ok bndl
      → call_all out entries b ≡ ok b'
  unfolding call_all calls_of run
  run-call_all now [] cs b b' bndl e r h =
      let none_left : [] ≡ cs = ground (arith, e) in
      subst (λ (l : List Call). run out l b ≡ ok b') (sym none_left) r
  run-call_all now ((m, a) ∷ rest) cs b b' bndl e r h =
      let (c, p, e₁) = then_ok-eq-ok (call_of m a) _ {b = cs} e in
      let (cs₁, q, e₂) = then_ok-eq-ok (calls_of rest) (λ l. ok (c ∷ l)) {b = cs} e₁ in
      let same : c ∷ cs₁ ≡ cs = ground (arith, e₂) in
      let (b₁, s, r₁) =
        then_ok-eq-ok (perform out c b) (run out cs₁) {b = b'}
          (subst (λ (l : List Call). run out l b ≡ ok b') (sym same) r) in
      let rest_fine : call_all out rest b₁ ≡ ok b' = run-call_all now rest cs₁ b₁ b' bndl q r₁ h in
      elim (Option-cases b₁.error) [
        | inl fine ↦ ground (arith, p, s, fine, rest_fine)
        | inr (x, failed) ↦
            let (x', _, built) = run-failed out now cs₁ b₁ b' x failed r₁ in
            absurd (ground (arith, built, h))
      ]

  -- `BuildFromMap` returns a bundle exactly if each entry stands for a call and `Build` returns that
  -- bundle after these calls of a fresh builder, in the order in which the map was visited.
  pub build_from_map-run :
      (now : ℕ) (entries : List (Method × Argument)) (bndl : Bundle)
      → (build_from_map out now entries ≡ ok bndl) ↔ (
          (cs : List Call) × (b : Builder) × (calls_of entries ≡ ok cs)
          × (run out cs new_builder ≡ ok b)
          × (build out now b ≡ ok bndl))
  unfolding build_from_map
  build_from_map-run now entries bndl = (
    λ h.
        let (b, called, built) =
          then_ok-eq-ok (call_all out entries new_builder) (build out now) {b = bndl} h in
        let (cs, e, r) = call_all-run entries new_builder b called in (cs, b, e, r, built),
    λ (cs, b, e, r, built). rw (run-call_all now entries cs new_builder b bndl e r built) built,
  )
