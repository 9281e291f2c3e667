-- ===== src/Bpv7/Bundle/Wire/Valid.antt =====
-- What is known of a bundle that was parsed.
use dtn7_go.Base.{
  ℕ, suc, ◌≡◌, refl, List, [], ◌∷◌, Option, Error, Result, ok, err, panic, then_ok, wrap, length,
  arith, subst,
}
use dtn7_go.Cbor.{Libs}
use dtn7_go.Bpv7.Primary.{unmarshal_primary}
use dtn7_go.Bpv7.Extension.{BlockKind}
use dtn7_go.Bpv7.Canonical.{empty_block}
use dtn7_go.Bpv7.Bundle.{Bundle}
use dtn7_go.Bpv7.Bundle.Check.{check_valid}
use dtn7_go.Bpv7.Bundle.Wire.{accepted, finish, read_blocks, parse_bundle}

-- A chain of results that succeeds, taken apart.
then_ok-eq-ok {ℓ κ} :
    {A : Type ℓ} {B : Type κ} (r : Result A) (f : A → Result B) (b : B)
    → then_ok r f ≡ ok b
    → (a : A) × (r ≡ ok a) × (f a ≡ ok b)
then_ok-eq-ok (ok a) f b h = (a, refl, h)
then_ok-eq-ok (err e) f b h = absurd (ground (arith, h))
then_ok-eq-ok panic f b h = absurd (ground (arith, h))

accepted-valid :
    (r : Result (List Error)) (b b' : Bundle) → accepted r b ≡ ok b' → (r ≡ ok []) × (b ≡ b')
accepted-valid (ok []) b b' h = (refl, unwrapped h)
  where
    unwrapped : Path (Result Bundle) (ok b) (ok b') → b ≡ b'
    unwrapped e = ground (arith, e)
accepted-valid (ok (e ∷ es)) b b' h = absurd (ground (arith, h))
accepted-valid (err e) b b' h = absurd (ground (arith, h))
accepted-valid panic b b' h = absurd (ground (arith, h))

-- Whatever bytes come in and whatever block types are known: a bundle that is parsed at some time
-- passes every check of `CheckValid` at that time.
pub parse_bundle-valid :
    (lib : Libs) (known : ℕ → Option BlockKind) (now : ℕ) (s : List ℕ) (b : Bundle)
    → parse_bundle lib known now s ≡ ok b
    → check_valid now b ≡ ok []
unfolding parse_bundle
parse_bundle-valid lib known now s b h =
    let (start, r1, h1) = then_ok-eq-ok (lib.read_expect lib.indefinite_array s) _ b h in
    let (p, r2, h2) = then_ok-eq-ok (wrap (unmarshal_primary lib) start.1) _ b h1 in
    let (bs, r3, h3) =
      then_ok-eq-ok (read_blocks lib known (suc (length p.1)) ([], empty_block) p.1)
        (finish now p.0) b h2 in
    let (valid, same) = accepted-valid (check_valid now _) _ b h3 in
    subst (λ (c : Bundle). check_valid now c ≡ ok []) same valid
