-- ===== src/Store/Bundles/Expiry.antt =====
-- When the store takes a bundle for expired, and when the bundle's own test does.
use dtn7_go.Base.{
  ℕ, ◌+◌, ◌*◌, ◌^◌, ◌<◌, ◌≡◌, ◌∙◌, ap, true, false, ltb, Option, ok, arith, if◌then◌else◌, ◌==◌,
  some,
}
use dtn7_go.Bpv7.Endpoint.{EndpointId}
use dtn7_go.Bpv7.Time.{is_zero_time}
use dtn7_go.Bpv7.Extension.{bundle_age, block_type_bundle_age}
use dtn7_go.Bpv7.Canonical.{CanonicalBlock}
use dtn7_go.Bpv7.Bundle.{Bundle, extension_block_by_type}
use dtn7_go.Bpv7.Bundle.Check.{is_lifetime_exceeded, after_max_timestamp, aged_out}
use dtn7_go.Bpv7.Bundle.Lifetime.{compares}
use dtn7_go.Store.Descriptor.{new_descriptor}
use dtn7_go.Store.Disk.{Surroundings, new_metadata, expiry}
use dtn7_go.Store.Bundles.{is_expired}

module _ {D : Type 0} (env : Surroundings D) where
  -- A bundle with a creation time is expired to the store, whoever sent it, just when its lifetime is
  -- exceeded.
  pub is_expired-dated :
      (now : ℕ) (node_id : EndpointId) (b : Bundle) (prev : Option EndpointId)
      → is_zero_time b.primary_block.creation_timestamp ≡ false
      → is_lifetime_exceeded now b
        ≡ ok (is_expired now (new_descriptor (new_metadata env node_id b prev)))
  unfolding is_lifetime_exceeded is_expired new_descriptor new_metadata expiry after_max_timestamp
  is_expired-dated now node_id b prev dated = ground (arith, dated)

  -- A bundle without a creation time whose age is within its lifetime is expired to the store all the
  -- same, from its lifetime after the first moment of the year 2000 on.
  pub is_expired-undated :
      (now : ℕ) (node_id : EndpointId) (b : Bundle) (prev : Option EndpointId) (cb : CanonicalBlock)
      (age : ℕ)
      → b.primary_block.creation_timestamp.dtn_time ≡ 0
      → extension_block_by_type block_type_bundle_age b ≡ ok cb
      → cb.value ≡ some (bundle_age age)
      → ltb b.primary_block.lifetime age ≡ false
      → b.primary_block.lifetime * 1_000_000 < 2 ^ 63
      → 946_684_800_000 * 1_000_000 + b.primary_block.lifetime * 1_000_000 < now
      → (is_lifetime_exceeded now b ≡ ok false)
        × (is_expired now (new_descriptor (new_metadata env node_id b prev)) ≡ true)
  unfolding is_lifetime_exceeded is_expired new_descriptor new_metadata expiry is_zero_time
  is_expired-undated now node_id b prev cb age undated aged value young small late =
      let since_2000 = compares now 0 b.primary_block.lifetime (omega arith) small in
      (
        ap
              (λ (t : ℕ).
                if t == 0
                then aged_out b.primary_block.lifetime
                    (extension_block_by_type block_type_bundle_age b)
                else ok (after_max_timestamp now b.primary_block))
              undated
            ∙ ap (aged_out b.primary_block.lifetime) aged
            ∙ ground (arith, value, young),
        ground (arith, undated, since_2000, late),
      )
