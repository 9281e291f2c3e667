-- ===== src/Routing/Spray/Received.antt =====
-- A received bundle that carries a spray block.
use dtn7_go.Base.{
  ℕ, ◌≡◌, List, Bool, true, false, some, Option-cases, Result, ok, panic, arith, Reader, >>=-eq-ok,
  inl, inr, wrap, require, ◌==◌, ◌||◌, wrong_length,
}
use dtn7_go.Cbor.{Libs}
use dtn7_go.Cbor.Laws.{read_byte_string}
use dtn7_go.Bpv7.Extension.{
  ExtensionBlock, BlockKind, read_block, payload, previous_node, bundle_age, hop_count,
  binary_spray, generic, payload_kind, previous_node_kind, bundle_age_kind, hop_count_kind,
  binary_spray_kind, unmarshal_value, block_type_binary_spray,
}
use dtn7_go.Bpv7.Extension.Registry.{known_kind, default_manager}
use dtn7_go.Bpv7.Bundle.{Bundle, extension_block_by_type}
use dtn7_go.Bpv7.Canonical.{
  CanonicalBlock, unmarshal_canonical, unmarshal_canonical_from, read_canonical_crc,
}
use dtn7_go.Store.Descriptor.{Descriptor}
use dtn7_go.Routing.Spray.{notify_received_bundle}

is_spray : ExtensionBlock → Bool
is_spray (payload bytes) = false
is_spray (previous_node eid) = false
is_spray (bundle_age ms) = false
is_spray (hop_count hcb) = false
is_spray (binary_spray copies) = true
is_spray (generic code bytes) = false

is_spray_kind : BlockKind → Bool
is_spray_kind payload_kind = false
is_spray_kind previous_node_kind = false
is_spray_kind bundle_age_kind = false
is_spray_kind hop_count_kind = false
is_spray_kind binary_spray_kind = true

default_kind :
    (code : ℕ) (k : BlockKind) → known_kind default_manager code ≡ some k → is_spray_kind k ≡ false
unfolding known_kind default_manager is_spray_kind
default_kind code k h = ground (arith, h)

module _ (lib : Libs) where
  made-is_spray :
      (k : BlockKind) (bytes : List ℕ) (b : ExtensionBlock)
      → is_spray_kind k ≡ false
      → unmarshal_value lib k bytes ≡ ok b
      → is_spray b ≡ false
  unfolding unmarshal_value is_spray is_spray_kind
  made-is_spray payload_kind bytes b n h = ground (arith, h)
  made-is_spray previous_node_kind bytes b n h = ground (arith, h)
  made-is_spray bundle_age_kind bytes b n h = ground (arith, h)
  made-is_spray hop_count_kind bytes b n h = ground (arith, h)
  made-is_spray binary_spray_kind bytes b n h = absurd (ground (arith, n))

  read_block-is_spray :
      (code : ℕ) (s s' : List ℕ) (b : ExtensionBlock)
      → read_block lib (known_kind default_manager) code s ≡ ok (b, s')
      → is_spray b ≡ false
  unfolding read_block is_spray
  read_block-is_spray code s s' b h =
      let (bytes, rest, read, lifted) = >>=-eq-ok (read_byte_string lib) _ s h in
      elim (Option-cases (known_kind default_manager code)) [
        | inl unknown ↦ ground (arith, unknown, lifted)
        | inr (k, known) ↦
            ground (arith, known, lifted, made-is_spray k bytes b (default_kind code k known))
      ]

  wrap-eq-ok {ℓ} :
      {A : Type ℓ} (m : Reader A) (s : List ℕ) (r : A × List ℕ) → wrap m s ≡ ok r → m s ≡ ok r
  wrap-eq-ok m s r h = ground (arith, h)

  -- No block that was read with the default manager holds a `BinarySprayBlock`.
  unmarshal_canonical-is_spray :
      (s s' : List ℕ) (cb : CanonicalBlock)
      → unmarshal_canonical lib (known_kind default_manager) s ≡ ok (cb, s')
      → (b : ExtensionBlock) × (cb.value ≡ some b) × (is_spray b ≡ false)
  unfolding unmarshal_canonical unmarshal_canonical_from
  unmarshal_canonical-is_spray s s' cb h =
      let (bl, s1, r1, h1) = >>=-eq-ok lib.read_array_length _ s h in
      let (u, s2, r2, h2) = >>=-eq-ok (require (bl == 5 || bl == 6) (wrong_length bl)) _ s1 h1 in
      let (code, s3, r3, h3) = >>=-eq-ok lib.read_uint _ s2 h2 in
      let (number, s4, r4, h4) = >>=-eq-ok lib.read_uint _ s3 h3 in
      let (flags, s5, r5, h5) = >>=-eq-ok lib.read_uint _ s4 h4 in
      let (crc_type, s6, r6, h6) = >>=-eq-ok lib.read_uint _ s5 h5 in
      let (b, s7, r7, h7) =
        >>=-eq-ok (wrap (read_block lib (known_kind default_manager) code)) _ s6 h6 in
      let (crc, s8, r8, h8) = >>=-eq-ok (read_canonical_crc lib _ bl crc_type) _ s7 h7 in
      let block : CanonicalBlock = record {
        block_number = number;
        block_control_flags = flags;
        crc_type = crc_type;
        crc = crc;
        value = some b;
      } in
      let e : Path (Result (CanonicalBlock × List ℕ)) (ok (block, s8)) (ok (cb, s')) = h8 in
      (
        b,
        ground (arith, e),
        read_block-is_spray code s6 s7 b
            (wrap-eq-ok (read_block lib (known_kind default_manager) code) s6 (b, s7) r7),
      )

  -- A bundle whose one block of the spray type was read from the wire with the default manager makes
  -- `NotifyReceivedBundle` panic, whatever the wire held: the block is no `BinarySprayBlock`.
  pub notify_received_bundle-panics :
      (s s' : List ℕ) (cb : CanonicalBlock) (d : Descriptor) (b : Bundle)
      → unmarshal_canonical lib (known_kind default_manager) s ≡ ok (cb, s')
      → extension_block_by_type block_type_binary_spray b ≡ ok cb
      → notify_received_bundle d b ≡ panic
  unfolding notify_received_bundle is_spray
  notify_received_bundle-panics s s' cb d b read found =
      let (v, value, other) = unmarshal_canonical-is_spray s s' cb read in
      ground (arith, found, value, other)
