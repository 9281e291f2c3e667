-- ===== src/Cla/Meshtastic/Sent.antt =====
-- From the client's `Send` to the server's callback.
use dtn7_go.Base.{
  ℕ, zero, suc, ◌+◌, ◌<◌, ◌≡◌, ◌∙◌, sym, ap, subst, refl, List, [], ◌∷◌, ◌++◌, append-nil,
  append_assoc, map, length, get_elem?, Option, none, some, get, KeysDiffer, ℕ_discrete, ok, arith,
  Result, then_ok-eq-ok, then_ok, wrap_err,
}
use dtn7_go.Cbor.{Libs}
use dtn7_go.Cbor.Laws.{CborLaws}
use dtn7_go.Bpv7.Extension.{BlockKind}
use dtn7_go.Bpv7.Bundle.{Bundle}
use dtn7_go.Bpv7.Bundle.Check.{check_valid}
use dtn7_go.Bpv7.Primary.{PrimaryBlock, marshal_primary}
use dtn7_go.Bpv7.Canonical.{CanonicalBlock, marshal_canonical}
use dtn7_go.Bpv7.Bundle.Wire.{marshal_bundle, marshal_blocks, parse_bundle}
use dtn7_go.Bpv7.Bundle.Wire.RoundTrip.{BundleFits, parse-marshal_bundle}
use dtn7_go.Cla.Meshtastic.{
  split_chunks, chunk_packet, packets_from, bundle_packets, chunk_bundle_id, send_packets,
  send_bundle,
}
use dtn7_go.Cla.Meshtastic.Reassembly.{Reassembly, Slice, receive_packets}
use dtn7_go.Cla.Meshtastic.Completed.{Chunks, found, AreChunksOf}
use dtn7_go.Cla.Meshtastic.Delivered.{packets_in_order, IsWithout, receive-split_chunks}

-- A transport that takes every packet: its state is what has been sent.
abbrev pub take_packet : List (List ℕ) → List ℕ → List (List ℕ) × Result (Unit {0})
take_packet sent packet = (sent ++ (packet ∷ []), ok tt)

-- A packet as the other side's transport returns it, in an array of its size.
abbrev pub as_slice : List ℕ → Slice
as_slice packet = record { content = packet; spare = [] }

send_packets-take_packet :
    (packets sent : List (List ℕ))
    → send_packets take_packet packets sent ≡ (sent ++ packets, ok tt)
unfolding send_packets
send_packets-take_packet [] sent = ap (λ ps. (ps, ok tt)) (sym (append-nil sent))
send_packets-take_packet (p ∷ packets) sent =
    send_packets-take_packet packets (sent ++ (p ∷ []))
    ∙ ap (λ ps. (ps, ok tt)) (append_assoc sent (p ∷ []) packets)

-- The chunks with their positions.
abbrev pub positions : ℕ → List (List ℕ) → Chunks
positions i [] = []
positions i (c ∷ chunks) = (i, c) ∷ positions (suc i) chunks

packets_from-positions :
    (id total i : ℕ) (chunks : List (List ℕ))
    → map as_slice (packets_from id total i chunks)
      ≡ packets_in_order id total (λ _. []) (positions i chunks)
unfolding packets_from
packets_from-positions id total i [] = refl
packets_from-positions id total i (c ∷ chunks) =
    ap (◌∷◌ (as_slice (chunk_packet id i total c))) (packets_from-positions id total (suc i) chunks)

earlier_free : (j i : ℕ) (chunks : List (List ℕ)) → j < i → found j (positions i chunks) ≡ none
unfolding get
earlier_free j i [] h = refl
earlier_free j i (c ∷ chunks) h =
    ground (arith, h, earlier_free j (suc i) chunks (omega (arith, h)))

positions-KeysDiffer : (i : ℕ) (chunks : List (List ℕ)) → KeysDiffer ℕ_discrete (positions i chunks)
positions-KeysDiffer i [] = tt
positions-KeysDiffer i (c ∷ chunks) =
    (earlier_free i (suc i) chunks (omega arith), positions-KeysDiffer (suc i) chunks)

positions_right :
    (i j : ℕ) (c : List ℕ) (chunks : List (List ℕ))
    → found (i + j) (positions i chunks) ≡ some c
    → get_elem? chunks j ≡ some c
unfolding get
positions_right i j c [] h = absurd (ground (arith, h))
positions_right i zero c (x ∷ chunks) h = ground (arith, h)
positions_right i (suc j) c (x ∷ chunks) h =
    let e : i + suc j ≡ suc i + j = omega arith in
    positions_right (suc i) j c chunks
      (ap (λ k. found k (positions (suc i) chunks)) (sym e) ∙ ground (arith, h))

length-positions_of : (i : ℕ) (chunks : List (List ℕ)) → length (positions i chunks) ≡ length chunks
length-positions_of i [] = refl
length-positions_of i (c ∷ chunks) = ap suc (length-positions_of (suc i) chunks)

positions-AreChunksOf : (chunks : List (List ℕ)) → AreChunksOf chunks (positions 0 chunks)
positions-AreChunksOf chunks = record {
  keys_differ = positions-KeysDiffer 0 chunks;
  right = λ i c h.
      let e : 0 + i ≡ i = omega arith in
      positions_right 0 i c chunks (ap (λ k. found k (positions 0 chunks)) e ∙ h);
}

ok-injective {ℓ} : {A : Type ℓ} {a b : A} → Path (Result A) (ok a) (ok b) → a ≡ b
ok-injective {A} {a} h = ap (λ (r : Result A). elim r [ ok x ↦ x | _ ↦ a ]) h

module _ (lib : Libs) where
  abbrev after_extensions :
      List ℕ × PrimaryBlock
      → List ℕ × List CanonicalBlock
      → List ℕ × CanonicalBlock
      → Result (List ℕ × Bundle)
  after_extensions p es w = ok (
    lib.indefinite_array ∷ (p.0 ++ (es.0 ++ (w.0 ++ (lib.break_code ∷ [])))),
    record { primary_block = p.1; extension_blocks = es.1; payload_block = w.1 },
  )

  abbrev after_primary :
      Bundle → List ℕ × PrimaryBlock → List ℕ × List CanonicalBlock → Result (List ℕ × Bundle)
  after_primary b p es =
      then_ok (wrap_err (marshal_canonical lib b.payload_block)) (after_extensions p es)

  written_not_empty :
      (b b' : Bundle) (bytes : List ℕ) → marshal_bundle lib b ≡ ok (bytes, b') → 0 < length bytes
  unfolding marshal_bundle
  written_not_empty b b' bytes h =
      let (p, p_written, h1) =
        then_ok-eq-ok (wrap_err (marshal_primary lib b.primary_block))
          (λ p. then_ok (marshal_blocks lib b.extension_blocks) (after_primary b p)) h in
      let (es, es_written, h2) =
        then_ok-eq-ok (marshal_blocks lib b.extension_blocks) (after_primary b p) h1 in
      let (w, w_written, h3) =
        then_ok-eq-ok (wrap_err (marshal_canonical lib b.payload_block)) (after_extensions p es)
          h2 in
      ground (arith, h3)

  send_bundle-take_packet :
      (b b' : Bundle) (bytes : List ℕ)
      → marshal_bundle lib b ≡ ok (bytes, b')
      → send_bundle take_packet lib b [] ≡ (bundle_packets (chunk_bundle_id b) bytes, ok tt)
  unfolding send_bundle
  send_bundle-take_packet b b' bytes h =
      rw (send_bundle, h) (send_packets-take_packet (bundle_packets (chunk_bundle_id b) bytes) [])

  module _ (laws : CborLaws lib) (known : ℕ → Option BlockKind) where
    pub parsed_back :
        (now : ℕ) (b b' : Bundle) (bytes : List ℕ)
        → BundleFits lib known b
        → check_valid now b ≡ ok []
        → marshal_bundle lib b ≡ ok (bytes, b')
        → parse_bundle lib known now bytes ≡ ok b'
    parsed_back now b b' bytes fits valid written =
        let (bs, b'', written', same, parsed) =
          parse-marshal_bundle lib laws known now b fits valid in
        let e : (bs, b'') ≡ (bytes, b') = ok-injective (sym written' ∙ written) in
        subst (λ w. parse_bundle lib known now (w.0) ≡ ok (w.1)) e parsed

    -- A bundle that is valid and whose blocks can be read back is sent without an error by a
    -- transport that takes all packets. A server that has no chunk of an ID like the bundle's, and is
    -- given what was sent at a time at which the bundle is valid, hands over this one bundle, as it is
    -- after it has been written, and keeps nothing of it. The bundle's bytes are cut into less than 256 chunks.
    pub receive-send_bundle :
        (now : ℕ) (b b' : Bundle) (bytes : List ℕ) (m : Reassembly)
        → BundleFits lib known b
        → check_valid now b ≡ ok []
        → marshal_bundle lib b ≡ ok (bytes, b')
        → length (split_chunks bytes) < 256
        → get ℕ_discrete (chunk_bundle_id b) m ≡ none
        → (sent : List (List ℕ)) × (send_bundle take_packet lib b [] ≡ (sent, ok tt))
          × ((m' : Reassembly) × (receive_packets lib known now (map as_slice sent) m
                ≡ ok (m', b' ∷ []))
              × IsWithout (chunk_bundle_id b) m m')
    unfolding bundle_packets
    receive-send_bundle now b b' bytes m fits valid written few free =
        let parsed = parsed_back now b b' bytes fits valid written in
        let chunks = split_chunks bytes in
        let id = chunk_bundle_id b in
        let (m', got, without) =
          receive-split_chunks lib known now id bytes b' (positions 0 chunks) (λ _. []) m parsed
            (written_not_empty b b' bytes written) few (omega arith) (positions-AreChunksOf chunks)
            (length-positions_of 0 chunks) free in
        (
          bundle_packets id bytes,
          send_bundle-take_packet b b' bytes written,
          (
            m',
            ap (λ ps. receive_packets lib known now ps m)
                  (packets_from-positions id (length chunks) 0 chunks)
                ∙ got,
            without,
          ),
        )
