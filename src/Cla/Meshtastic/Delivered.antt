-- ===== src/Cla/Meshtastic/Delivered.antt =====
-- The packets of one bundle, in any order.
use dtn7_go.Base.{
  length-set, ℕ, suc, ◌+◌, ◌<◌, ◌≡◌, ◌≢◌, ◌∙◌, sym, ap, subst, refl, List, [], ◌∷◌, length,
  get_elem?, Option, none, some, get, set, remove, KeysDiffer, ℕ_discrete, get-set, get-remove, All,
  ok, arith,
}
use dtn7_go.Cbor.{Libs}
use dtn7_go.Bpv7.Extension.{BlockKind}
use dtn7_go.Bpv7.Bundle.{Bundle}
use dtn7_go.Bpv7.Bundle.Wire.{parse_bundle}
use dtn7_go.Cla.Meshtastic.{chunk_packet, split_chunks}
use dtn7_go.Cla.Meshtastic.Reassembly.{
  ReassemblyBuffer, Reassembly, Slice, with_chunk, receive_packets,
}
use dtn7_go.Cla.Meshtastic.Chunks.{joined, IsSmall, joined-split_chunks, split_chunks-IsSmall}
use dtn7_go.Cla.Meshtastic.Completed.{Chunks, found, AreChunksOf}
use dtn7_go.Cla.Meshtastic.Stored.{
  held, IsBufferOf, numbered, with_chunk-chunks, with_chunk-IsBufferOf,
}
use dtn7_go.Cla.Meshtastic.Received.{received_before, received_last}

-- The packets of these chunks, in the order they have here; `spare` is what happens to stand in the
-- array behind the packet.
abbrev pub packets_in_order : ℕ → ℕ → (ℕ → List ℕ) → Chunks → List Slice
packets_in_order id total spare [] = []
packets_in_order id total spare ((i, c) ∷ order) =
    record { content = chunk_packet id i total c; spare = spare i }
    ∷ packets_in_order id total spare order

-- The buffer of this bundle is gone, and all others are as before.
abbrev pub IsWithout : ℕ → Reassembly → Reassembly → Type 0
IsWithout id m m' =
    (get ℕ_discrete id m' ≡ none) × ((k : ℕ) → k ≢ id → get ℕ_discrete k m' ≡ get ℕ_discrete k m)

-- The chunks that are still to come are right, and the buffer has none of them.
record IsToCome (all : List (List ℕ)) (o : Option ReassemblyBuffer) (order : Chunks) : Type 0 where
  differ : KeysDiffer ℕ_discrete order
  right : (j : ℕ) (c : List ℕ) → found j order ≡ some c → get_elem? all j ≡ some c
  not_held : (j : ℕ) (c : List ℕ) → found j order ≡ some c → found j (held o) ≡ none

first_found : (i : ℕ) (c : List ℕ) (order : Chunks) → found i ((i, c) ∷ order) ≡ some c
unfolding get
first_found i c order = ground arith

later_found :
    (i j : ℕ) (c d : List ℕ) (order : Chunks)
    → found i order ≡ none
    → found j order ≡ some d
    → (j ≢ i) × (found j ((i, c) ∷ order) ≡ some d)
unfolding get
later_found i j c d order free h =
    let differ : j ≢ i = λ same. absurd (ground (arith, same, free, h)) in
    (differ, ground (arith, differ, h))

module _ (lib : Libs) (known : ℕ → Option BlockKind) (all : List (List ℕ)) (now id : ℕ) where
  rest-IsToCome :
      (i : ℕ) (c : List ℕ) (order : Chunks) (o : Option ReassemblyBuffer)
      → IsToCome all o ((i, c) ∷ order)
      → IsToCome all (some (with_chunk now (numbered all now id i c) o)) order
  rest-IsToCome i c order o come = record {
    differ = come.differ.1;
    right = λ j d h. come.right j d (later_found i j c d order come.differ.0 h).1;
    not_held = λ j d h.
        let (differ, there) = later_found i j c d order come.differ.0 h in
        ap (found j) (with_chunk-chunks all now id i c o)
        ∙ ground (arith, differ, get-set ℕ_discrete j i c (held o), come.not_held j d there);
  }

  gone :
      (m : Reassembly) (rb : ReassemblyBuffer)
      → IsWithout id m (remove ℕ_discrete id (set ℕ_discrete id rb m))
  gone m rb = (
    ground (arith, get-remove ℕ_discrete id id (set ℕ_discrete id rb m)),
    λ k differ. ground (
      arith,
      differ,
      get-remove ℕ_discrete k id (set ℕ_discrete id rb m),
      get-set ℕ_discrete k id rb m,
    ),
  )

  without_again :
      (m m' : Reassembly) (rb : ReassemblyBuffer)
      → IsWithout id (set ℕ_discrete id rb m) m'
      → IsWithout id m m'
  without_again m m' rb (none_left, others) = (
    none_left,
    λ k differ. others k differ ∙ ground (arith, differ, get-set ℕ_discrete k id rb m),
  )

  module _ (few : length all < 256) (small : All IsSmall all) (id_fits : id < 4294967296)
      (spare : ℕ → List ℕ) (b : Bundle)
      (parsed : parse_bundle lib known now (joined all) ≡ ok b) where
    rest_received :
        (i : ℕ) (c : List ℕ) (order : Chunks) (m : Reassembly)
        → IsBufferOf all (get ℕ_discrete id m)
        → IsToCome all (get ℕ_discrete id m) ((i, c) ∷ order)
        → length (held (get ℕ_discrete id m)) + suc (length order) ≡ length all
        → (m' : Reassembly) × (receive_packets lib known now
              (packets_in_order id (length all) spare ((i, c) ∷ order))
              m
            ≡ ok (m', b ∷ []))
          × IsWithout id m m'
    unfolding receive_packets
    rest_received i c [] m of come count =
        let right = come.right i c (first_found i c []) in
        let free = come.not_held i c (first_found i c []) in
        let last =
          received_last lib known all now id few small id_fits i c m b of right free
            (omega (arith, count)) parsed (spare i) in
        let rb = with_chunk now (numbered all now id i c) (get ℕ_discrete id m) in
        (remove ℕ_discrete id (set ℕ_discrete id rb m), rw (receive_packets, last) refl, gone m rb)
    rest_received i c ((j, d) ∷ order) m of come count =
        let o = get ℕ_discrete id m in
        let right = come.right i c (first_found i c ((j, d) ∷ order)) in
        let free = come.not_held i c (first_found i c ((j, d) ∷ order)) in
        let rb = with_chunk now (numbered all now id i c) o in
        let m1 = set ℕ_discrete id rb m in
        let now_held : some rb ≡ get ℕ_discrete id m1 =
          ground (arith, get-set ℕ_discrete id id rb m) in
        let first =
          received_before lib known all now id few small id_fits i c m of right free
            (omega (arith, count)) (spare i) in
        let longer : length (held (some rb)) ≡ suc (length (held o)) =
          ap length (with_chunk-chunks all now id i c o)
          ∙ length-set ℕ_discrete i c (held o) free in
        let counted : length (held (some rb)) + suc (length order) ≡ length all =
          omega (arith, longer, count) in
        let (m', more, without) =
          rest_received j d order m1
            (subst (IsBufferOf all) now_held (with_chunk-IsBufferOf all now id i c o of right))
            (subst (λ x. IsToCome all x ((j, d) ∷ order)) now_held
              (rest-IsToCome i c ((j, d) ∷ order) o come))
            (subst (λ x. length (held x) + suc (length order) ≡ length all) now_held counted) in
        (m', rw (receive_packets, first, more) refl, without_again m m' rb without)

pub no_buffer : (all : List (List ℕ)) → IsBufferOf all none
unfolding get
no_buffer all = record {
  chunks_right = record { keys_differ = tt; right = λ i c h. absurd (ground (arith, h)) };
  total_right = λ rb h. absurd (ground (arith, h));
}

order-IsToCome :
    (all : List (List ℕ)) (order : Chunks) → AreChunksOf all order → IsToCome all none order
unfolding get
order-IsToCome all order of = record {
  differ = of.keys_differ;
  right = of.right;
  not_held = λ j c h. refl;
}

module _ (lib : Libs) (known : ℕ → Option BlockKind) where
  -- A server that knows nothing of a bundle and is given the packets of its chunks at one time, each
  -- once and in any order, hands the bundle that can be parsed of its bytes to the callback exactly once. It keeps
  -- nothing of the bundle then, and its buffers of other bundles are as before. The bytes are cut into
  -- less than 256 chunks, and are not empty.
  pub receive-split_chunks :
      (now id : ℕ) (bytes : List ℕ) (b : Bundle) (order : Chunks) (spare : ℕ → List ℕ)
      (m : Reassembly)
      → parse_bundle lib known now bytes ≡ ok b
      → 0 < length bytes
      → length (split_chunks bytes) < 256
      → id < 4294967296
      → AreChunksOf (split_chunks bytes) order
      → length order ≡ length (split_chunks bytes)
      → get ℕ_discrete id m ≡ none
      → (m' : Reassembly) × (receive_packets lib known now
            (packets_in_order id (length (split_chunks bytes)) spare order)
            m
          ≡ ok (m', b ∷ []))
        × IsWithout id m m'
  receive-split_chunks now id bytes b [] spare m parsed some_bytes few id_fits of count free =
      absurd (no_chunks (split_chunks bytes) refl count)
    where
      no_chunks :
          (all : List (List ℕ)) → split_chunks bytes ≡ all → 0 ≡ length (split_chunks bytes) → ⊥
      no_chunks [] e h =
          let empty : bytes ≡ [] = sym (joined-split_chunks bytes) ∙ ap joined e in
          omega (arith, some_bytes, ap length empty)
      no_chunks (x ∷ all) e h = omega (arith, h, ap length e)
  receive-split_chunks now id bytes b ((i, c) ∷ order) spare m parsed some_bytes few id_fits of
        count free =
      let all = split_chunks bytes in
      rest_received lib known all now id few (split_chunks-IsSmall bytes) id_fits spare b
        (ap (parse_bundle lib known now) (joined-split_chunks bytes) ∙ parsed) i c order m
        (subst (IsBufferOf all) (sym free) (no_buffer all))
        (subst (λ o. IsToCome all o ((i, c) ∷ order)) (sym free)
          (order-IsToCome all ((i, c) ∷ order) of))
        (ap (λ o. length (held o) + suc (length order)) free
          ∙ (let e : 0 + suc (length order) ≡ suc (length order) = omega arith in e)
          ∙ count)
