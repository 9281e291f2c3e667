-- ===== src/Cla/Meshtastic/Received.antt =====
-- One packet of a bundle: what a round of the server's loop does with it.
use dtn7_go.Base.{
  length-set, ℕ, suc, ◌<◌, ◌≡◌, ◌∙◌, ap, refl, List, [], ◌∷◌, length, get_elem?, Option, none, some,
  get, set, remove, ℕ_discrete, All, ok, arith, zero,
}
use dtn7_go.Cbor.{Libs}
use dtn7_go.Bpv7.Extension.{BlockKind}
use dtn7_go.Bpv7.Bundle.{Bundle}
use dtn7_go.Bpv7.Bundle.Wire.{parse_bundle}
use dtn7_go.Cla.Meshtastic.{chunk_packet}
use dtn7_go.Cla.Meshtastic.Reassembly.{
  Reassembly, with_chunk, store_chunk, handed_over, receive_packet,
}
use dtn7_go.Cla.Meshtastic.Chunks.{joined, IsSmall, parse-chunk_packet}
use dtn7_go.Cla.Meshtastic.Completed.{found}
use dtn7_go.Cla.Meshtastic.Stored.{held, IsBufferOf, numbered, stored_incomplete, stored_complete}

chunk-IsSmall :
    (all : List (List ℕ)) (i : ℕ) (c : List ℕ)
    → All IsSmall all
    → get_elem? all i ≡ some c
    → IsSmall c × (i < length all)
chunk-IsSmall [] i c small h = absurd (ground (arith, h))
chunk-IsSmall (x ∷ all) zero c (s, small) h = (ground (arith, h, s), omega arith)
chunk-IsSmall (x ∷ all) (suc i) c (s, small) h =
    let (s', below) = chunk-IsSmall all i c small h in (s', omega (arith, below))

module _ (lib : Libs) (known : ℕ → Option BlockKind) (all : List (List ℕ)) (now id : ℕ) where
  module _ (few : length all < 256) (small : All IsSmall all) (id_fits : id < 4294967296) where
    received :
        (i : ℕ) (c spare : List ℕ) (m : Reassembly)
        → get_elem? all i ≡ some c
        → receive_packet lib known now
            (record { content = chunk_packet id i (length all) c; spare = spare })
            m
          ≡ handed_over lib known now (store_chunk now (numbered all now id i c) m)
    unfolding receive_packet store_chunk
    received i c spare m h =
        let (short, below) = chunk-IsSmall all i c small h in
        let parsed =
          parse-chunk_packet id i (length all) c spare id_fits (omega (arith, below, few))
            (omega (arith, few)) short in
        rw (receive_packet, parsed) refl

    pub received_before :
        (i : ℕ) (c : List ℕ) (m : Reassembly)
        → IsBufferOf all (get ℕ_discrete id m)
        → get_elem? all i ≡ some c
        → found i (held (get ℕ_discrete id m)) ≡ none
        → suc (length (held (get ℕ_discrete id m))) < length all
        → (spare : List ℕ)
        → receive_packet lib known now
            (record { content = chunk_packet id i (length all) c; spare = spare })
            m
          ≡ ok (
            set ℕ_discrete id (with_chunk now (numbered all now id i c) (get ℕ_discrete id m)) m,
            [],
          )
    received_before i c m of h free less spare =
        let held_now = held (get ℕ_discrete id m) in
        received i c spare m h
        ∙ ap (handed_over lib known now) (
            stored_incomplete all now id i c m of few
              (omega (arith, length-set ℕ_discrete i c held_now free, less)))

    pub received_last :
        (i : ℕ) (c : List ℕ) (m : Reassembly) (b : Bundle)
        → IsBufferOf all (get ℕ_discrete id m)
        → get_elem? all i ≡ some c
        → found i (held (get ℕ_discrete id m)) ≡ none
        → suc (length (held (get ℕ_discrete id m))) ≡ length all
        → parse_bundle lib known now (joined all) ≡ ok b
        → (spare : List ℕ)
        → receive_packet lib known now
            (record { content = chunk_packet id i (length all) c; spare = spare })
            m
          ≡ ok (
            remove ℕ_discrete id (
                set ℕ_discrete id
                  (with_chunk now (numbered all now id i c) (get ℕ_discrete id m))
                  m),
            b ∷ [],
          )
    received_last i c m b of h free enough parsed spare =
        let held_now = held (get ℕ_discrete id m) in
        received i c spare m h
        ∙ ap (handed_over lib known now) (
            stored_complete all now id i c m of few h
              (length-set ℕ_discrete i c held_now free ∙ enough))
        ∙ rw (handed_over, parsed) refl
