-- ===== src/Cla/Meshtastic.antt =====
-- pkg/cla/meshtastic: the adapter for LoRa radios. client.go cuts a bundle into chunks for packets of
-- 200 bytes, server.go puts the chunks together. Transport is an interface; what implements it is
-- the sockets' and is a parameter here.
pub mod Reassembly
pub mod Chunks
pub mod Completed
pub mod Stored
pub mod Received
pub mod Delivered
pub mod Sent
use dtn7_go.Base.{
  ℕ, zero, suc, ◌+◌, ◌*◌, ◌/◌, ◌%◌, min, List, [], ◌∷◌, ◌++◌, length, take, drop, Option, none,
  some, ltb, if◌then◌else◌, Result, ok, err, panic, wrapped,
}
use dtn7_go.Cbor.{Libs}
use dtn7_go.Bpv7.Bundle.{Bundle}
use dtn7_go.Bpv7.Bundle.Wire.{marshal_bundle}

-- The LoRa MTU of 200 bytes without the header.
abbrev pub max_payload_bytes : ℕ
max_payload_bytes = 192

-- `binary.BigEndian.PutUint32`
abbrev pub put_uint32 : ℕ → List ℕ
put_uint32 x = x / 16777216 % 256 ∷ x / 65536 % 256 ∷ x / 256 % 256 ∷ x % 256 ∷ []

-- `binary.BigEndian.PutUint16`
abbrev pub put_uint16 : ℕ → List ℕ
put_uint16 x = x / 256 % 256 ∷ x % 256 ∷ []

-- `uint32(bndl.ID().Timestamp[0] & 0xFFFFFFFF)`
abbrev pub chunk_bundle_id : Bundle → ℕ
chunk_bundle_id b = b.primary_block.creation_timestamp.dtn_time % 4294967296

-- The loop that cuts the bytes; each round takes one at least, and the fuel counts the rounds.
unfoldable pub split_rounds : ℕ → List ℕ → List (List ℕ)
split_rounds zero bytes = []
split_rounds (suc rounds) [] = []
split_rounds (suc rounds) (b ∷ bytes) =
    let end = min max_payload_bytes (length (b ∷ bytes)) in
    take end (b ∷ bytes) ∷ split_rounds rounds (drop end (b ∷ bytes))

unfoldable pub split_chunks : List ℕ → List (List ℕ)
unfolding split_rounds
split_chunks bytes = split_rounds (length bytes) bytes

-- `append(header, payload...)`. The position and the total are a byte each.
unfoldable pub chunk_packet : ℕ → ℕ → ℕ → List ℕ → List ℕ
chunk_packet id i total payload =
    put_uint32 id ++ ((i % 256 ∷ total % 256 ∷ put_uint16 (length payload % 65536)) ++ payload)

-- The packets of the chunks from position `i` on.
unfoldable pub packets_from : ℕ → ℕ → ℕ → List (List ℕ) → List (List ℕ)
unfolding chunk_packet
packets_from id total i [] = []
packets_from id total i (payload ∷ chunks) =
    chunk_packet id i total payload ∷ packets_from id total (suc i) chunks

-- The packets of a bundle that has been written as `bytes`.
unfoldable pub bundle_packets : ℕ → List ℕ → List (List ℕ)
unfolding packets_from split_chunks
bundle_packets id bytes =
    let chunks = split_chunks bytes in packets_from id (length chunks) 0 chunks

module _ {T : Type 0} (send_packet : T → List ℕ → T × Result (Unit {0})) where
  -- The first packet that the transport refuses ends the loop.
  unfoldable pub send_packets : List (List ℕ) → T → T × Result (Unit {0})
  send_packets [] t = (t, ok tt)
  send_packets (packet ∷ packets) t =
      let (t', sent) = send_packet t packet in
      elim sent [
        | ok done ↦ send_packets packets t'
        | err e ↦ (t', err (wrapped e))
        | panic ↦ (t', panic)
      ]

  -- `MeshtasticClient.Send`
  unfoldable pub send_bundle : Libs → Bundle → T → T × Result (Unit {0})
  unfolding send_packets bundle_packets
  send_bundle lib b t = elim (marshal_bundle lib b) [
    | ok w ↦ send_packets (bundle_packets (chunk_bundle_id b) (w.0)) t
    | err e ↦ (t, err (wrapped e))
    | panic ↦ (t, panic)
  ]
