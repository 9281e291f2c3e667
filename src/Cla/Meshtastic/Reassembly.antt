-- ===== src/Cla/Meshtastic/Reassembly.antt =====
-- pkg/cla/meshtastic/server.go: the packets that arrive, the chunks that are kept of each bundle, and
-- the cleaner. The state is the map `reassembly`; the lock makes each packet one step.
use dtn7_go.Base.{
  ℕ, zero, suc, ◌+◌, ◌-◌, ◌*◌, ◌%◌, List, [], ◌∷◌, ◌++◌, length, take, not, Bool, ◌==◌, Option,
  none, some, ltb, if◌then◌else◌, Result, ok, err, panic, get, set, remove, keep, ℕ_discrete,
}
use dtn7_go.Cbor.{Libs}
use dtn7_go.Bpv7.Extension.{BlockKind}
use dtn7_go.Bpv7.Bundle.{Bundle}
use dtn7_go.Bpv7.Bundle.Wire.{parse_bundle}

-- `last_seen` is in nanoseconds.
pub record ReassemblyBuffer : Type 0 where
  pub chunks : List (ℕ × List ℕ)
  pub total_chunks : ℕ
  pub last_seen : ℕ

abbrev pub Reassembly : Type 0
Reassembly = List (ℕ × ReassemblyBuffer)

-- A slice of bytes: those up to its length, and those behind them up to its capacity.
pub record Slice : Type 0 where
  pub content : List ℕ
  pub spare : List ℕ

pub record Chunk : Type 0 where
  pub bundle_id : ℕ
  pub chunk_idx : ℕ
  pub total : ℕ
  pub payload : List ℕ

-- `data[headerSize:headerSize+int(payloadLen)]`, which a slice allows up to its capacity.
abbrev pub chunk_payload : ℕ → List ℕ → Result (List ℕ)
chunk_payload n behind = if ltb (length behind) n then panic else ok (take n behind)

-- The packet's header and payload; none of a packet that is shorter than a header.
unfoldable pub parse_packet : Slice → Result (Option Chunk)
parse_packet packet = elim (packet.content) [
  | a ∷ b ∷ c ∷ d ∷ i ∷ t ∷ e ∷ f ∷ rest ↦
      elim (chunk_payload (e * 256 + f) (rest ++ packet.spare)) [
        | ok bytes ↦ ok (
            some (record {
              bundle_id = a * 16777216 + b * 65536 + c * 256 + d;
              chunk_idx = i;
              total = t;
              payload = bytes;
            }))
        | err x ↦ err x
        | panic ↦ panic
      ]
  | _ ↦ ok none
]

-- The buffer of a bundle with one more chunk, made for the first chunk, which says how many.
unfoldable pub with_chunk : ℕ → Chunk → Option ReassemblyBuffer → ReassemblyBuffer
with_chunk now c none = record {
  chunks = (c.chunk_idx, c.payload) ∷ [];
  total_chunks = c.total;
  last_seen = now;
}
with_chunk now c (some rb) = record rb {
  chunks = set ℕ_discrete (c.chunk_idx) (c.payload) (rb.chunks);
  last_seen = now;
}

-- `uint8(len(rb.chunks)) == rb.totalChunks`
abbrev pub is_complete : ReassemblyBuffer → Bool
is_complete rb = length (rb.chunks) % 256 == rb.total_chunks

-- `rb.chunks[i]`, which is nil where there is none.
abbrev pub or_nil : Option (List ℕ) → List ℕ
or_nil none = []
or_nil (some bytes) = bytes

-- What the loop writes to the buffer from position `i` on.
unfoldable pub full_from : ℕ → ℕ → List (ℕ × List ℕ) → List ℕ
full_from zero i chunks = []
full_from (suc rounds) i chunks =
    or_nil (get ℕ_discrete i chunks) ++ full_from rounds (suc i) chunks

-- What happens under the lock: the map afterwards, and the bytes of a bundle that is complete.
unfoldable pub store_chunk : ℕ → Chunk → Reassembly → Reassembly × Option (List ℕ)
unfolding with_chunk full_from
store_chunk now c m =
    let rb = with_chunk now c (get ℕ_discrete (c.bundle_id) m) in
    let m' = set ℕ_discrete (c.bundle_id) rb m in
    if is_complete rb
    then (remove ℕ_discrete (c.bundle_id) m', some (full_from (rb.total_chunks) 0 (rb.chunks)))
    else (m', none)

module _ (lib : Libs) (known : ℕ → Option BlockKind) where
  -- The bundle that the callback is given, if there is one.
  abbrev pub handed_over : ℕ → Reassembly × Option (List ℕ) → Result (Reassembly × List Bundle)
  handed_over now (m, none) = ok (m, [])
  handed_over now (m, some bytes) = elim (parse_bundle lib known now bytes) [
    | ok b ↦ ok (m, b ∷ [])
    | err e ↦ ok (m, [])
    | panic ↦ panic
  ]

  -- One round of `receiveLoop`, from `ReceivePacket` having returned a packet.
  unfoldable pub receive_packet : ℕ → Slice → Reassembly → Result (Reassembly × List Bundle)
  unfolding parse_packet store_chunk
  receive_packet now packet m = elim (parse_packet packet) [
    | ok none ↦ ok (m, [])
    | ok (some c) ↦ handed_over now (store_chunk now c m)
    | err e ↦ err e
    | panic ↦ panic
  ]

  -- The rounds for packets that arrive at a time, and all bundles that are handed over.
  unfoldable pub receive_packets : ℕ → List Slice → Reassembly → Result (Reassembly × List Bundle)
  unfolding receive_packet
  receive_packets now [] m = ok (m, [])
  receive_packets now (packet ∷ packets) m = elim (receive_packet now packet m) [
    | ok (m', bundles) ↦ elim (receive_packets now packets m') [
      | ok (m'', more) ↦ ok (m'', bundles ++ more)
      | err e ↦ err e
      | panic ↦ panic
    ]
    | err e ↦ err e
    | panic ↦ panic
  ]

-- A tick of the cleaner: buffers without a new chunk for more than sixty seconds are discarded.
unfoldable pub discard_stale : ℕ → Reassembly → Reassembly
discard_stale now m = keep (λ id rb. not (ltb 60000000000 (now - rb.last_seen))) m
