-- ===== src/Cla/Meshtastic/Chunks.antt =====
-- The chunks of a bundle make its bytes, each fits into a packet, and the server reads the packet back.
use dtn7_go.Base.{
  ℕ, zero, suc, ◌+◌, ◌*◌, ◌/◌, ◌%◌, ◌≤◌, ◌<◌, min, ◌≡◌, ◌∙◌, refl, ap, List, [], ◌∷◌, ◌++◌, length,
  take, drop, length-append, length-drop, length-take, take-append-drop, take-append_length, All,
  some, ok, arith,
}
use dtn7_go.Cla.Meshtastic.{max_payload_bytes, split_rounds, split_chunks, chunk_packet}
use dtn7_go.Cla.Meshtastic.Reassembly.{Chunk, parse_packet, chunk_payload}

abbrev pub joined : List (List ℕ) → List ℕ
joined [] = []
joined (chunk ∷ chunks) = chunk ++ joined chunks

rest_shorter :
    (n b : ℕ) (bytes : List ℕ)
    → length (b ∷ bytes) ≤ suc n
    → length (drop (min max_payload_bytes (length (b ∷ bytes))) (b ∷ bytes)) ≤ n
rest_shorter n b bytes h =
    omega (arith, h, length-drop (min max_payload_bytes (length (b ∷ bytes))) (b ∷ bytes))

joined-split_rounds :
    (n : ℕ) (bytes : List ℕ) → length bytes ≤ n → joined (split_rounds n bytes) ≡ bytes
unfolding split_rounds
joined-split_rounds zero [] h = refl
joined-split_rounds zero (b ∷ bytes) h = absurd (omega (arith, h))
joined-split_rounds (suc n) [] h = refl
joined-split_rounds (suc n) (b ∷ bytes) h =
    let end = min max_payload_bytes (length (b ∷ bytes)) in
    ap (λ rest. take end (b ∷ bytes) ++ rest)
      (joined-split_rounds n (drop end (b ∷ bytes)) (rest_shorter n b bytes h))
    ∙ take-append-drop end (b ∷ bytes)

pub joined-split_chunks : (bytes : List ℕ) → joined (split_chunks bytes) ≡ bytes
unfolding split_chunks
joined-split_chunks bytes = joined-split_rounds (length bytes) bytes (omega arith)

abbrev pub IsSmall : List ℕ → Type 0
IsSmall chunk = length chunk ≤ max_payload_bytes

split_rounds-IsSmall : (n : ℕ) (bytes : List ℕ) → All IsSmall (split_rounds n bytes)
unfolding split_rounds
split_rounds-IsSmall zero bytes = tt
split_rounds-IsSmall (suc n) [] = tt
split_rounds-IsSmall (suc n) (b ∷ bytes) =
    let end = min max_payload_bytes (length (b ∷ bytes)) in
    (omega (arith, length-take end (b ∷ bytes)), split_rounds-IsSmall n (drop end (b ∷ bytes)))

pub split_chunks-IsSmall : (bytes : List ℕ) → All IsSmall (split_chunks bytes)
unfolding split_chunks
split_chunks-IsSmall bytes = split_rounds-IsSmall (length bytes) bytes

read_uint32 :
    (x : ℕ)
    → x < 4294967296
    → x / 16777216 % 256 * 16777216 + x / 65536 % 256 * 65536 + x / 256 % 256 * 256 + x % 256 ≡ x
read_uint32 x h = omega (arith, h)

read_uint16 : (n : ℕ) → n < 65536 → n % 65536 / 256 % 256 * 256 + n % 65536 % 256 ≡ n
read_uint16 n h = omega (arith, h)

payload_read :
    (payload spare : List ℕ) → chunk_payload (length payload) (payload ++ spare) ≡ ok payload
payload_read payload spare =
    ground
      (arith, length-append payload spare, take-append_length (length payload) payload spare refl)

abbrev pub chunk_of : ℕ → ℕ → ℕ → List ℕ → Chunk
chunk_of id i total payload = record {
  bundle_id = id;
  chunk_idx = i;
  total = total;
  payload = payload;
}

pub parse-chunk_packet :
    (id i total : ℕ) (payload spare : List ℕ)
    → id < 4294967296
    → i < 256
    → total < 256
    → IsSmall payload
    → parse_packet (record { content = chunk_packet id i total payload; spare = spare })
      ≡ ok (some (chunk_of id i total payload))
unfolding parse_packet chunk_packet
parse-chunk_packet id i total payload spare id_fits i_fits total_fits small = grind (
  arith,
  read_uint32 id id_fits,
  read_uint16 (length payload) (omega (arith, small)),
  payload_read payload spare,
  i_fits,
  total_fits,
)
