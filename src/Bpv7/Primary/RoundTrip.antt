-- ===== src/Bpv7/Primary/RoundTrip.antt =====
-- A primary block is read back, its CRC included, from what was written for it.
use dtn7_go.Base.{
  ℕ, ◌≤◌, ◌≡◌, ap, inl, inr, List, [], ◌++◌, append_assoc, true, false, length, ok, consumed-append,
  arith, Bool-cases,
}
use dtn7_go.Cbor.{Libs}
use dtn7_go.Cbor.Laws.{CborLaws, write_byte_string}
use dtn7_go.Bpv7.Crc.{calculate_crc_buff}
use dtn7_go.Bpv7.Crc.Laws.{calculate_crc_known}
use dtn7_go.Bpv7.Primary.{
  PrimaryBlock, has_crc, primary_block_len, marshal_endpoints, primary_body, marshal_primary,
  read_endpoints, read_primary_crc, unmarshal_primary,
}
use dtn7_go.Bpv7.Primary.Fields.{
  PrimaryFits, endpoints-Encodes, read_crc-written, body_of, body-read,
}

module _ (lib : Libs) (laws : CborLaws lib) where
  crc_part_read :
      (pb : PrimaryBlock) (body v rest : List ℕ)
      → has_crc pb ≡ true
      → calculate_crc_buff lib body pb.crc_type ≡ ok v
      → length v ≤ 4
      → read_primary_crc lib
          (body ++ (write_byte_string lib v ++ rest))
          (primary_block_len pb)
          pb.crc_type
          (write_byte_string lib v ++ rest)
        ≡ ok (v, rest)
  unfolding read_primary_crc primary_block_len
  crc_part_read pb body v rest has h short = ground (
    arith,
    consumed-append body (write_byte_string lib v ++ rest),
    read_crc-written lib laws body v rest pb.crc_type h short,
  )

  no_crc_part_read :
      (pb : PrimaryBlock) (start rest : List ℕ)
      → has_crc pb ≡ false
      → read_primary_crc lib start (primary_block_len pb) pb.crc_type rest ≡ ok ([], rest)
  unfolding read_primary_crc primary_block_len
  no_crc_part_read pb start rest has = ground arith

  RoundTrips : PrimaryBlock → Type 0
  RoundTrips pb =
      (bs : List ℕ) × (crc_val : List ℕ) × (marshal_primary lib pb
        ≡ ok (bs, record pb { crc = crc_val }))
      × ((rest : List ℕ)
          → unmarshal_primary lib (bs ++ rest) ≡ ok (record pb { crc = crc_val }, rest))

  with_crc-round_trip :
      (pb : PrimaryBlock) (eids : List ℕ)
      → PrimaryFits pb
      → marshal_endpoints lib pb.destination pb.source_node pb.report_to ≡ ok eids
      → ((more : List ℕ)
          → read_endpoints lib (eids ++ more)
            ≡ ok ((pb.destination, pb.source_node, pb.report_to), more))
      → has_crc pb ≡ true
      → RoundTrips pb
  unfolding RoundTrips marshal_primary primary_body unmarshal_primary
  with_crc-round_trip pb eids fits written read has =
      let (v, h, short) =
        calculate_crc_known lib (body_of lib laws pb eids) pb.crc_type fits.crc_type_known in
      (
        body_of lib laws pb eids ++ write_byte_string lib v,
        v,
        rw (written, has) (unfold body_of in rw (h)),
        λ rest. rw append_assoc (
            body-read lib laws pb eids _ rest _ v fits read
              (crc_part_read pb (body_of lib laws pb eids) v rest has h short)),
      )

  without_crc-round_trip :
      (pb : PrimaryBlock) (eids : List ℕ)
      → PrimaryFits pb
      → marshal_endpoints lib pb.destination pb.source_node pb.report_to ≡ ok eids
      → ((more : List ℕ)
          → read_endpoints lib (eids ++ more)
            ≡ ok ((pb.destination, pb.source_node, pb.report_to), more))
      → has_crc pb ≡ false
      → RoundTrips pb
  unfolding RoundTrips marshal_primary primary_body unmarshal_primary body_of
  without_crc-round_trip pb eids fits written read has = (
    body_of lib laws pb eids,
    [],
    rw (written, has)
        (ap (λ (v : List ℕ). ok (body_of lib laws pb eids, record pb { crc = v }))
          (fits.no_crc has)),
    λ rest. body-read lib laws pb eids _ rest [] [] fits read (no_crc_part_read pb _ rest has),
  )

  -- Every primary block that fits is written without an error and keeps its new CRC. From the front
  -- of any input that begins with what was written, the same block is read, that CRC included.
  pub unmarshal-marshal_primary :
      (pb : PrimaryBlock)
      → PrimaryFits pb
      → (bs : List ℕ) × (crc_val : List ℕ) × (marshal_primary lib pb
          ≡ ok (bs, record pb { crc = crc_val }))
        × ((rest : List ℕ)
            → unmarshal_primary lib (bs ++ rest) ≡ ok (record pb { crc = crc_val }, rest))
  unfolding RoundTrips
  unmarshal-marshal_primary pb fits =
      let (eids, written, read) =
        endpoints-Encodes lib laws pb.destination pb.source_node pb.report_to fits.destination_wire
          fits.source_wire fits.report_wire in
      elim (Bool-cases (has_crc pb)) [
        | inl has ↦ with_crc-round_trip pb eids fits written read has
        | inr has ↦ without_crc-round_trip pb eids fits written read has
      ]
