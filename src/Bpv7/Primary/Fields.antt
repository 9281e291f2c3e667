-- ===== src/Bpv7/Primary/Fields.antt =====
-- What `UnmarshalCbor` reads of each part of a primary block that was written.
use dtn7_go.Base.{
  ℕ, ◌≤◌, ◌≡◌, ◌∙◌, sym, ap, List, [], ◌++◌, append_assoc, true, false, length, ok, Encodes,
  bytes_equal_refl, arith, >>=_step, require_step, leb, ◌&&◌, wrap, wrap_step, wrap,
}
use dtn7_go.Cbor.{Libs}
use dtn7_go.Cbor.Laws.{CborLaws, IsU64, write_byte_string, read_byte_string}
use dtn7_go.Bpv7.Crc.{calculate_crc_buff}
use dtn7_go.Bpv7.Time.{marshal_timestamp, unmarshal_timestamp}
use dtn7_go.Bpv7.Time.RoundTrip.{TimestampFits, unmarshal-marshal_timestamp}
use dtn7_go.Bpv7.Endpoint.{EndpointId, unmarshal_endpoint}
use dtn7_go.Bpv7.Endpoint.RoundTrip.{IsWireEndpoint, endpoint-Encodes}
use dtn7_go.Bpv7.Primary.{
  PrimaryBlock, has_fragmentation, has_crc, primary_block_len, fragment_fields, marshal_endpoints,
  read_crc, read_version, read_endpoints, read_fragment_fields, read_primary_crc,
  unmarshal_primary_from,
}

-- A block whose fields have their width, whose endpoints can be written, and whose version and CRC
-- type are known. A block that is no fragment has no fragment fields, and one without a CRC no CRC.
pub record PrimaryFits (pb : PrimaryBlock) : Type 0 where
  pub version_seven : pb.version ≡ 7
  pub flags_fit : IsU64 pb.bundle_control_flags
  pub crc_type_known : pb.crc_type ≤ 2
  pub destination_wire : IsWireEndpoint pb.destination
  pub source_wire : IsWireEndpoint pb.source_node
  pub report_wire : IsWireEndpoint pb.report_to
  pub timestamp_fits : TimestampFits pb.creation_timestamp
  pub lifetime_fits : IsU64 pb.lifetime
  pub offset_fits : IsU64 pb.fragment_offset
  pub total_fits : IsU64 pb.total_data_length
  pub no_offset : has_fragmentation pb ≡ false → pb.fragment_offset ≡ 0
  pub no_total : has_fragmentation pb ≡ false → pb.total_data_length ≡ 0
  pub no_crc : has_crc pb ≡ false → pb.crc ≡ []

module _ (lib : Libs) (laws : CborLaws lib) where
  pub endpoints-Encodes :
      (d s r : EndpointId)
      → IsWireEndpoint d
      → IsWireEndpoint s
      → IsWireEndpoint r
      → Encodes (marshal_endpoints lib d s r) (read_endpoints lib) (d, s, r)
  unfolding marshal_endpoints read_endpoints
  endpoints-Encodes d s r wd ws wr =
      let (db, dw, dr) = endpoint-Encodes lib laws d wd in
      let (sb, sw, sr) = endpoint-Encodes lib laws s ws in
      let (rb, rw', rr) = endpoint-Encodes lib laws r wr in
      (
        db ++ (sb ++ rb),
        rw (dw, sw, rw'),
        λ rest.
            rw (append_assoc, append_assoc)
              (>>=_step (wrap (unmarshal_endpoint lib)) _
                  (wrap_step (unmarshal_endpoint lib) (dr _))
                ∙ >>=_step (wrap (unmarshal_endpoint lib)) _
                    (wrap_step (unmarshal_endpoint lib) (sr _))
                ∙ >>=_step (wrap (unmarshal_endpoint lib)) _
                    (wrap_step (unmarshal_endpoint lib) (rr rest))),
      )

  pub read_crc-written :
      (buff v rest : List ℕ) (t : ℕ)
      → calculate_crc_buff lib buff t ≡ ok v
      → length v ≤ 4
      → read_crc lib buff t (write_byte_string lib v ++ rest) ≡ ok (v, rest)
  unfolding read_crc
  read_crc-written buff v rest t h short =
      rw (h, read_crc, append_assoc)
        (>>=_step (read_byte_string lib) _ (
            >>=_step lib.read_byte_string_len _ (laws.byte_string_len (length v) _ (omega arith))
            ∙ laws.raw_bytes v rest)
          ∙ rw (bytes_equal_refl v))

  read_version-written :
      (rest : List ℕ) → read_version lib (lib.write_uint 7 ++ rest) ≡ ok (7, rest)
  unfolding read_version
  read_version-written rest = >>=_step lib.read_uint _ (laws.uint 7 rest (omega arith))

  fragment_fields-read :
      (pb : PrimaryBlock) (rest : List ℕ)
      → PrimaryFits pb
      → read_fragment_fields lib (primary_block_len pb) (fragment_fields lib pb ++ rest)
        ≡ ok ((pb.fragment_offset, pb.total_data_length), rest)
  unfolding read_fragment_fields primary_block_len fragment_fields
  fragment_fields-read pb rest fits = grind (arith, append_assoc, laws.uint, fits)

  unfoldable pub body_of : PrimaryBlock → List ℕ → List ℕ
  body_of pb eids =
      lib.write_array_length (primary_block_len pb)
      ++ (lib.write_uint 7
          ++ (lib.write_uint pb.bundle_control_flags
              ++ (lib.write_uint pb.crc_type
                  ++ (eids
                      ++ (marshal_timestamp lib pb.creation_timestamp
                          ++ (lib.write_uint pb.lifetime ++ fragment_fields lib pb))))))

  block_len_range :
      (pb : PrimaryBlock)
      → ((leb 8 (primary_block_len pb) && leb (primary_block_len pb) 11) ≡ true)
        × IsU64 (primary_block_len pb)
  unfolding primary_block_len
  block_len_range pb = ground arith

  -- Up to the CRC the block is read as it was written.
  pub body-read :
      (pb : PrimaryBlock) (eids start rest crc_bytes crc_val : List ℕ)
      → PrimaryFits pb
      → ((more : List ℕ)
          → read_endpoints lib (eids ++ more)
            ≡ ok ((pb.destination, pb.source_node, pb.report_to), more))
      → read_primary_crc lib start (primary_block_len pb) pb.crc_type (crc_bytes ++ rest)
        ≡ ok (crc_val, rest)
      → unmarshal_primary_from lib start (body_of pb eids ++ (crc_bytes ++ rest))
        ≡ ok (record pb { crc = crc_val }, rest)
  unfolding unmarshal_primary_from body_of
  body-read pb eids start rest crc_bytes crc_val fits read_eids read_val = simp append_assoc (
      >>=_step lib.read_array_length _
        (laws.array_length (primary_block_len pb) _ (block_len_range pb).1)
      ∙ require_step _ _ _ _ (block_len_range pb).0
      ∙ >>=_step (read_version lib) _ (read_version-written _)
      ∙ >>=_step lib.read_uint _ (laws.uint pb.bundle_control_flags _ fits.flags_fit)
      ∙ >>=_step lib.read_uint _ (laws.uint pb.crc_type _ (omega (arith, fits.crc_type_known)))
      ∙ >>=_step (read_endpoints lib) _ (read_eids _)
      ∙ >>=_step (wrap (unmarshal_timestamp lib)) _ (
          wrap_step (unmarshal_timestamp lib)
            (unmarshal-marshal_timestamp lib laws pb.creation_timestamp _ fits.timestamp_fits))
      ∙ >>=_step lib.read_uint _ (laws.uint pb.lifetime _ fits.lifetime_fits)
      ∙ >>=_step (read_fragment_fields lib (primary_block_len pb)) _
          (fragment_fields-read pb _ fits)
      ∙ >>=_step (read_primary_crc lib start (primary_block_len pb) pb.crc_type) _ read_val
      ∙ ap (λ (v : ℕ). ok (record pb { version = v; crc = crc_val }, rest))
          (sym fits.version_seven))
