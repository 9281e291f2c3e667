-- ===== src/Bpv7/Primary.antt =====
-- pkg/bpv7/primary_block.go. A block is written into a buffer, which does not fail; what Go leaves in
-- the writer before an error is dropped.
pub mod Fields
pub mod RoundTrip
use dtn7_go.Base.{
  ℕ, List, [], ◌∷◌, ◌++◌, Bool, true, not, ◌&&◌, ◌||◌, ◌==◌, leb, ite, if◌then◌else◌, bytes_equal,
  consumed, Error, Result, ok, err, panic, then_ok, wrap_err, errors_of, Reader, ◌>>=◌, ◌>>◌,
  return, fail, wrap, require, wrong_length, wrong_version, invalid_crc, anonymous_source_flags,
}
use dtn7_go.Cbor.{Libs}
use dtn7_go.Cbor.Laws.{write_byte_string, read_byte_string}
use dtn7_go.Bpv7.Flags.{
  has, is_fragment, must_not_fragmented, requests_no_report, check_bundle_flags,
}
use dtn7_go.Bpv7.Crc.{crc_no, crc_32, calculate_crc_buff}
use dtn7_go.Bpv7.Time.{CreationTimestamp, marshal_timestamp, unmarshal_timestamp}
use dtn7_go.Bpv7.Endpoint.{
  EndpointId, EndpointId-discrete, dtn_none, check_endpoint, marshal_endpoint, unmarshal_endpoint,
}

abbrev pub dtn_version : ℕ
dtn_version = 7

pub record PrimaryBlock : Type 0 where
  pub version : ℕ
  pub bundle_control_flags : ℕ
  pub crc_type : ℕ
  pub destination : EndpointId
  pub source_node : EndpointId
  pub report_to : EndpointId
  pub creation_timestamp : CreationTimestamp
  pub lifetime : ℕ
  pub fragment_offset : ℕ
  pub total_data_length : ℕ
  -- Go's nil and an empty slice are one.
  pub crc : List ℕ

unfoldable pub has_fragmentation : PrimaryBlock → Bool
has_fragmentation pb = has pb.bundle_control_flags is_fragment

unfoldable pub has_crc : PrimaryBlock → Bool
has_crc pb = not (pb.crc_type == crc_no)

unfoldable pub primary_block_len : PrimaryBlock → ℕ
primary_block_len pb =
    if has_fragmentation pb then if has_crc pb then 11 else 10 else if has_crc pb then 9 else 8

-- `CheckValid`: all that is wrong with the block.
unfoldable pub check_primary : PrimaryBlock → List Error
check_primary pb =
    (if pb.version == dtn_version then [] else wrong_version pb.version ∷ [])
    ++ (check_bundle_flags pb.bundle_control_flags
        ++ (errors_of (check_endpoint pb.destination)
            ++ (errors_of (check_endpoint pb.source_node)
                ++ (errors_of (check_endpoint pb.report_to)
                    ++ ite (EndpointId-discrete pb.source_node dtn_none)
                        (if has pb.bundle_control_flags must_not_fragmented
                            && requests_no_report pb.bundle_control_flags
                          then []
                          else anonymous_source_flags ∷ [])
                        []))))

module _ (lib : Libs) where
  -- The fragment fields, of a fragment only.
  unfoldable pub fragment_fields : PrimaryBlock → List ℕ
  fragment_fields pb =
      if has_fragmentation pb
      then lib.write_uint pb.fragment_offset ++ lib.write_uint pb.total_data_length
      else []

  -- The loop over destination, source and report-to.
  unfoldable pub marshal_endpoints : EndpointId → EndpointId → EndpointId → Result (List ℕ)
  marshal_endpoints destination source report_to =
      then_ok (wrap_err (marshal_endpoint lib destination)) λ d.
        then_ok (wrap_err (marshal_endpoint lib source))
          λ s. then_ok (wrap_err (marshal_endpoint lib report_to)) λ r. ok (d ++ (s ++ r))

  -- Everything before the CRC.
  unfoldable pub primary_body : PrimaryBlock → Result (List ℕ)
  primary_body pb = then_ok (marshal_endpoints pb.destination pb.source_node pb.report_to) λ eids.
      ok (
        lib.write_array_length (primary_block_len pb)
        ++ (lib.write_uint dtn_version
            ++ (lib.write_uint pb.bundle_control_flags
                ++ (lib.write_uint pb.crc_type
                    ++ (eids
                        ++ (marshal_timestamp lib pb.creation_timestamp
                            ++ (lib.write_uint pb.lifetime ++ fragment_fields pb)))))))

  abbrev pub with_crc : List ℕ → PrimaryBlock → List ℕ → Result (List ℕ × PrimaryBlock)
  with_crc body pb crc_val = ok (body ++ write_byte_string lib crc_val, record pb { crc = crc_val })

  -- `MarshalCbor` writes the block and keeps its CRC in the block.
  unfoldable pub marshal_primary : PrimaryBlock → Result (List ℕ × PrimaryBlock)
  marshal_primary pb = then_ok (primary_body pb) λ body.
      if has_crc pb
      then then_ok (calculate_crc_buff lib body pb.crc_type) (with_crc body pb)
      else ok (body, pb)

  -- The tail of both `UnmarshalCbor` methods: what was read so far is checked against the CRC.
  unfoldable pub read_crc : List ℕ → ℕ → Reader (List ℕ)
  read_crc buff crc_type s = elim (calculate_crc_buff lib buff crc_type) [
    | ok crc_calc ↦
        (read_byte_string lib >>= λ crc_val.
        require (bytes_equal crc_calc crc_val) invalid_crc >> return crc_val)
          s
    | err e ↦ err e
    | panic ↦ panic
  ]

  unfoldable pub read_version : Reader ℕ
  read_version = do
    version ← lib.read_uint
    require (version == dtn_version) (wrong_version version)
    return dtn_version

  unfoldable pub read_endpoints : Reader (EndpointId × EndpointId × EndpointId)
  read_endpoints = do
    destination ← wrap (unmarshal_endpoint lib)
    source ← wrap (unmarshal_endpoint lib)
    report_to ← wrap (unmarshal_endpoint lib)
    return (destination, source, report_to)

  abbrev read_two : Reader (ℕ × ℕ)
  read_two = do a ← lib.read_uint; b ← lib.read_uint; return (a, b)

  -- A block of length 10 or 11 has them; the fields of a fresh block are 0.
  unfoldable pub read_fragment_fields : ℕ → Reader (ℕ × ℕ)
  read_fragment_fields block_len =
      if block_len == 10 || block_len == 11 then read_two else return (0, 0)

  -- `start` is the input at the start of the block, which the CRC is taken of.
  unfoldable pub read_primary_crc : List ℕ → ℕ → ℕ → Reader (List ℕ)
  read_primary_crc start block_len crc_type s =
      if block_len == 9 || block_len == 11
      then read_crc (consumed start s) crc_type s
      else ok ([], s)

  unfoldable pub unmarshal_primary_from : List ℕ → Reader PrimaryBlock
  unmarshal_primary_from start = do
    bl ← lib.read_array_length
    require (leb 8 bl && leb bl 11) (wrong_length bl)
    version ← read_version
    bcf ← lib.read_uint
    crc_type ← lib.read_uint
    eids ← read_endpoints
    timestamp ← wrap (unmarshal_timestamp lib)
    lifetime ← lib.read_uint
    fields ← read_fragment_fields bl
    crc ← read_primary_crc start bl crc_type
    return (record {
      version = version;
      bundle_control_flags = bcf;
      crc_type = crc_type;
      destination = eids.0;
      source_node = eids.1;
      report_to = eids.2;
      creation_timestamp = timestamp;
      lifetime = lifetime;
      fragment_offset = fields.0;
      total_data_length = fields.1;
      crc = crc;
    })

  unfoldable pub unmarshal_primary : Reader PrimaryBlock
  unfolding unmarshal_primary_from
  unmarshal_primary s = unmarshal_primary_from s s

  -- `calculateCRC` drops the block's CRC and marshals it into the void; an error is ignored.
  unfoldable pub calculate_crc : PrimaryBlock → PrimaryBlock
  unfolding marshal_primary
  calculate_crc pb = elim (marshal_primary (record pb { crc = [] })) [
    | ok (_, pb') ↦ pb'
    | _ ↦ record pb { crc = [] }
  ]

  unfoldable pub new_primary_block :
      ℕ → EndpointId → EndpointId → CreationTimestamp → ℕ → PrimaryBlock
  unfolding calculate_crc
  new_primary_block bcf destination source timestamp lifetime = calculate_crc (record {
    version = dtn_version;
    bundle_control_flags = bcf;
    crc_type = crc_32;
    destination = destination;
    source_node = source;
    report_to = source;
    creation_timestamp = timestamp;
    lifetime = lifetime;
    fragment_offset = 0;
    total_data_length = 0;
    crc = [];
  })

  -- A primary block always has a CRC once its type has been set.
  unfoldable pub set_primary_crc_type : ℕ → PrimaryBlock → PrimaryBlock
  unfolding calculate_crc
  set_primary_crc_type t pb =
      calculate_crc (record pb { crc_type = if t == crc_no then crc_32 else t })
