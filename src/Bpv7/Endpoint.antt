-- ===== src/Bpv7/Endpoint.antt =====
-- pkg/bpv7/endpoint.go, endpoint_dtn.go and endpoint_ipn.go: endpoint identifiers and their wire
-- format. Text is its list of bytes.
pub mod Ssp
pub mod RoundTrip
pub mod Decoded
pub mod Text
use dtn7_go.Base.{
  ℕ, ◌<◌, List, [], ◌∷◌, ◌++◌, Bool, true, false, ◌||◌, ◌==◌, Option, none, some, if◌then◌else◌,
  ltb, Result, ok, err, panic, Error, Reader, ◌>>=◌, ◌>>◌, return, fail, require, then_ok,
}
use dtn7_go.Base.{wrong_length, unknown_scheme, wrong_major, malformed_ssp, ssp_is_none}
use dtn7_go.Base.{nil_endpoint, invalid_ipn, bytes_equal, ℕ_discrete}
use dtn7_go.Cbor.{Libs}
use dtn7_go.Cbor.Laws.{write_text_string}
use Ssp.{matches_ssp, contains_ssp, cut_slash, drop_slashes, none_ssp}

pub record DtnEndpoint : Type 0 where
  pub node_name : List ℕ
  pub demux : List ℕ
  pub is_dtn_none : Bool

pub record IpnEndpoint : Type 0 where
  pub node : ℕ
  pub service : ℕ

-- The implementations of Go's interface `EndpointType`.
pub data EndpointType : Type 0 where
  dtn : DtnEndpoint → EndpointType
  ipn : IpnEndpoint → EndpointType

-- `none` is Go's nil interface.
pub record EndpointId : Type 0 where
  pub endpoint_type : Option EndpointType

pub EndpointId-discrete : Discrete EndpointId
EndpointId-discrete = hlevel ℕ_discrete

abbrev pub dtn_none : EndpointId
dtn_none = record {
  endpoint_type = some (dtn (record { node_name = []; demux = []; is_dtn_none = true }));
}

abbrev pub scheme_no : EndpointType → ℕ
scheme_no (dtn e) = 1
scheme_no (ipn e) = 2

-- `fmt.Sprintf("//%v/%v", e.NodeName, e.Demux)`
unfoldable pub ssp_of : DtnEndpoint → List ℕ
ssp_of e = b'/' ∷ b'/' ∷ (e.node_name ++ (b'/' ∷ e.demux))

-- The URI's parts, or that it is the null endpoint.
unfoldable pub parse_dtn_ssp : List ℕ → Result DtnEndpoint
parse_dtn_ssp ssp =
    if bytes_equal ssp none_ssp
    then ok (record { node_name = []; demux = []; is_dtn_none = true })
    else if matches_ssp ssp
    then elim (cut_slash (drop_slashes ssp)) [
      -- A matching text has a third slash, so that Go's `parts[1]` is in range.
      | none ↦ err malformed_ssp
      | some (name, rest) ↦ ok (record { node_name = name; demux = rest; is_dtn_none = false })
    ]
    else err malformed_ssp

unfoldable pub check_dtn : DtnEndpoint → Result (Unit {0})
check_dtn e =
    if e.is_dtn_none then ok tt else if contains_ssp (ssp_of e) then ok tt else err malformed_ssp

unfoldable pub check_ipn : IpnEndpoint → Result (Unit {0})
check_ipn e = if ltb e.node 1 || ltb e.service 1 then err invalid_ipn else ok tt

abbrev pub check_endpoint_type : EndpointType → Result (Unit {0})
check_endpoint_type (dtn e) = check_dtn e
check_endpoint_type (ipn e) = check_ipn e

unfoldable pub check_endpoint : EndpointId → Result (Unit {0})
check_endpoint eid = elim eid.endpoint_type [
  | none ↦ err nil_endpoint
  | some t ↦ check_endpoint_type t
]

module _ (lib : Libs) where
  unfoldable pub marshal_dtn : DtnEndpoint → List ℕ
  marshal_dtn e = if e.is_dtn_none then lib.write_uint 0 else write_text_string lib (ssp_of e)

  unfoldable pub marshal_ipn : IpnEndpoint → List ℕ
  marshal_ipn e = lib.write_array_length 2 ++ (lib.write_uint e.node ++ lib.write_uint e.service)

  abbrev pub marshal_endpoint_type : EndpointType → List ℕ
  marshal_endpoint_type (dtn e) = marshal_dtn e
  marshal_endpoint_type (ipn e) = marshal_ipn e

  -- `EndpointID.MarshalCbor` with its check, its scheme number and its scheme specific part.
  unfoldable pub marshal_endpoint : EndpointId → Result (List ℕ)
  marshal_endpoint eid = then_ok (check_endpoint eid) λ _. elim eid.endpoint_type [
    | none ↦ err nil_endpoint
    | some t ↦
        ok (lib.write_array_length 2 ++ (lib.write_uint (scheme_no t) ++ marshal_endpoint_type t))
  ]

  -- What the text of an SSP stands for; the null endpoint must not come as text.
  unfoldable pub dtn_of_text : List ℕ → Reader DtnEndpoint
  dtn_of_text ssp s = elim (parse_dtn_ssp ssp) [
    | ok e ↦ if e.is_dtn_none then err ssp_is_none else ok (e, s)
    | err e ↦ err e
    | panic ↦ panic
  ]

  unfoldable pub unmarshal_dtn : Reader DtnEndpoint
  unmarshal_dtn = do
    (m, n) ← lib.read_majors
    if m == lib.major_uint
        then return (record { node_name = []; demux = []; is_dtn_none = true })
        else if m == lib.major_text
        then lib.read_raw_bytes n >>= dtn_of_text
        else fail (wrong_major m)

  unfoldable pub unmarshal_ipn : Reader IpnEndpoint
  unmarshal_ipn = do
    n ← lib.read_array_length
    require (n == 2) (wrong_length n)
    node ← lib.read_uint
    service ← lib.read_uint
    return (record { node = node; service = service })

  abbrev pub id_of_dtn : DtnEndpoint → Reader EndpointId
  id_of_dtn e = return (record { endpoint_type = some (dtn e) })

  abbrev pub id_of_ipn : IpnEndpoint → Reader EndpointId
  id_of_ipn e = return (record { endpoint_type = some (ipn e) })

  -- `getEndpointManager().typeMap` knows the scheme numbers 1 and 2.
  unfoldable pub unmarshal_endpoint : Reader EndpointId
  unmarshal_endpoint = do
    l ← lib.read_array_length
    require (l == 2) (wrong_length l)
    scheme ← lib.read_uint
    if scheme == 1
        then unmarshal_dtn >>= id_of_dtn
        else if scheme == 2
        then unmarshal_ipn >>= id_of_ipn
        else fail (unknown_scheme scheme)
