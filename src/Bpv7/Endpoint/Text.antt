-- ===== src/Bpv7/Endpoint/Text.antt =====
-- The texts of endpoints in pkg/bpv7/endpoint.go, endpoint_dtn.go and endpoint_ipn.go: `String`,
-- the constructors from URIs, and what the methods say of an endpoint's parts.
pub mod Printed
pub mod Parsed
pub mod Node
use dtn7_go.Base.{
  ℕ, List, [], ◌∷◌, ◌++◌, Bool, true, false, not, ◌&&◌, ◌||◌, ◌==◌, leb, Option, none, some,
  if◌then◌else◌, Result, ok, err, panic, then_ok, bytes_equal, malformed_uri, unknown_scheme_name,
  invalid_ipn,
}
use dtn7_go.Base.Decimal.{decimal, all_digits, is_empty, parse_uint}
use dtn7_go.Bpv7.Endpoint.{
  DtnEndpoint, IpnEndpoint, EndpointType, EndpointId, dtn, ipn, parse_dtn_ssp, check_dtn, check_ipn,
  check_endpoint_type, dtn_none,
}
use dtn7_go.Bpv7.Endpoint.Ssp.{none_ssp, on_one_line}
use mathlib.Core.Option

-- `DtnEndpointSchemeName` and `ipnEndpointSchemeName`
abbrev pub dtn_name : List ℕ
dtn_name = b'd' ∷ b't' ∷ b'n' ∷ []

abbrev pub ipn_name : List ℕ
ipn_name = b'i' ∷ b'p' ∷ b'n' ∷ []

unfoldable pub string_dtn : DtnEndpoint → List ℕ
string_dtn e =
    if e.is_dtn_none
    then dtn_name ++ (b':' ∷ none_ssp)
    else dtn_name ++ (b':' ∷ b'/' ∷ b'/' ∷ (e.node_name ++ (b'/' ∷ e.demux)))

unfoldable pub string_ipn : IpnEndpoint → List ℕ
string_ipn e = ipn_name ++ (b':' ∷ (decimal e.node ++ (b'.' ∷ decimal e.service)))

abbrev pub string_endpoint_type : EndpointType → List ℕ
string_endpoint_type (dtn e) = string_dtn e
string_endpoint_type (ipn e) = string_ipn e

abbrev pub string_option : Option EndpointType → List ℕ
string_option none = dtn_name ++ (b':' ∷ none_ssp)
string_option (some t) = string_endpoint_type t

-- `EndpointID.String`
abbrev pub string_endpoint : EndpointId → List ℕ
string_endpoint eid = string_option eid.endpoint_type

-- `[[:alnum:]]`
abbrev pub is_alnum : ℕ → Bool
is_alnum c = (leb b'0' c && leb c b'9') || (leb b'A' c && leb c b'Z') || (leb b'a' c && leb c b'z')

-- `^([[:alnum:]]+):.+$`: the scheme, if the text matches; `seen` says that the class has matched
-- once.
unfoldable pub scheme_of : Bool → List ℕ → Option (List ℕ)
scheme_of seen [] = none
scheme_of seen (c ∷ cs) =
    let more = scheme_of true cs in
    if is_alnum c
    then Option.map (◌∷◌ c) more
    else if seen && (c == b':') && not (is_empty cs) && on_one_line cs
    then some []
    else none

-- What stands behind a prefix; `none` if the text does not have it.
unfoldable pub strip_prefix : List ℕ → List ℕ → Option (List ℕ)
strip_prefix [] s = some s
strip_prefix (c ∷ cs) [] = none
strip_prefix (c ∷ cs) (x ∷ xs) = let rest = strip_prefix cs xs in if c == x then rest else none

-- Around the first `sep`.
unfoldable pub cut_at : ℕ → List ℕ → Option (List ℕ × List ℕ)
cut_at sep [] = none
cut_at sep (c ∷ cs) =
    let rest = cut_at sep cs in
    if c == sep then some ([], cs) else Option.map (λ (p : List ℕ × List ℕ). (c ∷ p.0, p.1)) rest

abbrev pub checked : EndpointType → Result EndpointType
checked t = then_ok (check_endpoint_type t) λ _. ok t

unfoldable pub new_dtn_endpoint : List ℕ → Result EndpointType
new_dtn_endpoint uri = elim (strip_prefix (dtn_name ++ (b':' ∷ [])) uri) [
  | none ↦ err malformed_uri
  | some ssp ↦ then_ok (parse_dtn_ssp ssp) λ e. checked (dtn e)
]

-- `^ipn:(\d+)\.(\d+)$`: the two numbers' texts.
unfoldable pub ipn_numbers : List ℕ → Option (List ℕ × List ℕ)
ipn_numbers uri = elim (strip_prefix (ipn_name ++ (b':' ∷ [])) uri) [
  | none ↦ none
  | some rest ↦ elim (cut_at b'.' rest) [
    | none ↦ none
    | some (n, s) ↦
        if not (is_empty n) && all_digits n && not (is_empty s) && all_digits s
        then some (n, s)
        else none
  ]
]

abbrev pub ipn_of : List ℕ → List ℕ → Result EndpointType
ipn_of n s = then_ok (parse_uint n) λ node.
    then_ok (parse_uint s) λ service. checked (ipn (record { node = node; service = service }))

unfoldable pub new_ipn_endpoint : List ℕ → Result EndpointType
new_ipn_endpoint uri = elim (ipn_numbers uri) [
  | none ↦ err malformed_uri
  | some (n, s) ↦ ipn_of n s
]

abbrev pub id_of_type : Result EndpointType → Result EndpointId
id_of_type r = then_ok r λ t. ok (record { endpoint_type = some t })

-- `NewEndpointID`: the manager's `newMap` knows the names "dtn" and "ipn".
unfoldable pub new_endpoint_id : List ℕ → Result EndpointId
new_endpoint_id uri = elim (scheme_of false uri) [
  | none ↦ err malformed_uri
  | some scheme ↦
      if bytes_equal scheme dtn_name
      then id_of_type (new_dtn_endpoint uri)
      else if bytes_equal scheme ipn_name
      then id_of_type (new_ipn_endpoint uri)
      else err unknown_scheme_name
]

-- `MustNewEndpointID`
unfoldable pub must_new_endpoint_id : List ℕ → Result EndpointId
must_new_endpoint_id uri = elim (new_endpoint_id uri) [
  | ok eid ↦ ok eid
  | err e ↦ panic
  | panic ↦ panic
]

abbrev pub scheme_name : EndpointType → List ℕ
scheme_name (dtn e) = dtn_name
scheme_name (ipn e) = ipn_name

abbrev pub authority_of : EndpointType → List ℕ
authority_of (dtn e) = if e.is_dtn_none then none_ssp else e.node_name
authority_of (ipn e) = decimal e.node

abbrev pub path_of : EndpointType → List ℕ
path_of (dtn e) = if e.is_dtn_none then b'/' ∷ [] else b'/' ∷ e.demux
path_of (ipn e) = decimal e.service

abbrev starts_with_tilde : List ℕ → Bool
starts_with_tilde [] = false
starts_with_tilde (c ∷ cs) = c == b'~'

abbrev pub is_singleton_type : EndpointType → Bool
is_singleton_type (dtn e) = not (starts_with_tilde e.demux) && not e.is_dtn_none
is_singleton_type (ipn e) = true

-- A method called on an endpoint without a type panics.
unfoldable pub authority : EndpointId → Result (List ℕ)
authority eid = elim eid.endpoint_type [ none ↦ panic | some t ↦ ok (authority_of t) ]

unfoldable pub path : EndpointId → Result (List ℕ)
path eid = elim eid.endpoint_type [ none ↦ panic | some t ↦ ok (path_of t) ]

unfoldable pub is_singleton : EndpointId → Result Bool
is_singleton eid = elim eid.endpoint_type [ none ↦ panic | some t ↦ ok (is_singleton_type t) ]

-- `t == DtnEndpoint{IsDtnNone: true}`
abbrev pub is_null : EndpointType → Bool
is_null (dtn e) = is_empty e.node_name && is_empty e.demux && e.is_dtn_none
is_null (ipn e) = false

abbrev pub same_parts : EndpointType → EndpointType → Bool
same_parts t u =
    bytes_equal (scheme_name t) (scheme_name u) && bytes_equal (authority_of t) (authority_of u)

abbrev pub same_node_types : Option EndpointType → Option EndpointType → Bool
same_node_types none none = true
same_node_types none (some u) = is_null u
same_node_types (some t) none = is_null t
same_node_types (some t) (some u) = same_parts t u

-- `EndpointID.SameNode`
unfoldable pub same_node : EndpointId → EndpointId → Bool
unfolding bytes_equal
same_node a b = same_node_types a.endpoint_type b.endpoint_type
