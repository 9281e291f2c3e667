-- ===== src/Bpv7/Endpoint/Text/Parsed.antt =====
-- What the constructors of endpoints let through.
use dtn7_go.Base.{
  ℕ, ◌≡◌, inl, inr, List, false, some, arith, ok, Option-cases, subst, Bool-cases, bytes_equal,
  then_ok-eq-ok, Result, ◌<◌, ◌^◌, ◌∷◌, [], ◌++◌,
}
use dtn7_go.Base.Decimal.{parse_uint}
use dtn7_go.Base.Decimal.Laws.{parse_uint-lt}
use dtn7_go.Bpv7.Endpoint.{
  IpnEndpoint, EndpointType, EndpointId, dtn, ipn, parse_dtn_ssp, check_ipn,
}
use dtn7_go.Bpv7.Endpoint.RoundTrip.{IsWireDtn, check_dtn-wire}
use dtn7_go.Bpv7.Endpoint.Decoded.{parse_dtn_ssp-IsWireDtn}
use dtn7_go.Bpv7.Endpoint.Text.{
  string_endpoint, scheme_of, strip_prefix, new_dtn_endpoint, ipn_numbers, ipn_of, new_ipn_endpoint,
  new_endpoint_id, checked, id_of_type, dtn_name, ipn_name,
}
use dtn7_go.Bpv7.Endpoint.Text.Printed.{IsNamedType, IsNamed, new_endpoint_id-string_endpoint}

new_dtn_endpoint-IsNamedType :
    (uri : List ℕ) (t : EndpointType) → new_dtn_endpoint uri ≡ ok t → IsNamedType t
unfolding new_dtn_endpoint
new_dtn_endpoint-IsNamedType uri t h =
    elim (Option-cases (strip_prefix (dtn_name ++ (b':' ∷ [])) uri)) [
      | inl n ↦ absurd (ground (arith, n))
      | inr (ssp, s) ↦
          let (e, p, q) =
            then_ok-eq-ok (parse_dtn_ssp ssp) (λ e. checked (dtn e)) {b = t} (ground (arith, s)) in
          let w : IsWireDtn e = parse_dtn_ssp-IsWireDtn ssp e p in
          let same : dtn e ≡ t = ground (arith, check_dtn-wire e w) in subst IsNamedType same w
    ]

checked_ipn-IsNamedType :
    (e : IpnEndpoint) (t : EndpointType)
    → e.node < 2 ^ 64
    → e.service < 2 ^ 64
    → checked (ipn e) ≡ ok t
    → IsNamedType t
unfolding check_ipn
checked_ipn-IsNamedType e t fn fs h =
    let (_, c, same) = then_ok-eq-ok (check_ipn e) (λ _. ok (ipn e)) {b = t} h in
    let same' : ipn e ≡ t = ground (arith, same) in
    subst IsNamedType same' (record {
      node_positive = ground (arith, c);
      node_fits = fn;
      service_positive = ground (arith, c);
      service_fits = fs;
    })

ipn_of-IsNamedType : (n s : List ℕ) (t : EndpointType) → ipn_of n s ≡ ok t → IsNamedType t
ipn_of-IsNamedType n s t h =
    let (node, pn, rest) = then_ok-eq-ok (parse_uint n) _ {b = t} h in
    let (service, ps, last) = then_ok-eq-ok (parse_uint s) _ {b = t} rest in
    checked_ipn-IsNamedType (record { node = node; service = service }) t (parse_uint-lt n node pn)
      (parse_uint-lt s service ps) last

new_ipn_endpoint-IsNamedType :
    (uri : List ℕ) (t : EndpointType) → new_ipn_endpoint uri ≡ ok t → IsNamedType t
unfolding new_ipn_endpoint
new_ipn_endpoint-IsNamedType uri t h = elim (Option-cases (ipn_numbers uri)) [
  | inl n ↦ absurd (ground (arith, n))
  | inr ((n, s), q) ↦ ipn_of-IsNamedType n s t (ground (arith, q))
]

id_of_type-IsNamed :
    (r : Result EndpointType) (eid : EndpointId)
    → ((t : EndpointType) → r ≡ ok t → IsNamedType t)
    → id_of_type r ≡ ok eid
    → IsNamed eid
id_of_type-IsNamed r eid named h =
    let (t, p, same) = then_ok-eq-ok r _ {b = eid} h in
    let same' : record { endpoint_type = some t } ≡ eid = ground (arith, same) in
    subst IsNamed same' (named t p)

-- What `NewEndpointID` accepts has the form that its scheme asks for.
pub new_endpoint_id-IsNamed :
    (uri : List ℕ) (eid : EndpointId) → new_endpoint_id uri ≡ ok eid → IsNamed eid
unfolding new_endpoint_id
new_endpoint_id-IsNamed uri eid h = elim (Option-cases (scheme_of false uri)) [
  | inl n ↦ absurd (ground (arith, n))
  | inr (scheme, s) ↦ elim (Bool-cases (bytes_equal scheme dtn_name)) [
    | inl d ↦
        id_of_type-IsNamed (new_dtn_endpoint uri) eid (new_dtn_endpoint-IsNamedType uri)
          (ground (arith, s, d))
    | inr d ↦ elim (Bool-cases (bytes_equal scheme ipn_name)) [
      | inl i ↦
          id_of_type-IsNamed (new_ipn_endpoint uri) eid (new_ipn_endpoint-IsNamedType uri)
            (ground (arith, s, d, i))
      | inr i ↦ absurd (ground (arith, s, d, i))
    ]
  ]
]

-- Whatever text comes in: an endpoint that `NewEndpointID` makes of it is read back from the text
-- that `String` gives for it, so that this text is a canonical one.
pub new_endpoint_id-stable :
    (uri : List ℕ) (eid : EndpointId)
    → new_endpoint_id uri ≡ ok eid
    → new_endpoint_id (string_endpoint eid) ≡ ok eid
new_endpoint_id-stable uri eid h =
    new_endpoint_id-string_endpoint eid (new_endpoint_id-IsNamed uri eid h)
