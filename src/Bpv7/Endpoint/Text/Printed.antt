-- ===== src/Bpv7/Endpoint/Text/Printed.antt =====
-- An endpoint's text is read back as that endpoint.
use dtn7_go.Base.{
  ℕ, ◌≡◌, refl, inl, inr, List, [], ◌∷◌, ◌++◌, true, false, Option, none, some, arith, ok, ◌∙◌,
  bytes_equal,
}
use dtn7_go.Base.Decimal.{decimal, all_digits, is_empty}
use dtn7_go.Base.Decimal.Laws.{parse_uint-decimal, all_digits-decimal, is_empty-decimal}
use dtn7_go.Bpv7.Endpoint.Ssp.{on_one_line, none_ssp, is_node_char}
use dtn7_go.Bpv7.Endpoint.Ssp.Laws.{IsNodeText}
use dtn7_go.Bpv7.Endpoint.{
  DtnEndpoint, IpnEndpoint, EndpointType, EndpointId, dtn, ipn, ssp_of, parse_dtn_ssp, check_dtn,
  check_ipn,
}
use dtn7_go.Bpv7.Endpoint.RoundTrip.{IsWireDtn, IsWireIpn, parse_dtn_ssp-ssp_of, check_dtn-wire}
use dtn7_go.Bpv7.Endpoint.Text.{
  string_dtn, string_ipn, string_endpoint, scheme_of, strip_prefix, cut_at, new_dtn_endpoint,
  ipn_numbers, new_ipn_endpoint, new_endpoint_id, dtn_name, ipn_name,
}

abbrev pub IsNamedType : EndpointType → Type 0
IsNamedType (dtn e) = IsWireDtn e
IsNamedType (ipn e) = IsWireIpn e

abbrev IsNamedOption : Option EndpointType → Type 0
IsNamedOption none = ⊥
IsNamedOption (some t) = IsNamedType t

-- An endpoint with a type, of the form that the type's scheme asks for, of any length.
abbrev pub IsNamed : EndpointId → Type 0
IsNamed eid = IsNamedOption eid.endpoint_type

on_one_line-append :
    (cs ds : List ℕ) → on_one_line cs ≡ true → on_one_line (cs ++ ds) ≡ on_one_line ds
unfolding on_one_line
on_one_line-append [] ds h = refl
on_one_line-append (c ∷ cs) ds h = ground (arith, on_one_line-append cs ds)

on_one_line-name : (n : List ℕ) → IsNodeText n → on_one_line n ≡ true
unfolding on_one_line is_node_char
on_one_line-name [] t = refl
on_one_line-name (c ∷ cs) t = ground (arith, t.0, on_one_line-name cs t.1)

on_one_line-digits : (cs : List ℕ) → all_digits cs ≡ true → on_one_line cs ≡ true
unfolding on_one_line all_digits
on_one_line-digits [] t = refl
on_one_line-digits (c ∷ cs) t = ground (arith, on_one_line-digits cs)

cut_at-digits :
    (n rest : List ℕ) → all_digits n ≡ true → cut_at b'.' (n ++ (b'.' ∷ rest)) ≡ some (n, rest)
unfolding cut_at all_digits
cut_at-digits [] rest h = refl
cut_at-digits (c ∷ cs) rest h = ground (arith, cut_at-digits cs rest)

pub scheme_of-dtn :
    (cs : List ℕ)
    → is_empty cs ≡ false
    → on_one_line cs ≡ true
    → scheme_of false (dtn_name ++ (b':' ∷ cs)) ≡ some dtn_name
unfolding scheme_of
scheme_of-dtn cs f h = rw (f, h) refl

pub scheme_of-ipn :
    (cs : List ℕ)
    → is_empty cs ≡ false
    → on_one_line cs ≡ true
    → scheme_of false (ipn_name ++ (b':' ∷ cs)) ≡ some ipn_name
unfolding scheme_of
scheme_of-ipn cs f h = rw (f, h) refl

pub check_ipn-wire_ipn : (e : IpnEndpoint) → IsWireIpn e → check_ipn e ≡ ok tt
unfolding check_ipn
check_ipn-wire_ipn e w = ground arith

new_dtn_endpoint-string_dtn :
    (e : DtnEndpoint) → IsWireDtn e → new_dtn_endpoint (string_dtn e) ≡ ok (dtn e)
unfolding new_dtn_endpoint string_dtn strip_prefix
new_dtn_endpoint-string_dtn e (inl null) =
    rw null (unfold parse_dtn_ssp check_dtn bytes_equal in refl)
new_dtn_endpoint-string_dtn e (inr (h, ne, t, l)) =
    let parsed : parse_dtn_ssp (b'/' ∷ b'/' ∷ (e.node_name ++ (b'/' ∷ e.demux))) ≡ ok e =
      unfold ssp_of in parse_dtn_ssp-ssp_of e h ne t l in
    ground (arith, parsed, check_dtn-wire e (inr (h, ne, t, l)))

scheme_of-string_dtn :
    (e : DtnEndpoint) → IsWireDtn e → scheme_of false (string_dtn e) ≡ some dtn_name
unfolding string_dtn
scheme_of-string_dtn e (inl null) =
    rw null (scheme_of-dtn none_ssp refl (unfold on_one_line in refl))
scheme_of-string_dtn e (inr (h, ne, t, l)) = rw h (scheme_of-dtn _ refl one)
  where
    one : on_one_line (b'/' ∷ b'/' ∷ (e.node_name ++ (b'/' ∷ e.demux))) ≡ true
    one =
        unfold on_one_line in
        on_one_line-append e.node_name (b'/' ∷ e.demux) (on_one_line-name e.node_name t) ∙ l

ipn_numbers-string_ipn :
    (e : IpnEndpoint) → ipn_numbers (string_ipn e) ≡ some (decimal e.node, decimal e.service)
unfolding ipn_numbers string_ipn strip_prefix
ipn_numbers-string_ipn e = ground (
  arith,
  cut_at-digits (decimal e.node) (decimal e.service) (all_digits-decimal e.node),
  is_empty-decimal e.node,
  is_empty-decimal e.service,
  all_digits-decimal e.node,
  all_digits-decimal e.service,
)

new_ipn_endpoint-string_ipn :
    (e : IpnEndpoint) → IsWireIpn e → new_ipn_endpoint (string_ipn e) ≡ ok (ipn e)
unfolding new_ipn_endpoint
new_ipn_endpoint-string_ipn e w = ground (
  arith,
  ipn_numbers-string_ipn e,
  parse_uint-decimal e.node w.node_fits,
  parse_uint-decimal e.service w.service_fits,
  check_ipn-wire_ipn e w,
)

is_empty-append : (cs ds : List ℕ) → is_empty cs ≡ false → is_empty (cs ++ ds) ≡ false
is_empty-append [] ds h = absurd (ground arith)
is_empty-append (c ∷ cs) ds h = refl

scheme_of-string_ipn : (e : IpnEndpoint) → scheme_of false (string_ipn e) ≡ some ipn_name
unfolding string_ipn
scheme_of-string_ipn e =
    scheme_of-ipn _ (is_empty-append (decimal e.node) _ (is_empty-decimal e.node)) one
  where
    one : on_one_line (decimal e.node ++ (b'.' ∷ decimal e.service)) ≡ true
    one =
        on_one_line-append (decimal e.node) (b'.' ∷ decimal e.service)
          (on_one_line-digits (decimal e.node) (all_digits-decimal e.node))
        ∙ (unfold on_one_line in
            on_one_line-digits (decimal e.service) (all_digits-decimal e.service))

new-string_type :
    (t : EndpointType)
    → IsNamedType t
    → new_endpoint_id (string_endpoint (record { endpoint_type = some t }))
      ≡ ok (record { endpoint_type = some t })
unfolding new_endpoint_id bytes_equal
new-string_type (dtn e) w =
    ground (arith, scheme_of-string_dtn e w, new_dtn_endpoint-string_dtn e w)
new-string_type (ipn e) w = ground (arith, scheme_of-string_ipn e, new_ipn_endpoint-string_ipn e w)

new-string_option :
    (o : Option EndpointType)
    → IsNamed (record { endpoint_type = o })
    → new_endpoint_id (string_endpoint (record { endpoint_type = o }))
      ≡ ok (record { endpoint_type = o })
new-string_option none w = absurd w
new-string_option (some t) w = new-string_type t w

-- `NewEndpointID` reads from an endpoint's `String` that endpoint again: the null endpoint, a node
-- name of the allowed characters with a demux on one line, or an ipn endpoint of two positive
-- numbers of 64 bits.
pub new_endpoint_id-string_endpoint :
    (eid : EndpointId) → IsNamed eid → new_endpoint_id (string_endpoint eid) ≡ ok eid
new_endpoint_id-string_endpoint eid w = new-string_option eid.endpoint_type w
