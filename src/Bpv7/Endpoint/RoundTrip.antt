-- ===== src/Bpv7/Endpoint/RoundTrip.antt =====
-- Endpoints are read back from what was written for them.
use dtn7_go.Base.{
  ℕ, ◌≤◌, ◌≡◌, ◌≢◌, refl, ◌⊎◌, inl, inr, List, [], ◌∷◌, ◌++◌, append_assoc, true, false, none, some,
  arith, length, bytes_equal, ok, Encodes, ◌∙◌, sym, >>=_step, ==_refl, ne→==, Option,
}
use dtn7_go.Cbor.{Libs}
use dtn7_go.Cbor.Laws.{CborLaws, IsU64}
use dtn7_go.Bpv7.Endpoint.Ssp.{on_one_line}
use dtn7_go.Bpv7.Endpoint.Ssp.Laws.{IsNodeText, matches_ssp-name, contains_ssp-name, cut_slash-name}
use dtn7_go.Bpv7.Endpoint.{
  DtnEndpoint, IpnEndpoint, EndpointType, EndpointId, dtn, ipn, ssp_of, parse_dtn_ssp, check_dtn,
  check_ipn, check_endpoint, marshal_dtn, marshal_ipn, marshal_endpoint, dtn_of_text, unmarshal_dtn,
  unmarshal_ipn, unmarshal_endpoint,
}

abbrev pub null_dtn : DtnEndpoint
null_dtn = record { node_name = []; demux = []; is_dtn_none = true }

-- A dtn endpoint as RFC 9171 has it: the null endpoint, or a node name and a demux on one line.
abbrev pub IsWireDtn : DtnEndpoint → Type 0
IsWireDtn e =
    (e ≡ null_dtn)
    ⊎ ((e.is_dtn_none ≡ false)
        × (e.node_name ≢ [])
        × IsNodeText e.node_name
        × (on_one_line e.demux ≡ true))

pub record IsWireIpn (e : IpnEndpoint) : Type 0 where
  pub node_positive : 1 ≤ e.node
  pub node_fits : IsU64 e.node
  pub service_positive : 1 ≤ e.service
  pub service_fits : IsU64 e.service

abbrev pub IsWireType : EndpointType → Type 0
IsWireType (dtn e) = IsWireDtn e × IsU64 (length (ssp_of e))
IsWireType (ipn e) = IsWireIpn e

abbrev IsWireOption : Option EndpointType → Type 0
IsWireOption none = ⊥
IsWireOption (some t) = IsWireType t

-- What can stand in a bundle: an endpoint that is there and that its scheme allows.
abbrev pub IsWireEndpoint : EndpointId → Type 0
IsWireEndpoint eid = IsWireOption eid.endpoint_type

not_none_ssp : (e : DtnEndpoint) → bytes_equal (ssp_of e) (b'n' ∷ b'o' ∷ b'n' ∷ b'e' ∷ []) ≡ false
unfolding ssp_of bytes_equal
not_none_ssp e = refl

pub parse_dtn_ssp-ssp_of :
    (e : DtnEndpoint)
    → e.is_dtn_none ≡ false
    → e.node_name ≢ []
    → IsNodeText e.node_name
    → on_one_line e.demux ≡ true
    → parse_dtn_ssp (ssp_of e) ≡ ok e
unfolding parse_dtn_ssp
parse_dtn_ssp-ssp_of e h ne t l = rw (not_none_ssp e) (
    unfold ssp_of in
    ground (arith, matches_ssp-name e.node_name e.demux ne t, cut_slash-name e.node_name e.demux t))

-- A well-formed dtn endpoint passes the check that is made before it is written.
pub check_dtn-wire : (e : DtnEndpoint) → IsWireDtn e → check_dtn e ≡ ok tt
unfolding check_dtn
check_dtn-wire e (inl null) = rw null
check_dtn-wire e (inr (h, ne, t, l)) =
    rw h (unfold ssp_of in rw (contains_ssp-name e.node_name e.demux ne t))

module _ (lib : Libs) (laws : CborLaws lib) where
  unmarshal_dtn-null :
      (rest : List ℕ) → unmarshal_dtn lib (lib.write_uint 0 ++ rest) ≡ ok (null_dtn, rest)
  unfolding unmarshal_dtn
  unmarshal_dtn-null rest =
      >>=_step lib.read_majors _ (laws.uint_majors 0 rest (omega arith))
      ∙ rw (==_refl lib.major_uint)

  dtn_of_text-ssp_of :
      (e : DtnEndpoint) (rest : List ℕ)
      → e.is_dtn_none ≡ false
      → parse_dtn_ssp (ssp_of e) ≡ ok e
      → dtn_of_text lib (ssp_of e) rest ≡ ok (e, rest)
  unfolding dtn_of_text
  dtn_of_text-ssp_of e rest h p = ground arith

  unmarshal_dtn-text :
      (e : DtnEndpoint) (rest : List ℕ)
      → e.is_dtn_none ≡ false
      → parse_dtn_ssp (ssp_of e) ≡ ok e
      → IsU64 (length (ssp_of e))
      → unmarshal_dtn lib (lib.write_text_string_len (length (ssp_of e)) ++ (ssp_of e ++ rest))
        ≡ ok (e, rest)
  unfolding unmarshal_dtn
  unmarshal_dtn-text e rest h p fits =
      >>=_step lib.read_majors _ (laws.text_majors (length (ssp_of e)) (ssp_of e ++ rest) fits)
      ∙ rw (ne→== lib.major_text lib.major_uint (λ q. laws.majors_differ (sym q)), ==_refl)
          (>>=_step (lib.read_raw_bytes (length (ssp_of e))) _ (laws.raw_bytes (ssp_of e) rest)
            ∙ dtn_of_text-ssp_of e rest h p)

  marshal_dtn-text :
      (e : DtnEndpoint)
      → e.is_dtn_none ≡ false
      → marshal_dtn lib e ≡ lib.write_text_string_len (length (ssp_of e)) ++ ssp_of e
  unfolding marshal_dtn
  marshal_dtn-text e h = ground arith

  unmarshal-marshal_dtn :
      (e : DtnEndpoint) (rest : List ℕ)
      → IsWireDtn e
      → IsU64 (length (ssp_of e))
      → unmarshal_dtn lib (marshal_dtn lib e ++ rest) ≡ ok (e, rest)
  unmarshal-marshal_dtn e rest (inl null) fits =
      rw null (unfold marshal_dtn in unmarshal_dtn-null rest)
  unmarshal-marshal_dtn e rest (inr (h, ne, t, l)) fits =
      simp (marshal_dtn-text e h, append_assoc)
        (unmarshal_dtn-text e rest h (parse_dtn_ssp-ssp_of e h ne t l) fits)

  unmarshal-marshal_ipn :
      (e : IpnEndpoint) (rest : List ℕ)
      → IsWireIpn e
      → unmarshal_ipn lib (marshal_ipn lib e ++ rest) ≡ ok (e, rest)
  unfolding unmarshal_ipn marshal_ipn
  unmarshal-marshal_ipn e rest w = grind (arith, append_assoc, laws.array_length, laws.uint, w)

  check_ipn-wire : (e : IpnEndpoint) → IsWireIpn e → check_ipn e ≡ ok tt
  unfolding check_ipn
  check_ipn-wire e w = ground arith

  unmarshal_endpoint-dtn :
      (e : DtnEndpoint) (rest : List ℕ)
      → IsWireDtn e
      → IsU64 (length (ssp_of e))
      → unmarshal_endpoint lib
          ((lib.write_array_length 2 ++ (lib.write_uint 1 ++ marshal_dtn lib e)) ++ rest)
        ≡ ok (record { endpoint_type = some (dtn e) }, rest)
  unfolding unmarshal_endpoint
  unmarshal_endpoint-dtn e rest w fits =
      rw (append_assoc, append_assoc)
        (>>=_step lib.read_array_length _ (laws.array_length 2 _ (omega arith))
          ∙ >>=_step lib.read_uint _ (laws.uint 1 _ (omega arith))
          ∙ >>=_step (unmarshal_dtn lib) _ (unmarshal-marshal_dtn e rest w fits))

  unmarshal_endpoint-ipn :
      (e : IpnEndpoint) (rest : List ℕ)
      → IsWireIpn e
      → unmarshal_endpoint lib
          ((lib.write_array_length 2 ++ (lib.write_uint 2 ++ marshal_ipn lib e)) ++ rest)
        ≡ ok (record { endpoint_type = some (ipn e) }, rest)
  unfolding unmarshal_endpoint
  unmarshal_endpoint-ipn e rest w =
      rw (append_assoc, append_assoc)
        (>>=_step lib.read_array_length _ (laws.array_length 2 _ (omega arith))
          ∙ >>=_step lib.read_uint _ (laws.uint 2 _ (omega arith))
          ∙ >>=_step (unmarshal_ipn lib) _ (unmarshal-marshal_ipn e rest w))

  encoding_of_option :
      (t : Option EndpointType)
      → IsWireOption t
      → Encodes
          (marshal_endpoint lib (record { endpoint_type = t }))
          (unmarshal_endpoint lib)
          (record { endpoint_type = t })
  unfolding marshal_endpoint check_endpoint
  encoding_of_option none w = absurd w
  encoding_of_option (some (dtn e)) w =
      (_, rw (check_dtn-wire e w.0), λ rest. unmarshal_endpoint-dtn e rest w.0 w.1)
  encoding_of_option (some (ipn e)) w =
      (_, rw (check_ipn-wire e w), λ rest. unmarshal_endpoint-ipn e rest w)

  -- Every endpoint that a bundle may name is written without an error, and is read back as it was
  -- from the front of any input that begins with what was written.
  pub endpoint-Encodes :
      (eid : EndpointId)
      → IsWireEndpoint eid
      → Encodes (marshal_endpoint lib eid) (unmarshal_endpoint lib) eid
  endpoint-Encodes eid w = encoding_of_option eid.endpoint_type w
