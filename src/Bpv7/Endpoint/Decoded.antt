-- ===== src/Bpv7/Endpoint/Decoded.antt =====
-- What the decoder of dtn endpoints lets through.
use dtn7_go.Base.{
  ℕ, ◌≡◌, refl, inl, inr, List, true, false, some, arith, Bool-cases, bytes_equal, ok, Result-cases,
  ◌==◌, ◌>>=◌, >>=-eq-ok, return, fail, wrong_major, if◌then◌else◌,
}
use dtn7_go.Cbor.{Libs}
use dtn7_go.Bpv7.Endpoint.Ssp.{matches_ssp, cut_slash, drop_slashes, none_ssp}
use dtn7_go.Bpv7.Endpoint.Ssp.Laws.{matches_ssp_split, cut_slash-name}
use dtn7_go.Bpv7.Endpoint.{DtnEndpoint, parse_dtn_ssp, check_dtn, dtn_of_text, unmarshal_dtn}
use dtn7_go.Bpv7.Endpoint.RoundTrip.{IsWireDtn, null_dtn, check_dtn-wire}

parse_matching :
    (ssp : List ℕ) (e : DtnEndpoint)
    → bytes_equal ssp none_ssp ≡ false
    → matches_ssp ssp ≡ true
    → parse_dtn_ssp ssp ≡ ok e
    → IsWireDtn e
unfolding parse_dtn_ssp
parse_matching ssp e nn m h =
    let (n, d, eq, ne, t, l) = matches_ssp_split ssp m in
    let parts : cut_slash (drop_slashes ssp) ≡ some (n, d) = rw eq (cut_slash-name n d t) in
    let same : record { node_name = n; demux = d; is_dtn_none = false } ≡ e =
      ground (arith, nn, m, parts, h) in
    rw (← same) (inr (refl, ne, t, l))

-- Parsing the text of an SSP gives the null endpoint or a well-formed one, and nothing else.
pub parse_dtn_ssp-IsWireDtn :
    (ssp : List ℕ) (e : DtnEndpoint) → parse_dtn_ssp ssp ≡ ok e → IsWireDtn e
parse_dtn_ssp-IsWireDtn ssp e h = elim (Bool-cases (bytes_equal ssp none_ssp)) [
  | inl null ↦ unfold parse_dtn_ssp in inl (ground (arith, null))
  | inr other ↦ elim (Bool-cases (matches_ssp ssp)) [
    | inl m ↦ parse_matching ssp e other m h
    | inr m ↦ absurd (unfold parse_dtn_ssp in ground (arith, other, m))
  ]
]

dtn_of_text-IsWireDtn :
    (lib : Libs) (ssp s rest : List ℕ) (e : DtnEndpoint)
    → dtn_of_text lib ssp s ≡ ok (e, rest)
    → IsWireDtn e
unfolding dtn_of_text
dtn_of_text-IsWireDtn lib ssp s rest e h = elim (Result-cases (parse_dtn_ssp ssp)) [
  | inl (e', p) ↦ parse_dtn_ssp-IsWireDtn ssp e (ground (arith, p))
  | inr (inl (x, p)) ↦ absurd (ground (arith, p))
  | inr (inr p) ↦ absurd (ground (arith, p))
]

after_majors :
    (lib : Libs) (m n : ℕ) (s rest : List ℕ) (e : DtnEndpoint)
    → (if m == lib.major_uint
          then return null_dtn
          else if m == lib.major_text
          then lib.read_raw_bytes n >>= dtn_of_text lib
          else fail (wrong_major m))
        s
      ≡ ok (e, rest)
    → IsWireDtn e
after_majors lib m n s rest e h = elim (Bool-cases (m == lib.major_uint)) [
  | inl null ↦ inl (ground (arith, null))
  | inr other ↦ elim (Bool-cases (m == lib.major_text)) [
    | inl text ↦
        let (ssp, s', _, q) =
          >>=-eq-ok (lib.read_raw_bytes n) (dtn_of_text lib) s (rw (other, text) at h) in
        dtn_of_text-IsWireDtn lib ssp s' rest e q
    | inr neither ↦ absurd (ground (arith, other, neither))
  ]
]

-- Whatever bytes come in: a dtn endpoint that is decoded from them is the null endpoint or has a
-- node name and a demux on one line, and so it passes the check made of it later.
pub unmarshal_dtn-valid :
    (lib : Libs) (s rest : List ℕ) (e : DtnEndpoint)
    → unmarshal_dtn lib s ≡ ok (e, rest)
    → IsWireDtn e × (check_dtn e ≡ ok tt)
unfolding unmarshal_dtn
unmarshal_dtn-valid lib s rest e h =
    let ((m, n), s', _, q) = >>=-eq-ok lib.read_majors _ s h in
    let wire : IsWireDtn e = after_majors lib m n s' rest e q in (wire, check_dtn-wire e wire)
