-- ===== src/Bpv7/BundleId.antt =====
-- pkg/bpv7/bundle_id.go: the texts of bundle IDs. The record itself is in `Bundle`, the wire format
-- in `Administrative`.
pub mod RoundTrip
pub mod Dashes
use dtn7_go.Base.{
  ℕ, List, [], ◌∷◌, ◌++◌, Bool, true, false, ◌==◌, if◌then◌else◌, Result, ok, err, then_ok,
  malformed_bundle_id,
}
use dtn7_go.Base.Decimal.{decimal, parse_uint}
use dtn7_go.Bpv7.Endpoint.Text.{string_endpoint, new_endpoint_id}
use dtn7_go.Bpv7.Bundle.{BundleId}

-- "-%d-%d"
abbrev pub two_numbers : ℕ → ℕ → List ℕ
two_numbers a b = b'-' ∷ (decimal a ++ (b'-' ∷ decimal b))

-- `BundleID.String`
unfoldable pub string_bundle_id : BundleId → List ℕ
string_bundle_id bid =
    string_endpoint bid.source_node
    ++ (two_numbers bid.timestamp.dtn_time bid.timestamp.sequence_number
        ++ (if bid.is_fragment then two_numbers bid.fragment_offset bid.total_data_length else []))

abbrev pub in_front : ℕ → List (List ℕ) → List (List ℕ)
in_front c [] = (c ∷ []) ∷ []
in_front c (p ∷ ps) = (c ∷ p) ∷ ps

-- `strings.Split(s, "-")`
unfoldable pub split_dashes : List ℕ → List (List ℕ)
split_dashes [] = [] ∷ []
split_dashes (c ∷ cs) =
    let rest = split_dashes cs in if c == b'-' then [] ∷ rest else in_front c rest

abbrev pub whole_of : List ℕ → List ℕ → List ℕ → Result BundleId
whole_of source time number = then_ok (new_endpoint_id source) λ eid. then_ok (parse_uint time) λ t.
    then_ok (parse_uint number) λ n. ok (record {
      source_node = eid;
      timestamp = record { dtn_time = t; sequence_number = n };
      is_fragment = false;
      fragment_offset = 0;
      total_data_length = 0;
    })

abbrev pub fragment_of : BundleId → List ℕ → List ℕ → Result BundleId
fragment_of bid offset total = then_ok (parse_uint offset) λ o.
    then_ok (parse_uint total)
      λ l. ok (record bid { is_fragment = true; fragment_offset = o; total_data_length = l })

abbrev pub id_of_parts : List (List ℕ) → Result BundleId
id_of_parts (s ∷ t ∷ n ∷ []) = whole_of s t n
id_of_parts (s ∷ t ∷ n ∷ o ∷ l ∷ []) = then_ok (whole_of s t n) λ bid. fragment_of bid o l
id_of_parts parts = err malformed_bundle_id

-- `NewBundleID`
unfoldable pub new_bundle_id : List ℕ → Result BundleId
new_bundle_id uri = id_of_parts (split_dashes uri)
