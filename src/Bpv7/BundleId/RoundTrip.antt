-- ===== src/Bpv7/BundleId/RoundTrip.antt =====
-- A bundle ID is read back from its text if the source's text has no dash.
use dtn7_go.Base.{
  ℕ, suc, ◌<◌, ◌^◌, ◌≡◌, refl, List, [], ◌∷◌, ◌++◌, true, false, ◌==◌, if◌then◌else◌, arith, ok,
  append_assoc, append-nil,
}
use dtn7_go.Base.Decimal.{decimal, all_digits}
use dtn7_go.Base.Decimal.Laws.{parse_uint-decimal, all_digits-decimal}
use dtn7_go.Bpv7.Endpoint.Text.{string_endpoint}
use dtn7_go.Bpv7.Endpoint.Text.Printed.{IsNamed, new_endpoint_id-string_endpoint}
use dtn7_go.Bpv7.Bundle.{BundleId}
use dtn7_go.Bpv7.BundleId.{two_numbers, string_bundle_id, split_dashes, whole_of, new_bundle_id}

-- How often a text has the character that `Split` cuts at.
unfoldable pub dashes : List ℕ → ℕ
dashes [] = 0
dashes (c ∷ cs) = let rest = dashes cs in if c == b'-' then suc rest else rest

pub split_dashes-front :
    (a rest : List ℕ) → dashes a ≡ 0 → split_dashes (a ++ (b'-' ∷ rest)) ≡ a ∷ split_dashes rest
unfolding split_dashes dashes
split_dashes-front [] rest h = refl
split_dashes-front (c ∷ cs) rest h = ground (arith, split_dashes-front cs rest)

pub split_dashes-last : (a : List ℕ) → dashes a ≡ 0 → split_dashes a ≡ a ∷ []
unfolding split_dashes dashes
split_dashes-last [] h = refl
split_dashes-last (c ∷ cs) h = ground (arith, split_dashes-last cs)

dashes-digits : (cs : List ℕ) → all_digits cs ≡ true → dashes cs ≡ 0
unfolding dashes all_digits
dashes-digits [] h = refl
dashes-digits (c ∷ cs) h = ground (arith, dashes-digits cs)

pub dashes-decimal : (n : ℕ) → dashes (decimal n) ≡ 0
dashes-decimal n = dashes-digits (decimal n) (all_digits-decimal n)

-- The numbers have 64 bits, those of a bundle that is no fragment are 0, and the source is an
-- endpoint that has a text.
pub record HasText (bid : BundleId) : Type 0 where
  pub source_named : IsNamed bid.source_node
  pub time_fits : bid.timestamp.dtn_time < 2 ^ 64
  pub number_fits : bid.timestamp.sequence_number < 2 ^ 64
  pub offset_fits : bid.fragment_offset < 2 ^ 64
  pub total_fits : bid.total_data_length < 2 ^ 64
  pub whole_has_no_offset : bid.is_fragment ≡ false → bid.fragment_offset ≡ 0
  pub whole_has_no_total : bid.is_fragment ≡ false → bid.total_data_length ≡ 0

parts_of_whole :
    (source : List ℕ) (a b : ℕ)
    → dashes source ≡ 0
    → split_dashes (source ++ (two_numbers a b ++ [])) ≡ source ∷ decimal a ∷ decimal b ∷ []
parts_of_whole source a b h =
    rw
      (
        append-nil,
        split_dashes-front source _ h,
        split_dashes-front (decimal a) _ (dashes-decimal a),
        split_dashes-last (decimal b) (dashes-decimal b),
      )
      refl

parts_of_fragment :
    (source : List ℕ) (a b c d : ℕ)
    → dashes source ≡ 0
    → split_dashes (source ++ (two_numbers a b ++ two_numbers c d))
      ≡ source ∷ decimal a ∷ decimal b ∷ decimal c ∷ decimal d ∷ []
parts_of_fragment source a b c d h =
    rw
      (
        split_dashes-front source _ h,
        append_assoc,
        split_dashes-front (decimal a) _ (dashes-decimal a),
        split_dashes-front (decimal b) _ (dashes-decimal b),
        split_dashes-front (decimal c) _ (dashes-decimal c),
        split_dashes-last (decimal d) (dashes-decimal d),
      )
      refl

whole_of-texts :
    (bid : BundleId)
    → HasText bid
    → whole_of
        (string_endpoint bid.source_node)
        (decimal bid.timestamp.dtn_time)
        (decimal bid.timestamp.sequence_number)
      ≡ ok (record bid { is_fragment = false; fragment_offset = 0; total_data_length = 0 })
whole_of-texts bid fits = ground (
  arith,
  new_endpoint_id-string_endpoint bid.source_node fits.source_named,
  parse_uint-decimal bid.timestamp.dtn_time fits.time_fits,
  parse_uint-decimal bid.timestamp.sequence_number fits.number_fits,
)

-- `NewBundleID` reads from a bundle ID's `String` that ID again, fragment or not, if the text of the
-- source has no dash and the numbers have 64 bits.
pub new_bundle_id-string_bundle_id :
    (bid : BundleId)
    → HasText bid
    → dashes (string_endpoint bid.source_node) ≡ 0
    → new_bundle_id (string_bundle_id bid) ≡ ok bid
unfolding new_bundle_id string_bundle_id
new_bundle_id-string_bundle_id bid fits h = ground (
  arith,
  fits,
  whole_of-texts bid fits,
  parts_of_whole (string_endpoint bid.source_node) bid.timestamp.dtn_time
      bid.timestamp.sequence_number h,
  parts_of_fragment (string_endpoint bid.source_node) bid.timestamp.dtn_time
      bid.timestamp.sequence_number bid.fragment_offset bid.total_data_length h,
  parse_uint-decimal bid.fragment_offset fits.offset_fits,
  parse_uint-decimal bid.total_data_length fits.total_fits,
  fits.whole_has_no_offset,
  fits.whole_has_no_total,
)
