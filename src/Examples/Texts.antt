-- ===== src/Examples/Texts.antt =====
-- Texts of endpoints and bundle IDs, and what the theorems say of them.
use dtn7_go.Base.{◌≡◌, ◌≢◌, refl, [], ◌∷◌, arith, ok, inr}
use dtn7_go.Base.Decimal.{decimal}
use dtn7_go.Bpv7.Endpoint.{EndpointId}
use dtn7_go.Bpv7.Endpoint.Ssp.{is_node_char, on_one_line}
use dtn7_go.Bpv7.Endpoint.Text.{string_endpoint, new_endpoint_id, string_dtn, string_ipn}
use dtn7_go.Bpv7.Endpoint.Text.Printed.{IsNamed, new_endpoint_id-string_endpoint}
use dtn7_go.Bpv7.Bundle.{BundleId}
use dtn7_go.Bpv7.BundleId.{string_bundle_id, new_bundle_id}
use dtn7_go.Bpv7.BundleId.RoundTrip.{HasText, dashes, new_bundle_id-string_bundle_id}
use dtn7_go.Bpv7.BundleId.Dashes.{dtn_source, fragment_from, whole_from, string_bundle_id-collides}
use dtn7_go.Examples.Blocks.{service}

-- "dtn://s7/a"
abbrev seven : EndpointId
seven = dtn_source (b's' ∷ b'7' ∷ []) (b'a' ∷ [])

seven-IsNamed : IsNamed seven
unfolding is_node_char on_one_line
seven-IsNamed = inr (refl, (λ e. absurd (ground (arith, e))), (refl, (refl, tt)), refl)

new_endpoint_id-string_endpoint_example : new_endpoint_id (string_endpoint seven) ≡ ok seven
new_endpoint_id-string_endpoint_example = new_endpoint_id-string_endpoint seven seven-IsNamed

-- A fragment from that source.
abbrev part : BundleId
part = fragment_from (b's' ∷ b'7' ∷ []) (b'a' ∷ []) 12 3 40 500

part-HasText : HasText part
part-HasText = record {
  source_named = seven-IsNamed;
  time_fits = omega arith;
  number_fits = omega arith;
  offset_fits = omega arith;
  total_fits = omega arith;
  whole_has_no_offset = λ e. absurd (ground (arith, e));
  whole_has_no_total = λ e. absurd (ground (arith, e));
}

new_bundle_id-string_bundle_id_example : new_bundle_id (string_bundle_id part) ≡ ok part
unfolding dashes string_dtn
new_bundle_id-string_bundle_id_example = new_bundle_id-string_bundle_id part part-HasText refl

string_bundle_id-collides_example :
    (string_bundle_id (whole_from (b's' ∷ b'7' ∷ []) (b'a' ∷ []) 12 3 40 500)
      ≡ string_bundle_id part)
    × (new_bundle_id (string_bundle_id (whole_from (b's' ∷ b'7' ∷ []) (b'a' ∷ []) 12 3 40 500))
        ≡ ok part)
    × (whole_from (b's' ∷ b'7' ∷ []) (b'a' ∷ []) 12 3 40 500 ≢ part)
unfolding dashes string_dtn
string_bundle_id-collides_example =
    string_bundle_id-collides (b's' ∷ b'7' ∷ []) (b'a' ∷ []) 12 3 40 500 part-HasText refl

-- "dtn://s-7/a", of a node with a dash in its name.
abbrev dashed : BundleId
dashed = record part { source_node = dtn_source (b's' ∷ b'-' ∷ b'7' ∷ []) (b'a' ∷ []) }

-- The texts as Go prints them.
printed_ipn :
    string_endpoint (service 42) ≡ b'i' ∷ b'p' ∷ b'n' ∷ b':' ∷ b'3' ∷ b'.' ∷ b'4' ∷ b'2' ∷ []
printed_ipn = unfold string_ipn decimal in refl
