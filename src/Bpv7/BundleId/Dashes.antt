-- ===== src/Bpv7/BundleId/Dashes.antt =====
-- What becomes of the text of a bundle ID whose source has a dash, which node names and demuxes may
-- have.
use dtn7_go.Base.{
  ℕ, suc, ◌+◌, ◌≡◌, ◌≢◌, refl, List, [], ◌∷◌, ◌++◌, true, false, if◌then◌else◌, arith, ok, err, ap,
  ◌∙◌, ◌≤◌, length, append_assoc, append-nil, some, malformed_bundle_id, ◌⊎◌, ◌<◌,
}
use dtn7_go.Base.Decimal.{decimal}
use dtn7_go.Bpv7.Endpoint.{EndpointId, dtn}
use dtn7_go.Bpv7.Endpoint.Text.{string_endpoint, string_dtn}
use dtn7_go.Bpv7.Bundle.{BundleId}
use dtn7_go.Bpv7.BundleId.{
  two_numbers, string_bundle_id, split_dashes, in_front, id_of_parts, new_bundle_id,
}
use dtn7_go.Bpv7.BundleId.RoundTrip.{
  HasText, dashes, dashes-decimal, new_bundle_id-string_bundle_id,
}

length-split_dashes : (s : List ℕ) → length (split_dashes s) ≡ suc (dashes s)
unfolding split_dashes dashes
length-split_dashes [] = refl
length-split_dashes (c ∷ cs) =
    ground (arith, length-split_dashes cs, length-in_front c (split_dashes cs))
  where
    length-in_front :
        (c : ℕ) (ps : List (List ℕ)) → 0 < length ps → length (in_front c ps) ≡ length ps
    length-in_front c [] h = absurd (omega arith)
    length-in_front c (p ∷ ps) h = refl

dashes-append : (a b : List ℕ) → dashes (a ++ b) ≡ dashes a + dashes b
unfolding dashes
dashes-append [] b = omega arith
dashes-append (c ∷ cs) b = ground (arith, dashes-append cs b)

dashes-two_numbers : (a b : ℕ) → dashes (two_numbers a b) ≡ 2
unfolding dashes
dashes-two_numbers a b =
    omega (arith, dashes-decimal a, dashes-decimal b, dashes-append (decimal a) (b'-' ∷ decimal b))

dashes-string_bundle_id :
    (bid : BundleId)
    → dashes (string_bundle_id bid)
      ≡ dashes (string_endpoint bid.source_node) + (if bid.is_fragment then 4 else 2)
unfolding string_bundle_id dashes
dashes-string_bundle_id bid =
    let (whole, fragment) : List ℕ × List ℕ = (
      two_numbers bid.timestamp.dtn_time bid.timestamp.sequence_number,
      two_numbers bid.fragment_offset bid.total_data_length,
    ) in
    let tail : List ℕ = if bid.is_fragment then fragment else [] in
    ground (
      arith,
      dashes-append (string_endpoint bid.source_node) (whole ++ tail),
      dashes-append whole tail,
      dashes-two_numbers bid.timestamp.dtn_time bid.timestamp.sequence_number,
      dashes-two_numbers bid.fragment_offset bid.total_data_length,
    )

id_of_other_parts :
    (ps : List (List ℕ)) → length ps ≢ 3 → length ps ≢ 5 → id_of_parts ps ≡ err malformed_bundle_id
id_of_other_parts [] f t = refl
id_of_other_parts (a ∷ []) f t = refl
id_of_other_parts (a ∷ b ∷ []) f t = refl
id_of_other_parts (a ∷ b ∷ c ∷ []) f t = absurd (f refl)
id_of_other_parts (a ∷ b ∷ c ∷ d ∷ []) f t = refl
id_of_other_parts (a ∷ b ∷ c ∷ d ∷ e ∷ []) f t = absurd (t refl)
id_of_other_parts (a ∷ b ∷ c ∷ d ∷ e ∷ g ∷ ps) f t = refl

-- If the source's text has a dash, `NewBundleID` refuses the text of the ID, though it is `String`
-- that has written it, but for a bundle that is no fragment with just two dashes in its source.
pub new_bundle_id-dash :
    (bid : BundleId)
    → 1 ≤ dashes (string_endpoint bid.source_node)
    → (bid.is_fragment ≡ true) ⊎ (dashes (string_endpoint bid.source_node) ≢ 2)
    → new_bundle_id (string_bundle_id bid) ≡ err malformed_bundle_id
unfolding new_bundle_id
new_bundle_id-dash bid some_dash other =
    id_of_other_parts (split_dashes (string_bundle_id bid)) (λ h. ground (arith, parts, h))
      λ h. ground (arith, parts, h, other)
  where
    parts :
        length (split_dashes (string_bundle_id bid))
        ≡ suc (dashes (string_endpoint bid.source_node) + (if bid.is_fragment then 4 else 2))
    parts = length-split_dashes (string_bundle_id bid) ∙ ap suc (dashes-string_bundle_id bid)

abbrev pub dtn_source : List ℕ → List ℕ → EndpointId
dtn_source name demux = record {
  endpoint_type = some (dtn (record { node_name = name; demux = demux; is_dtn_none = false }));
}

-- The bundle of one moment and number from a source whose demux ends in "-a-b".
abbrev pub whole_from : List ℕ → List ℕ → (a b c d : ℕ) → BundleId
whole_from name demux a b c d = record {
  source_node = dtn_source name (demux ++ two_numbers a b);
  timestamp = record { dtn_time = c; sequence_number = d };
  is_fragment = false;
  fragment_offset = 0;
  total_data_length = 0;
}

-- A fragment of the bundle of moment `a` and number `b` from the source without that ending.
abbrev pub fragment_from : List ℕ → List ℕ → (a b c d : ℕ) → BundleId
fragment_from name demux a b c d = record {
  source_node = dtn_source name demux;
  timestamp = record { dtn_time = a; sequence_number = b };
  is_fragment = true;
  fragment_offset = c;
  total_data_length = d;
}

-- Take a fragment of a bundle from a dtn endpoint that has a text without a dash, with numbers of 64
-- bits; and the whole bundle from the endpoint whose demux has the fragment's time and number behind
-- it, with the fragment's offset and total length as its time and number. Their IDs differ and have one
-- text, and `NewBundleID` takes this text for the fragment's.
pub string_bundle_id-collides :
    (name demux : List ℕ) (a b c d : ℕ)
    → HasText (fragment_from name demux a b c d)
    → dashes (string_endpoint (dtn_source name demux)) ≡ 0
    → (string_bundle_id (whole_from name demux a b c d)
        ≡ string_bundle_id (fragment_from name demux a b c d))
      × (new_bundle_id (string_bundle_id (whole_from name demux a b c d))
          ≡ ok (fragment_from name demux a b c d))
      × (whole_from name demux a b c d ≢ fragment_from name demux a b c d)
string_bundle_id-collides name demux a b c d fits h = (
  same,
  rw same (new_bundle_id-string_bundle_id (fragment_from name demux a b c d) fits h),
  λ e. absurd (ground (arith, ap (λ (i : BundleId). i.is_fragment) e)),
)
  where
    same :
        string_bundle_id (whole_from name demux a b c d)
        ≡ string_bundle_id (fragment_from name demux a b c d)
    same = unfold string_bundle_id string_dtn in simp (append_assoc, append-nil)
