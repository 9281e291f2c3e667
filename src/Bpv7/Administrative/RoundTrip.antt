-- ===== src/Bpv7/Administrative/RoundTrip.antt =====
-- An administrative record is read back from what was written for it.
use dtn7_go.Base.{
  ℕ, ◌+◌, ◌<◌, ◌^◌, ◌≡◌, refl, List, ◌++◌, append_assoc, Bool, true, false, ◌||◌, ◌==◌, length, All,
  ok, Encodes, arith,
}
use dtn7_go.Cbor.{Libs}
use dtn7_go.Cbor.Laws.{CborLaws, IsU64}
use dtn7_go.Bpv7.Time.{marshal_timestamp}
use dtn7_go.Bpv7.Time.RoundTrip.{TimestampFits, unmarshal-marshal_timestamp}
use dtn7_go.Bpv7.Endpoint.RoundTrip.{IsWireEndpoint, endpoint-Encodes}
use dtn7_go.Bpv7.Bundle.{BundleId}
use dtn7_go.Bpv7.Administrative.{
  StatusReport, bundle_id_len, marshal_items, fragment_numbers, read_fragment_numbers,
  marshal_bundle_id, unmarshal_bundle_id, marshal_report, unmarshal_report, made, is_known_record,
  write_administrative_record, read_administrative_record, administrative_record_from_cbor,
}
use dtn7_go.Bpv7.Administrative.Items.{ItemFits, unmarshal-marshal_items}

-- The numbers have 64 bits, and those of a bundle that is no fragment are 0.
pub record BundleIdFits (bid : BundleId) : Type 0 where
  pub source_fits : IsWireEndpoint bid.source_node
  pub timestamp_fits : TimestampFits bid.timestamp
  pub offset_fits : IsU64 bid.fragment_offset
  pub total_fits : IsU64 bid.total_data_length
  pub whole_has_no_offset : bid.is_fragment ≡ false → bid.fragment_offset ≡ 0
  pub whole_has_no_total : bid.is_fragment ≡ false → bid.total_data_length ≡ 0

-- The items and the reason fit, and there are less than 2 ^ 40 items.
pub record ReportFits (sr : StatusReport) : Type 0 where
  pub items_fit : All ItemFits sr.status_information
  pub few_items : length sr.status_information < 2 ^ 40
  pub reason_fits : IsU64 sr.report_reason
  pub bundle_fits : BundleIdFits sr.ref_bundle

module _ (lib : Libs) (laws : CborLaws lib) where
  numbers_read :
      (fragment : Bool) (bid : BundleId) (rest : List ℕ)
      → bid.is_fragment ≡ fragment
      → BundleIdFits bid
      → read_fragment_numbers lib fragment (fragment_numbers lib bid ++ rest)
        ≡ ok ((bid.fragment_offset, bid.total_data_length), rest)
  numbers_read true bid rest same fits =
      grind (arith, append_assoc, laws.uint, same, fits.offset_fits, fits.total_fits)
  numbers_read false bid rest same fits =
      ground (arith, same, fits.whole_has_no_offset same, fits.whole_has_no_total same)

  bundle_id-Encodes :
      (bid : BundleId)
      → BundleIdFits bid
      → Encodes (marshal_bundle_id lib bid) (unmarshal_bundle_id lib bid.is_fragment) bid
  unfolding marshal_bundle_id unmarshal_bundle_id
  bundle_id-Encodes bid fits =
      let (source, written, source_read) =
        endpoint-Encodes lib laws bid.source_node fits.source_fits in
      (
        source ++ (marshal_timestamp lib bid.timestamp ++ fragment_numbers lib bid),
        rw (marshal_bundle_id, written) refl,
        λ rest. grind (
          arith,
          append_assoc,
          source_read,
          unmarshal-marshal_timestamp lib laws bid.timestamp (fragment_numbers lib bid ++ rest)
              fits.timestamp_fits,
          numbers_read bid.is_fragment bid rest refl fits,
        ),
      )

  fragment_of_len : (bid : BundleId) → ((2 + bundle_id_len bid) == 6) ≡ bid.is_fragment
  unfolding bundle_id_len
  fragment_of_len bid = ground arith

  len_expected :
      (bid : BundleId) → ((2 + bundle_id_len bid) == 4 || (2 + bundle_id_len bid) == 6) ≡ true
  unfolding bundle_id_len
  len_expected bid = ground arith

  len_small : (bid : BundleId) → IsU64 (2 + bundle_id_len bid)
  unfolding bundle_id_len
  len_small bid = ground arith

  made_few : (n : ℕ) (s : List ℕ) → n < 2 ^ 40 → made lib n s ≡ ok (tt, s)
  made_few n s few = ground (arith, few)

  report-Encodes :
      (sr : StatusReport)
      → ReportFits sr
      → Encodes (marshal_report lib sr) (unmarshal_report lib) sr
  unfolding marshal_report unmarshal_report
  report-Encodes sr fits =
      let (bid, written, bid_read) = bundle_id-Encodes sr.ref_bundle fits.bundle_fits in
      let small : IsU64 (length sr.status_information) = omega (arith, fits.few_items) in
      (
        lib.write_array_length (2 + bundle_id_len sr.ref_bundle)
            ++ (lib.write_array_length (length sr.status_information)
                ++ (marshal_items lib sr.status_information
                    ++ (lib.write_uint sr.report_reason ++ bid))),
        rw (marshal_report, written) refl,
        λ rest. grind (
          arith,
          append_assoc,
          laws.array_length,
          laws.uint,
          bid_read,
          small,
          fragment_of_len sr.ref_bundle,
          len_expected sr.ref_bundle,
          len_small sr.ref_bundle,
          made_few (length sr.status_information)
              (marshal_items lib sr.status_information
                ++ (lib.write_uint sr.report_reason ++ (bid ++ rest)))
              fits.few_items,
          unmarshal-marshal_items lib laws sr.status_information
              (lib.write_uint sr.report_reason ++ (bid ++ rest)) fits.items_fit,
          fits.reason_fits,
        ),
      )

  -- A status report that fits is written as an administrative record without an error, and the record
  -- manager that the node uses reads it back as it was from the front of any input that begins with
  -- what was written.
  pub record-Encodes :
      (sr : StatusReport)
      → ReportFits sr
      → Encodes (write_administrative_record lib sr) (administrative_record_from_cbor lib) sr
  unfolding write_administrative_record administrative_record_from_cbor read_administrative_record
      is_known_record
  record-Encodes sr fits =
      let (bytes, written, read) = report-Encodes sr fits in
      (
        lib.write_array_length 2 ++ (lib.write_uint 1 ++ bytes),
        rw (write_administrative_record, written) refl,
        λ rest. grind (arith, append_assoc, laws.array_length, laws.uint, read),
      )
