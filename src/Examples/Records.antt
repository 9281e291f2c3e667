-- ===== src/Examples/Records.antt =====
-- A status report, and what the theorems say of it.
use dtn7_go.Base.{refl, arith, Encodes}
use dtn7_go.Bpv7.Bundle.{bundle_id}
use dtn7_go.Bpv7.Administrative.{
  StatusReport, new_status_report, write_administrative_record, administrative_record_from_cbor,
}
use dtn7_go.Bpv7.Administrative.Items.{new_status_report-fit}
use dtn7_go.Bpv7.Administrative.RoundTrip.{BundleIdFits, ReportFits, record-Encodes}
use dtn7_go.Examples.Wire.{small_libs, small_laws}
use dtn7_go.Examples.Blocks.{service-IsWireEndpoint}
use dtn7_go.Examples.Bundles.{of_lifetime}

-- The bundle was delivered.
abbrev pub delivery_report : StatusReport
delivery_report = new_status_report (of_lifetime 1) 2 0 800_000_000_000

reported-BundleIdFits : BundleIdFits delivery_report.ref_bundle
unfolding new_status_report bundle_id
reported-BundleIdFits = record {
  source_fits = service-IsWireEndpoint 2 (omega arith) (omega arith);
  timestamp_fits = record { time_fits = omega arith; sequence_fits = omega arith };
  offset_fits = omega arith;
  total_fits = omega arith;
  whole_has_no_offset = λ h. refl;
  whole_has_no_total = λ h. refl;
}

delivery_report-ReportFits : ReportFits delivery_report
unfolding new_status_report
delivery_report-ReportFits = record {
  items_fit = new_status_report-fit (of_lifetime 1) 2 0 800_000_000_000 (omega arith);
  few_items = omega arith;
  reason_fits = omega arith;
  bundle_fits = reported-BundleIdFits;
}

record-Encodes_example :
    Encodes
      (write_administrative_record small_libs delivery_report)
      (administrative_record_from_cbor small_libs)
      delivery_report
record-Encodes_example =
    record-Encodes small_libs small_laws delivery_report delivery_report-ReportFits
