-- ===== src/Bpv7/Flags.antt =====
-- pkg/bpv7/bundle_control_flags.go and block_control_flags.go.
pub mod Laws
use dtn7_go.Base.{
  ℕ, ◌≡◌, List, [], ◌∷◌, ◌++◌, Bool, not, ◌&&◌, ◌||◌, ◌==◌, bit_and, bit_or, ◌-◌, if◌then◌else◌,
  Error, fragment_must_not_be_fragmented, report_on_admin_record,
}

-- `Has` of both kinds of flags: some flag of the mask is set.
unfoldable pub has : ℕ → ℕ → Bool
has bcf flag = not (bit_and bcf flag == 0)

-- Go's `flags &^ mask`.
unfoldable pub clear_flags : ℕ → ℕ → ℕ
clear_flags bcf mask = bcf - bit_and bcf mask

abbrev pub is_fragment : ℕ
is_fragment = 0x000001

abbrev pub administrative_record_payload : ℕ
administrative_record_payload = 0x000002

abbrev pub must_not_fragmented : ℕ
must_not_fragmented = 0x000004

abbrev pub request_status_time : ℕ
request_status_time = 0x000040

abbrev pub status_request_reception : ℕ
status_request_reception = 0x004000

abbrev pub status_request_forward : ℕ
status_request_forward = 0x010000

abbrev pub status_request_delivery : ℕ
status_request_delivery = 0x020000

abbrev pub status_request_deletion : ℕ
status_request_deletion = 0x040000

-- No status report is requested.
unfoldable pub requests_no_report : ℕ → Bool
requests_no_report bcf =
    not (has bcf status_request_reception)
    && not (has bcf status_request_forward)
    && not (has bcf status_request_delivery)
    && not (has bcf status_request_deletion)

unfoldable pub check_bundle_flags : ℕ → List Error
check_bundle_flags bcf =
    (if has bcf is_fragment && has bcf must_not_fragmented
      then fragment_must_not_be_fragmented ∷ []
      else [])
    ++ (if not (has bcf administrative_record_payload) || requests_no_report bcf
        then []
        else report_on_admin_record ∷ [])

abbrev pub replicate_block : ℕ
replicate_block = 0x01

abbrev pub status_report_block : ℕ
status_report_block = 0x02

abbrev pub delete_bundle : ℕ
delete_bundle = 0x04

abbrev pub remove_block : ℕ
remove_block = 0x10

-- `BlockControlFlags.CheckValid` accepts everything.
unfoldable pub check_block_flags : ℕ → List Error
check_block_flags bcf = []
