-- ===== src/Bpv7/Administrative.antt =====
-- pkg/bpv7/administrative_record.go, administrative_record_status_report.go and the wire format of
-- bundle_id.go. The status report is the only record that there is.
pub mod Items
pub mod RoundTrip
use dtn7_go.Base.{
  ℕ, zero, suc, ◌+◌, ◌*◌, ◌^◌, List, [], ◌∷◌, ◌++◌, Bool, true, false, not, ◌&&◌, ◌||◌, ◌==◌, ltb,
  length, if◌then◌else◌, Error, Result, ok, err, panic, then_ok, wrap_err, Reader, ◌>>=◌, ◌>>◌,
  return, require, wrap, fail, wrong_length, unknown_record_type,
}
use dtn7_go.Cbor.{Libs}
use dtn7_go.Bpv7.Flags.{has, request_status_time}
use dtn7_go.Bpv7.Time.{marshal_timestamp, unmarshal_timestamp}
use dtn7_go.Bpv7.Endpoint.{EndpointId, marshal_endpoint, unmarshal_endpoint}
use dtn7_go.Bpv7.Extension.{payload}
use dtn7_go.Bpv7.Canonical.{CanonicalBlock, new_canonical_block}
use dtn7_go.Bpv7.Bundle.{Bundle, BundleId, bundle_id}

pub record BundleStatusItem : Type 0 where
  pub asserted : Bool
  pub time : ℕ
  pub status_requested : Bool

unfoldable pub new_bundle_status_item : Bool → BundleStatusItem
new_bundle_status_item asserted = record { asserted = asserted; time = 0; status_requested = false }

unfoldable pub new_time_reporting_item : ℕ → BundleStatusItem
new_time_reporting_item time = record { asserted = true; time = time; status_requested = true }

pub record StatusReport : Type 0 where
  pub status_information : List BundleStatusItem
  pub report_reason : ℕ
  pub ref_bundle : BundleId

-- The item at a position in the report of another.
unfoldable pub item_at : Bundle → ℕ → ℕ → ℕ → BundleStatusItem
item_at b status_item time sip =
    if sip == status_item && has b.primary_block.bundle_control_flags request_status_time
    then new_time_reporting_item time
    else new_bundle_status_item (sip == status_item)

unfoldable pub new_status_report : Bundle → ℕ → ℕ → ℕ → StatusReport
new_status_report b status_item reason time = record {
  status_information =
      item_at b status_item time 0
      ∷ item_at b status_item time 1
      ∷ item_at b status_item time 2
      ∷ item_at b status_item time 3
      ∷ [];
  report_reason = reason;
  ref_bundle = bundle_id b;
}

abbrev asserted_from : ℕ → List BundleStatusItem → List ℕ
asserted_from i [] = []
asserted_from i (si ∷ items) =
    let rest = asserted_from (i + 1) items in if si.asserted then i ∷ rest else rest

unfoldable pub status_informations : StatusReport → List ℕ
status_informations sr = asserted_from 0 sr.status_information

-- `BundleID.Len`
unfoldable pub bundle_id_len : BundleId → ℕ
bundle_id_len bid = if bid.is_fragment then 4 else 2

-- `BundleID.Scrub`
unfoldable pub scrub : BundleId → BundleId
scrub bid = record bid { is_fragment = false; fragment_offset = 0; total_data_length = 0 }

-- The record manager's map: the codes of the types that are registered.
abbrev pub RecordManager : Type 0
RecordManager = List ℕ

unfoldable pub is_known_record : RecordManager → ℕ → Bool
is_known_record [] code = false
is_known_record (c ∷ codes) code = code == c || is_known_record codes code

-- `Register` of an instance with this code; false is the error that the code is taken.
unfoldable pub register_record : ℕ → RecordManager → RecordManager × Bool
unfolding is_known_record
register_record code records =
    if is_known_record records code then (records, false) else (code ∷ records, true)

unfoldable pub unregister_record : ℕ → RecordManager → RecordManager
unregister_record code [] = []
unregister_record code (c ∷ codes) =
    let rest = unregister_record code codes in if code == c then rest else c ∷ rest

abbrev pub admin_record_type_status_report : ℕ
admin_record_type_status_report = 1

-- `GetAdministrativeRecordManager`
abbrev pub default_records : RecordManager
default_records = admin_record_type_status_report ∷ []

module _ (lib : Libs) where
  unfoldable pub marshal_item : BundleStatusItem → List ℕ
  marshal_item si =
      if si.asserted && si.status_requested
      then lib.write_array_length 2 ++ (lib.write_boolean si.asserted ++ lib.write_uint si.time)
      else lib.write_array_length 1 ++ lib.write_boolean si.asserted

  -- The time of an item of length two.
  abbrev rest_of_item : ℕ → Bool → Reader BundleStatusItem
  rest_of_item l asserted =
      let with_time = do
        time ← lib.read_uint
        return (record { asserted = asserted; time = time; status_requested = true })
      in if l == 2
        then with_time
        else return (record { asserted = asserted; time = 0; status_requested = false })

  unfoldable pub unmarshal_item : Reader BundleStatusItem
  unmarshal_item = do
    l ← lib.read_array_length
    require (l == 1 || l == 2) (wrong_length l)
    asserted ← lib.read_boolean
    rest_of_item l asserted

  unfoldable pub marshal_items : List BundleStatusItem → List ℕ
  marshal_items [] = []
  marshal_items (si ∷ items) = marshal_item si ++ marshal_items items

  -- The loop over the slice of the length that was read.
  unfoldable pub unmarshal_items : ℕ → Reader (List BundleStatusItem)
  unmarshal_items zero = return []
  unmarshal_items (suc n) = do
    si ← wrap unmarshal_item
    items ← unmarshal_items n
    return (si ∷ items)

  abbrev pub fragment_numbers : BundleId → List ℕ
  fragment_numbers bid =
      if bid.is_fragment
      then lib.write_uint bid.fragment_offset ++ lib.write_uint bid.total_data_length
      else []

  unfoldable pub marshal_bundle_id : BundleId → Result (List ℕ)
  marshal_bundle_id bid =
      then_ok (wrap_err (marshal_endpoint lib bid.source_node))
        λ source. ok (source ++ (marshal_timestamp lib bid.timestamp ++ fragment_numbers bid))

  abbrev pub read_fragment_numbers : Bool → Reader (ℕ × ℕ)
  read_fragment_numbers true = do
    offset ← lib.read_uint
    total ← lib.read_uint
    return (offset, total)
  read_fragment_numbers false = return (0, 0)

  -- The flag is set beforehand.
  unfoldable pub unmarshal_bundle_id : Bool → Reader BundleId
  unmarshal_bundle_id is_fragment = do
    source ← wrap (unmarshal_endpoint lib)
    timestamp ← wrap (unmarshal_timestamp lib)
    numbers ← read_fragment_numbers is_fragment
    return (record {
      source_node = source;
      timestamp = timestamp;
      is_fragment = is_fragment;
      fragment_offset = numbers.0;
      total_data_length = numbers.1;
    })

  unfoldable pub marshal_report : StatusReport → Result (List ℕ)
  marshal_report sr = then_ok (wrap_err (marshal_bundle_id sr.ref_bundle)) λ bid. ok (
      lib.write_array_length (2 + bundle_id_len sr.ref_bundle)
      ++ (lib.write_array_length (length sr.status_information)
          ++ (marshal_items sr.status_information ++ (lib.write_uint sr.report_reason ++ bid))))

  -- `make([]BundleStatusItem, int(n))` panics if the slice of 24 bytes each exceeds 2 ^ 48 bytes.
  abbrev pub made : ℕ → Reader (Unit {0})
  made n s = if ltb (2 ^ 48) (n * 24) then panic else ok (tt, s)

  unfoldable pub unmarshal_report : Reader StatusReport
  unmarshal_report = do
    l ← lib.read_array_length
    require (l == 4 || l == 6) (wrong_length l)
    n ← lib.read_array_length
    made n
    items ← unmarshal_items n
    reason ← lib.read_uint
    bid ← wrap (unmarshal_bundle_id (l == 6))
    return (record { status_information = items; report_reason = reason; ref_bundle = bid })

  unfoldable pub write_administrative_record : StatusReport → Result (List ℕ)
  write_administrative_record sr = then_ok (wrap_err (marshal_report sr)) λ bytes.
      ok (lib.write_array_length 2 ++ (lib.write_uint admin_record_type_status_report ++ bytes))

  unfoldable pub read_administrative_record : RecordManager → Reader StatusReport
  read_administrative_record records = do
    n ← lib.read_array_length
    require (n == 2) (wrong_length n)
    code ← lib.read_uint
    require (is_known_record records code) (unknown_record_type code)
    wrap unmarshal_report

  -- `AdministrativeRecordToCbor`
  unfoldable pub administrative_record_to_cbor : StatusReport → Result CanonicalBlock
  administrative_record_to_cbor sr =
      then_ok (write_administrative_record sr) λ bytes. ok (new_canonical_block 1 0 (payload bytes))

  -- `NewAdministrativeRecordFromCbor`
  unfoldable pub administrative_record_from_cbor : Reader StatusReport
  administrative_record_from_cbor = read_administrative_record default_records
