-- ===== src/Bpv7/Builder.antt =====
-- pkg/bpv7/bundle_builder.go: bundles made by a chain of calls. A call returns the builder that it
-- has changed, or panics.
pub mod Calls
pub mod Failed
pub mod Numbered
pub mod Kept
pub mod Sorted
pub mod Built
pub mod Added
pub mod Arguments
pub mod Mapped
use dtn7_go.Base.{
  ℕ, ◌+◌, ◌-◌, ◌%◌, ◌^◌, List, [], ◌∷◌, ◌++◌, Bool, true, false, not, ◌||◌, ◌==◌, Option, none,
  some, bit_or, if◌then◌else◌, Error, Result, ok, err, panic, then_ok, no_parameters,
  wrong_parameters, unsupported_type, unknown_block_argument, negative_duration, malformed_duration,
  payload_not_written, missing_endpoint,
}
use dtn7_go.Base.Int.{ℤ, pos, negsuc, is_negative, is_not_positive, to_uint8, to_uint64, millions}
use dtn7_go.Cbor.{Libs}
use dtn7_go.Bpv7.Flags.{
  clear_flags, administrative_record_payload, status_request_reception, status_request_forward,
  status_request_delivery, status_request_deletion, replicate_block,
}
use dtn7_go.Bpv7.Crc.{crc_no}
use dtn7_go.Bpv7.Endpoint.{EndpointId}
use dtn7_go.Bpv7.Endpoint.Text.{new_endpoint_id}
use dtn7_go.Bpv7.Primary.{PrimaryBlock, dtn_version}
use dtn7_go.Bpv7.Extension.{
  ExtensionBlock, payload, previous_node, bundle_age, hop_count, block_type_code,
  block_type_payload, new_hop_count,
}
use dtn7_go.Bpv7.Canonical.{CanonicalBlock, empty_block, new_canonical_block, of_value}
use dtn7_go.Bpv7.Bundle.{Bundle, set_crc_type}
use dtn7_go.Bpv7.Bundle.Check.{new_bundle}
use dtn7_go.Bpv7.Bundle.Wire.{accepted}
use dtn7_go.Bpv7.Administrative.{StatusReport, new_status_report, write_administrative_record}

-- Go's `interface{}` values, by what the type switches of the builder tell apart.
pub data Argument : Type 0 where
  endpoint : EndpointId → Argument
  text : List ℕ → Argument
  uint64 : ℕ → Argument
  int : ℤ → Argument
  -- A `float64`: whether it is below 0, and what the conversion to `uint64` makes of it.
  float : Bool → ℕ → Argument
  -- A `time.Duration`, in nanoseconds.
  duration : ℤ → Argument
  bytes : List ℕ → Argument
  -- A `time.Time`, as the DTN time that `DtnTimeFromTime` makes of it.
  moment : ℕ → Argument
  dtn_time : ℕ → Argument
  block_flags : ℕ → Argument
  extension : ExtensionBlock → Argument
  canonical_block : CanonicalBlock → Argument
  reference : Bundle → Argument
  information_pos : ℕ → Argument
  report_reason : ℕ → Argument
  -- Any value of another type.
  other : Argument

-- What the builder calls: `time.ParseDuration`, in nanoseconds, `binary.Write` in little-endian order,
-- both with `none` for an error, the clock and the CBOR library.
pub record Outside : Type 0 where
  pub libs : Libs
  pub parse_duration : List ℕ → Option ℤ
  pub binary_write : Argument → Option (List ℕ)
  -- `DtnTimeNow()`
  pub dtn_time_now : ℕ

pub record Builder : Type 0 where
  pub error : Option Error
  pub primary : PrimaryBlock
  pub canonicals : List CanonicalBlock
  pub canonical_counter : ℕ
  pub payload_block : CanonicalBlock
  pub crc_type : ℕ

-- `EndpointID{}`
abbrev pub no_endpoint : EndpointId
no_endpoint = record { endpoint_type = none }

-- `Builder()`
unfoldable pub new_builder : Builder
new_builder = record {
  error = none;
  primary = record {
    version = dtn_version;
    bundle_control_flags = 0;
    crc_type = crc_no;
    destination = no_endpoint;
    source_node = no_endpoint;
    report_to = no_endpoint;
    creation_timestamp = record { dtn_time = 0; sequence_number = 0 };
    lifetime = 0;
    fragment_offset = 0;
    total_data_length = 0;
    crc = [];
  };
  canonicals = [];
  canonical_counter = 2;
  payload_block = empty_block;
  crc_type = crc_no;
}

-- `bldr.err = err`
abbrev pub failing : Error → Builder → Builder
failing e b = record b { error = some e }

-- `if bldr.err != nil { return bldr }`
abbrev pub unless_failed : Builder → Result Builder → Result Builder
unless_failed b r = elim b.error [ none ↦ r | some e ↦ ok b ]

-- What a helper returns: on an error the builder keeps it.
abbrev pub keeping {ℓ} : {A : Type ℓ} → Result A → (A → Builder) → Builder → Result Builder
keeping (ok a) f b = ok (f a)
keeping (err e) f b = ok (failing e b)
keeping panic f b = panic

unfoldable pub set_crc : ℕ → Builder → Result Builder
set_crc t b = unless_failed b (ok (record b { crc_type = t }))

-- `bldrParseEndpoint`
unfoldable pub parse_endpoint : Argument → Result EndpointId
parse_endpoint (endpoint eid) = ok eid
parse_endpoint (text uri) = new_endpoint_id uri
parse_endpoint _ = err unsupported_type

unfoldable pub destination : Argument → Builder → Result Builder
unfolding parse_endpoint
destination a b = unless_failed b (
    keeping (parse_endpoint a) (λ e. record b { primary = record b.primary { destination = e } }) b)

unfoldable pub source : Argument → Builder → Result Builder
unfolding parse_endpoint
source a b = unless_failed b (
    keeping (parse_endpoint a) (λ e. record b { primary = record b.primary { source_node = e } }) b)

unfoldable pub report_to : Argument → Builder → Result Builder
unfolding parse_endpoint
report_to a b =
    unless_failed b (
      keeping (parse_endpoint a) (λ e. record b { primary = record b.primary { report_to = e } }) b)

-- `creationTimestamp`; `CreationTimestampEpoch` calls it with 0.
unfoldable pub creation_timestamp : ℕ → Builder → Result Builder
creation_timestamp t b = unless_failed b (
    ok (record b {
      primary = record b.primary {
        creation_timestamp = record { dtn_time = t; sequence_number = 0 };
      };
    }))

unfoldable pub bundle_ctrl_flags : ℕ → Builder → Result Builder
bundle_ctrl_flags bcf b =
    unless_failed b (ok (record b { primary = record b.primary { bundle_control_flags = bcf } }))

-- An extension block gets the next number, and the payload block the number 1.
abbrev pub placed : ℕ → CanonicalBlock → Builder → Builder
placed code cb b =
    if code == block_type_payload
    then record b { payload_block = record cb { block_number = 1 } }
    else record b {
      canonicals = b.canonicals ++ (record cb { block_number = b.canonical_counter } ∷ []);
      canonical_counter = (b.canonical_counter + 1) % 2 ^ 64;
    }

-- `NewCanonicalBlock` for a value and its flags.
abbrev pub add_value : ExtensionBlock → ℕ → Builder → Builder
add_value v flags b = placed (block_type_code v) (new_canonical_block 0 flags v) b

-- The type switch of `Canonical`; `TypeCode` of a block without a value panics.
unfoldable pub add_canonical : List Argument → Builder → Result Builder
add_canonical [] b = ok (failing no_parameters b)
add_canonical (extension v ∷ []) b = ok (add_value v 0 b)
add_canonical (extension v ∷ block_flags flags ∷ []) b = ok (add_value v flags b)
add_canonical (extension v ∷ rest) b = ok (failing wrong_parameters b)
add_canonical (canonical_block cb ∷ rest) b =
    of_value cb.value λ v. ok (placed (block_type_code v) cb b)
add_canonical (a ∷ rest) b = ok (failing unknown_block_argument b)

unfoldable pub canonical : List Argument → Builder → Result Builder
unfolding add_canonical
canonical args b = unless_failed b (add_canonical args b)

-- A parameter of a variadic function: one argument, or a whole slice of them in its place.
pub data Parameter : Type 0 where
  one : Argument → Parameter
  slice : List Argument → Parameter

-- `canonicalParseFlags`: the builder, and the flags.
unfoldable pub canonical_parse_flags : List Parameter → Builder → Builder × ℕ
canonical_parse_flags (a ∷ one (block_flags flags) ∷ []) b = (b, flags)
canonical_parse_flags (a ∷ other_parameter ∷ []) b = (failing wrong_parameters b, 0)
canonical_parse_flags params b = (b, 0)

-- The end of `BundleAgeBlock`, `HopCountBlock` and `PreviousNodeBlock`. They hand their arguments on as
-- `args`, not as `args...`, and so as one parameter.
unfoldable pub add_flagged : ExtensionBlock → List Argument → Builder → Result Builder
unfolding canonical_parse_flags canonical
add_flagged v args b =
    let (b', flags) = canonical_parse_flags (slice args ∷ []) b in
    canonical (extension v ∷ block_flags (bit_or flags replicate_block) ∷ []) b'

-- The value of a helper that may have failed, and the builder that keeps its error and goes on.
abbrev pub going_on {ℓ} :
    {A : Type ℓ} → A → Result A → (A → Builder → Result Builder) → Builder → Result Builder
going_on zero_value (ok a) f b = f a b
going_on zero_value (err e) f b = f zero_value (failing e b)
going_on zero_value panic f b = panic

abbrev pub limit_of : Argument → Result ℤ
limit_of (int n) = ok n
limit_of _ = err unsupported_type

-- `args[0]` of no arguments panics.
unfoldable pub hop_count_block : List Argument → Builder → Result Builder
unfolding add_flagged
hop_count_block [] b = unless_failed b panic
hop_count_block (a ∷ rest) b = unless_failed b (
    going_on (pos 0) (limit_of a)
      (λ limit. add_flagged (hop_count (new_hop_count (to_uint8 limit))) (a ∷ rest)) b)

unfoldable pub previous_node_block : List Argument → Builder → Result Builder
unfolding add_flagged parse_endpoint
previous_node_block [] b = unless_failed b panic
previous_node_block (a ∷ rest) b =
    unless_failed b (
      going_on no_endpoint (parse_endpoint a) (λ eid. add_flagged (previous_node eid) (a ∷ rest)) b)

module _ (out : Outside) where
  -- What `bldrParseLifetime` makes of a text.
  abbrev lifetime_of_text : Option ℤ → Result ℕ
  lifetime_of_text none = err malformed_duration
  lifetime_of_text (some d) = if is_not_positive d then err negative_duration else ok (millions d)

  -- `bldrParseLifetime`, in milliseconds
  unfoldable pub parse_lifetime : Argument → Result ℕ
  parse_lifetime (uint64 n) = ok n
  parse_lifetime (int n) = if is_negative n then err negative_duration else ok (to_uint64 n)
  parse_lifetime (float negative n) = if negative then err negative_duration else ok n
  parse_lifetime (text t) = lifetime_of_text (out.parse_duration t)
  parse_lifetime (duration d) = ok (millions d)
  parse_lifetime _ = err unsupported_type

  unfoldable pub lifetime : Argument → Builder → Result Builder
  unfolding parse_lifetime
  lifetime a b = unless_failed b (
      keeping (parse_lifetime a) (λ ms. record b { primary = record b.primary { lifetime = ms } })
        b)

  unfoldable pub bundle_age_block : List Argument → Builder → Result Builder
  unfolding add_flagged parse_lifetime
  bundle_age_block [] b = unless_failed b panic
  bundle_age_block (a ∷ rest) b =
      unless_failed b
        (going_on 0 (parse_lifetime a) (λ ms. add_flagged (bundle_age ms) (a ∷ rest)) b)

  -- `PayloadBlock` does not ask for an earlier error before it writes.
  unfoldable pub payload_block : List Argument → Builder → Result Builder
  unfolding canonical
  payload_block [] b = panic
  payload_block (a ∷ rest) b = elim (out.binary_write a) [
    | none ↦ ok (failing payload_not_written b)
    | some written ↦ canonical (extension (payload written) ∷ rest) b
  ]

  -- The flag of an administrative record is set, and no report is requested.
  abbrev pub record_flags : ℕ → ℕ
  record_flags bcf = clear_flags (bit_or bcf administrative_record_payload) (
      bit_or status_request_reception
        (bit_or status_request_forward (bit_or status_request_delivery status_request_deletion)))

  -- `AdministrativeRecord`; the records of this program are status reports.
  unfoldable pub administrative_record : StatusReport → Builder → Result Builder
  unfolding payload_block
  administrative_record sr b = unless_failed b (elim (write_administrative_record out.libs sr) [
    | ok written ↦ payload_block (bytes written ∷ []) (record b {
      primary = record b.primary {
        bundle_control_flags = record_flags b.primary.bundle_control_flags;
      };
    })
    | err e ↦ ok (failing e b)
    | panic ↦ panic
  ])

  -- The arguments of `StatusReport`, which need not be as many or of the right types.
  abbrev pub report_of : List Argument → Result StatusReport
  report_of (reference b ∷ information_pos sip ∷ report_reason r ∷ []) =
      ok (new_status_report b sip r out.dtn_time_now)
  report_of (reference b ∷ information_pos sip ∷ report_reason r ∷ dtn_time t ∷ []) =
      ok (new_status_report b sip r t)
  report_of _ = err wrong_parameters

  unfoldable pub status_report : List Argument → Builder → Result Builder
  unfolding administrative_record
  status_report args b = unless_failed b (elim (report_of args) [
    | ok sr ↦ administrative_record sr b
    | err e ↦ ok (failing e b)
    | panic ↦ panic
  ])

  abbrev pub is_unset : EndpointId → Bool
  is_unset eid = elim eid.endpoint_type [ none ↦ true | some t ↦ false ]

  -- Reports go to the source if nothing else was asked for.
  abbrev pub with_report_to : PrimaryBlock → PrimaryBlock
  with_report_to pb = record pb {
    report_to = if is_unset pb.report_to then pb.source_node else pb.report_to;
  }

  abbrev pub with_crc_type : ℕ → Bundle × Result (List Error) → Result Bundle
  with_crc_type t (b, found) = then_ok (accepted found b) λ b'. ok (set_crc_type out.libs t b')

  -- `Build` at a time.
  unfoldable pub build : ℕ → Builder → Result Bundle
  build now b = elim b.error [
    | some e ↦ err e
    | none ↦
        let pb : PrimaryBlock = with_report_to b.primary in
        if is_unset pb.source_node || is_unset pb.destination
        then err missing_endpoint
        else with_crc_type b.crc_type (new_bundle now pb b.canonicals b.payload_block)
  ]
