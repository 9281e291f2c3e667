-- ===== src/Bpv7/Builder/Calls.antt =====
-- Chains of calls of a builder, and `BuildFromMap` of pkg/bpv7/bundle_builder.go.
use dtn7_go.Base.{
  ℕ, List, [], ◌∷◌, none, some, Result, ok, err, then_ok, wrong_map_argument, not_implemented,
  unknown_method,
}
use dtn7_go.Bpv7.Bundle.{Bundle}
use dtn7_go.Bpv7.Administrative.{StatusReport}
use dtn7_go.Bpv7.Builder.{
  Argument, text, bytes, moment, Outside, Builder, new_builder, set_crc, destination, source,
  report_to, creation_timestamp, bundle_ctrl_flags, canonical, hop_count_block, previous_node_block,
  lifetime, bundle_age_block, payload_block, administrative_record, status_report, build,
}

-- The exported methods that change a builder, with their arguments.
pub data Call : Type 0 where
  crc : ℕ → Call
  to_destination : Argument → Call
  from_source : Argument → Call
  reporting_to : Argument → Call
  created_epoch : Call
  created_now : Call
  created_at : ℕ → Call
  living : Argument → Call
  with_flags : ℕ → Call
  adding : List Argument → Call
  adding_age : List Argument → Call
  adding_hops : List Argument → Call
  adding_payload : List Argument → Call
  adding_previous : List Argument → Call
  recording : StatusReport → Call
  reporting : List Argument → Call

module _ (out : Outside) where
  unfoldable pub perform : Call → Builder → Result Builder
  unfolding set_crc destination source report_to creation_timestamp lifetime bundle_ctrl_flags
      canonical bundle_age_block hop_count_block payload_block previous_node_block
      administrative_record status_report
  perform (crc t) b = set_crc t b
  perform (to_destination a) b = destination a b
  perform (from_source a) b = source a b
  perform (reporting_to a) b = report_to a b
  perform created_epoch b = creation_timestamp 0 b
  perform created_now b = creation_timestamp out.dtn_time_now b
  perform (created_at t) b = creation_timestamp t b
  perform (living a) b = lifetime out a b
  perform (with_flags bcf) b = bundle_ctrl_flags bcf b
  perform (adding args) b = canonical args b
  perform (adding_age args) b = bundle_age_block out args b
  perform (adding_hops args) b = hop_count_block args b
  perform (adding_payload args) b = payload_block out args b
  perform (adding_previous args) b = previous_node_block args b
  perform (recording sr) b = administrative_record out sr b
  perform (reporting args) b = status_report out args b

  unfoldable pub run : List Call → Builder → Result Builder
  unfolding perform
  run [] b = ok b
  run (c ∷ cs) b = then_ok (perform c b) (run cs)

-- The keys that the switch of `BuildFromMap` knows, and any other.
pub data Method : Type 0 where
  destination_key source_key report_to_key creation_timestamp_epoch_key : Method
  creation_timestamp_now_key creation_timestamp_time_key lifetime_key : Method
  bundle_ctrl_flags_key canonical_key bundle_age_block_key hop_count_block_key : Method
  payload_block_key previous_node_block_key other_key : Method

abbrev time_call : Argument → Result Call
time_call (moment t) = ok (created_at t)
time_call _ = err wrong_map_argument

abbrev payload_call : Argument → Call
payload_call (text t) = adding_payload (bytes t ∷ [])
payload_call a = adding_payload (a ∷ [])

-- The call that a key and its value stand for.
unfoldable pub call_of : Method → Argument → Result Call
call_of destination_key a = ok (to_destination a)
call_of source_key a = ok (from_source a)
call_of report_to_key a = ok (reporting_to a)
call_of creation_timestamp_epoch_key a = ok created_epoch
call_of creation_timestamp_now_key a = ok created_now
call_of creation_timestamp_time_key a = time_call a
call_of lifetime_key a = ok (living a)
call_of bundle_ctrl_flags_key a = err not_implemented
call_of canonical_key a = err not_implemented
call_of bundle_age_block_key a = ok (adding_age (a ∷ []))
call_of hop_count_block_key a = ok (adding_hops (a ∷ []))
call_of payload_block_key a = ok (payload_call a)
call_of previous_node_block_key a = ok (adding_previous (a ∷ []))
call_of other_key a = err unknown_method

-- `if err == nil { err = bldr.Error() }`
abbrev pub error_free : Builder → Result Builder
error_free b = elim b.error [ none ↦ ok b | some e ↦ err e ]

module _ (out : Outside) where
  -- The loop over the map, in the order in which Go happens to visit it.
  unfoldable pub call_all : List (Method × Argument) → Builder → Result Builder
  unfolding call_of perform
  call_all [] b = ok b
  call_all ((m, a) ∷ rest) b =
      then_ok (call_of m a)
        λ c. then_ok (perform out c b) λ b'. then_ok (error_free b') (call_all rest)

  -- `BuildFromMap`
  unfoldable pub build_from_map : ℕ → List (Method × Argument) → Result Bundle
  unfolding call_all
  build_from_map now entries = then_ok (call_all entries new_builder) (build out now)
