-- ===== src/Bpv7/Time/RoundTrip.antt =====
-- A creation timestamp is read back from what was written for it.
use dtn7_go.Base.{ℕ, ◌≡◌, List, ◌++◌, append_assoc, ok, arith}
use dtn7_go.Cbor.{Libs}
use dtn7_go.Cbor.Laws.{CborLaws, IsU64}
use dtn7_go.Bpv7.Time.{CreationTimestamp, marshal_timestamp, unmarshal_timestamp}

pub record TimestampFits (ct : CreationTimestamp) : Type 0 where
  pub time_fits : IsU64 ct.dtn_time
  pub sequence_fits : IsU64 ct.sequence_number

-- A creation timestamp of two 64-bit numbers is read back, as it was, from the front of any input that
-- begins with what was written for it.
pub unmarshal-marshal_timestamp :
    (lib : Libs) (laws : CborLaws lib) (ct : CreationTimestamp) (rest : List ℕ)
    → TimestampFits ct
    → unmarshal_timestamp lib (marshal_timestamp lib ct ++ rest) ≡ ok (ct, rest)
unfolding unmarshal_timestamp marshal_timestamp
unmarshal-marshal_timestamp lib laws ct rest fits =
    grind (arith, append_assoc, laws.array_length, laws.uint, fits)
