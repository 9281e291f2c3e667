-- ===== src/Bpv7/Time.antt =====
-- pkg/bpv7/time.go: DTN time and creation timestamps. A `uint64` is a number below 2 ^ 64.
pub mod RoundTrip
use dtn7_go.Base.{
  ℕ, ◌+◌, ◌<◌, ◌^◌, ◌%◌, List, ◌++◌, Bool, ◌==◌, Reader, ◌>>=◌, ◌>>◌, return, require, wrong_length,
  ltb, if◌then◌else◌,
}
use dtn7_go.Cbor.{Libs}

abbrev pub milliseconds_1970_to_2k : ℕ
milliseconds_1970_to_2k = 946684800000

-- `int64(t) + milliseconds1970To2k` as the 64 bits that an `int64` has.
unfoldable pub unix_milliseconds : ℕ → ℕ
unix_milliseconds t = (t + milliseconds_1970_to_2k) % 2 ^ 64

-- The integer that 64 bits stand for, raised by 2 ^ 64 so that it is no negative number.
unfoldable pub raised : ℕ → ℕ
raised w = if ltb w (2 ^ 63) then w + 2 ^ 64 else w

pub record CreationTimestamp : Type 0 where
  pub dtn_time : ℕ
  pub sequence_number : ℕ

unfoldable pub is_zero_time : CreationTimestamp → Bool
is_zero_time ct = ct.dtn_time == 0

module _ (lib : Libs) where
  unfoldable pub marshal_timestamp : CreationTimestamp → List ℕ
  marshal_timestamp ct =
      lib.write_array_length 2 ++ (lib.write_uint ct.dtn_time ++ lib.write_uint ct.sequence_number)

  unfoldable pub unmarshal_timestamp : Reader CreationTimestamp
  unmarshal_timestamp = do
    l ← lib.read_array_length
    require (l == 2) (wrong_length l)
    time ← lib.read_uint
    sequence ← lib.read_uint
    return (record { dtn_time = time; sequence_number = sequence })
