-- ===== src/Cbor.antt =====
-- The two third-party packages that the wire format rests on, github.com/dtn7/cboring and
-- github.com/howeyc/crc16, as a parameter of the model. None of their code is in the repository.
pub mod Laws
use dtn7_go.Base.{ℕ, List, Bool, Reader}

-- cboring's functions, with the names it gives them. A writer returns the bytes that it appends.
pub record Libs : Type 0 where
  -- The major types `cboring.UInt` and `cboring.TextString`.
  pub major_uint : ℕ
  pub major_text : ℕ
  -- `cboring.IndefiniteArray` and `cboring.BreakCode`.
  pub indefinite_array : ℕ
  pub break_code : ℕ
  pub write_uint : ℕ → List ℕ
  pub write_array_length : ℕ → List ℕ
  pub write_byte_string_len : ℕ → List ℕ
  pub write_text_string_len : ℕ → List ℕ
  pub write_boolean : Bool → List ℕ
  pub read_majors : Reader (ℕ × ℕ)
  pub read_uint : Reader ℕ
  pub read_array_length : Reader ℕ
  pub read_byte_string_len : Reader ℕ
  pub read_raw_bytes : ℕ → Reader (List ℕ)
  pub read_boolean : Reader Bool
  pub read_expect : ℕ → Reader (Unit {0})
  -- `crc16.Checksum(data, crc16.MakeTable(crc16.CCITT))`
  pub crc16_checksum : List ℕ → ℕ
