-- ===== src/Cbor/Laws.antt =====
-- What the code relies on of cboring: each reader takes back what the writer of its name wrote, and
-- leaves what follows. Numbers are 64 bits wide.
use dtn7_go.Base.{
  ℕ, ◌<◌, ◌^◌, ◌≡◌, ◌≢◌, List, ◌∷◌, ◌++◌, Bool, Reader, ok, err, flag_break_code, length, ◌>>=◌,
}
use dtn7_go.Cbor.{Libs}

abbrev pub IsU64 : ℕ → Type 0
IsU64 n = n < 2 ^ 64

-- `cboring.WriteByteString` and `cboring.WriteTextString` write the head and then the bytes.
abbrev pub write_byte_string : Libs → List ℕ → List ℕ
write_byte_string lib bs = lib.write_byte_string_len (length bs) ++ bs

abbrev pub write_text_string : Libs → List ℕ → List ℕ
write_text_string lib bs = lib.write_text_string_len (length bs) ++ bs

-- `cboring.ReadByteString` reads the head and then the bytes.
abbrev pub read_byte_string : Libs → Reader (List ℕ)
read_byte_string lib = lib.read_byte_string_len >>= lib.read_raw_bytes

pub record CborLaws (lib : Libs) : Type 0 where
  pub majors_differ : lib.major_uint ≢ lib.major_text
  pub uint : (n : ℕ) (s : List ℕ) → IsU64 n → lib.read_uint (lib.write_uint n ++ s) ≡ ok (n, s)
  pub array_length :
      (n : ℕ) (s : List ℕ)
      → IsU64 n
      → lib.read_array_length (lib.write_array_length n ++ s) ≡ ok (n, s)
  pub byte_string_len :
      (n : ℕ) (s : List ℕ)
      → IsU64 n
      → lib.read_byte_string_len (lib.write_byte_string_len n ++ s) ≡ ok (n, s)
  pub uint_majors :
      (n : ℕ) (s : List ℕ)
      → IsU64 n
      → lib.read_majors (lib.write_uint n ++ s) ≡ ok ((lib.major_uint, n), s)
  pub text_majors :
      (n : ℕ) (s : List ℕ)
      → IsU64 n
      → lib.read_majors (lib.write_text_string_len n ++ s) ≡ ok ((lib.major_text, n), s)
  pub raw_bytes : (bs s : List ℕ) → lib.read_raw_bytes (length bs) (bs ++ s) ≡ ok (bs, s)
  pub boolean : (b : Bool) (s : List ℕ) → lib.read_boolean (lib.write_boolean b ++ s) ≡ ok (b, s)
  pub expect : (b : ℕ) (s : List ℕ) → lib.read_expect b (b ∷ s) ≡ ok (tt, s)
  pub array_break : (s : List ℕ) → lib.read_array_length (lib.break_code ∷ s) ≡ err flag_break_code
