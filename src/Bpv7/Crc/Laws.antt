-- ===== src/Bpv7/Crc/Laws.antt =====
-- The CRC of a known type is at most four bytes.
use dtn7_go.Base.{ℕ, zero, suc, ◌≤◌, ◌≡◌, refl, List, length, ok, arith}
use dtn7_go.Cbor.{Libs}
use dtn7_go.Bpv7.Crc.{calculate_crc_buff}

-- The three known types have a CRC; no other has.
pub calculate_crc_known :
    (lib : Libs) (buff : List ℕ) (t : ℕ)
    → t ≤ 2
    → (v : List ℕ) × (calculate_crc_buff lib buff t ≡ ok v) × (length v ≤ 4)
unfolding calculate_crc_buff
calculate_crc_known lib buff zero h = (_, refl, omega arith)
calculate_crc_known lib buff (suc zero) h = (_, refl, omega arith)
calculate_crc_known lib buff (suc (suc zero)) h = (_, refl, omega arith)
calculate_crc_known lib buff (suc (suc (suc t))) h = absurd (omega arith)
