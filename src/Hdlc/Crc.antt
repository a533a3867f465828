-- ===== src/Hdlc/Crc.antt =====
-- openaisg/hdlc.py: the frame check sequence, CRC-16/X.25. A byte string is a list of numbers.
pub mod Detection
mod Tests
use openaisg.Common.{ℕ, zero, suc, ◌/◌, ◌^◌, ◌≡◌, refl, List, [], ◌∷◌, ◌==◌, if◌then◌else◌, Bytes}
use openaisg.Common.{bit_and, bit_xor}

-- The inner loop that fills `_crc_table`, for the rounds that are left.
table_rounds : ℕ → ℕ → ℕ
table_rounds zero c = c
table_rounds (suc n) c = table_rounds n (if bit_and c 1 == 0 then c / 2 else bit_xor (c / 2) 0x8408)

-- `_crc_table[i]`.
pub crc_table : ℕ → ℕ
unfolding table_rounds
crc_table i = table_rounds 8 i

-- The body of the loop of `fcs16`.
pub fcs_step : ℕ → ℕ → ℕ
unfolding crc_table
fcs_step crc b = bit_xor (crc / 2 ^ 8) (crc_table (bit_and (bit_xor crc b) 0xff))

pub fcs_loop : ℕ → Bytes → ℕ
unfolding fcs_step
fcs_loop crc [] = crc
fcs_loop crc (b ∷ bs) = fcs_loop (fcs_step crc b) bs

unfoldable pub fcs16 : Bytes → ℕ
unfolding fcs_loop
fcs16 bytes = bit_xor (fcs_loop 0xffff bytes) 0xffff
