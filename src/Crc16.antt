-- ===== src/Crc16.antt =====
-- looktech_glasses_sdk/crc16.py: the checksum of EDU-CTRL frames.
pub mod Bounds
use edu_glasses_host.Base.{ℕ, List, [], ◌∷◌, bit_and, bit_or, bit_xor}
use edu_glasses_host.Base.Bits.{shl, shr}
use edu_glasses_host.Base.Bytes.{Bytes}

-- The body of `for byte in data`, one assignment to `crc` after the other.
unfoldable pub crc_byte : ℕ → ℕ → ℕ
crc_byte crc byte =
    let swapped = bit_and (bit_or (shr crc 8) (shl crc 8)) 0xffff in
    let mixed = bit_xor swapped byte in
    let folded = bit_xor mixed (shr (bit_and mixed 0xff) 4) in
    let high = bit_xor folded (bit_and (shl folded 12) 0xffff) in
    bit_xor high (bit_and (shl (bit_and high 0xff) 5) 0xffff)

unfoldable pub crc_loop : ℕ → Bytes → ℕ
crc_loop crc [] = crc
crc_loop crc (byte ∷ rest) = crc_loop (crc_byte crc byte) rest

unfoldable pub crc16 : Bytes → ℕ → ℕ
unfolding crc_loop crc_byte
crc16 input init = crc_loop (bit_and init 0xffff) input
