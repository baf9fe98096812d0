-- ===== src/Crc16/Bounds.antt =====
-- The register stays a 16-bit number.
use edu_glasses_host.Base.{ℕ, ◌^◌, ◌<◌, [], ◌∷◌, bit_and, bit_or, bit_xor, arith}
use edu_glasses_host.Base.Bits.{shl, shr, bit_xor-lt, bit_and_mask}
use edu_glasses_host.Base.Bytes.{Bytes, IsByte, IsBytes}
use edu_glasses_host.Crc16.{crc_byte, crc_loop, crc16}

low_word : (x : ℕ) → bit_and x 0xffff < 2 ^ 16
low_word x = omega (arith, bit_and_mask 16 x)

low_byte : (x : ℕ) → bit_and x 0xff < 2 ^ 8
low_byte x = omega (arith, bit_and_mask 8 x)

crc_byte-lt : (crc byte : ℕ) → IsByte byte → crc_byte crc byte < 2 ^ 16
unfolding crc_byte
crc_byte-lt crc byte h =
    let swapped = bit_and (bit_or (shr crc 8) (shl crc 8)) 0xffff in
    let mixed = bit_xor swapped byte in
    let folded = bit_xor mixed (shr (bit_and mixed 0xff) 4) in
    let high = bit_xor folded (bit_and (shl folded 12) 0xffff) in
    let mixed-lt = bit_xor-lt 16 swapped byte (low_word _) (omega arith) in
    let folded-lt =
      bit_xor-lt 16 mixed (shr (bit_and mixed 0xff) 4) mixed-lt (omega (arith, low_byte mixed)) in
    let high-lt = bit_xor-lt 16 folded (bit_and (shl folded 12) 0xffff) folded-lt (low_word _) in
    bit_xor-lt 16 high (bit_and (shl (bit_and high 0xff) 5) 0xffff) high-lt (low_word _)

crc_loop-lt : (input : Bytes) (crc : ℕ) → IsBytes input → crc < 2 ^ 16 → crc_loop crc input < 2 ^ 16
unfolding crc_loop
crc_loop-lt [] crc h k = k
crc_loop-lt (b ∷ input) crc h k = crc_loop-lt input (crc_byte crc b) h.1 (crc_byte-lt crc b h.0)

-- The checksum of bytes is a 16-bit number, whatever the initial value.
pub crc16-lt : (input : Bytes) (init : ℕ) → IsBytes input → crc16 input init < 2 ^ 16
unfolding crc16
crc16-lt input init h = crc_loop-lt input (bit_and init 0xffff) h (low_word init)
