-- ===== src/Ota/Packet.antt =====
-- OTA packets: `pack_packet` and `OTAPacketParser` of looktech_glasses_sdk/ota_client.py.
pub mod Scanner
pub mod RoundTrip
mod Tests
use edu_glasses_host.Base.{
  ℕ, ◌+◌, ◌-◌, ◌*◌, not, List, ◌∷◌, ◌++◌, bit_and, ltb, ◌==◌, if◌then◌else◌, length, Result, ok,
  err,
}
use edu_glasses_host.Base.Bytes.{Bytes, byte_at, slice, le_at, le, to_le}
use edu_glasses_host.Stream.{Verdict, wait, skip, found}
use edu_glasses_host.Stream.Feed

abbrev pub packet_prefix : ℕ
packet_prefix = 0xfedcba98

abbrev pub packet_appendix : ℕ
packet_appendix = 0x76543210

abbrev pub packet_header_len : ℕ
packet_header_len = 7

abbrev pub packet_overhead : ℕ
packet_overhead = 11

abbrev pub max_packet_payload : ℕ
max_packet_payload = 0xffff

pub record Packet : Type 0 where
  pub opcode : ℕ
  pub payload : Bytes

-- The `ValueError` of `pack_packet`.
pub data PackError : Type 0 where
  payload_too_long : PackError

abbrev pub packet_bytes : ℕ → Bytes → Bytes
packet_bytes opcode payload =
    to_le 4 packet_prefix
    ++ (bit_and opcode 0xff ∷ (to_le 2 (length payload) ++ (payload ++ to_le 4 packet_appendix)))

unfoldable pub pack_packet : ℕ → Bytes → Result PackError Bytes
pack_packet opcode payload =
    if ltb max_packet_payload (length payload)
    then err payload_too_long
    else ok (packet_bytes opcode payload)

-- The header gives a payload of `n` bytes.
pub check_packet : Bytes → ℕ → Verdict Packet
check_packet buf n =
    let total = packet_overhead + n in
    if ltb (length buf) total
    then wait
    else if not (le_at 4 buf (total - 4) == packet_appendix)
    then skip 1
    else found
        (record {
          opcode = byte_at buf 4;
          payload = slice buf packet_header_len (packet_header_len + n);
        })
        total

-- One pass of the loop of `OTAPacketParser.feed` on the bytes from `pos` on.
unfoldable pub packet_pass : Bytes → Verdict Packet
unfolding check_packet le
packet_pass buf =
    if ltb (length buf) packet_overhead
    then wait
    else if not (le_at 4 buf 0 == packet_prefix)
    then skip 1
    else check_packet buf (le_at 2 buf 5)

abbrev pub max_buffer : ℕ
max_buffer = 256 * 1024

-- `OTAPacketParser.feed`: the packets found, and the buffer kept.
unfoldable pub feed : Bytes → Bytes → List Packet × Bytes
unfolding Feed.feed Feed.cut packet_pass
feed = Feed.feed packet_pass (Feed.cut max_buffer packet_overhead)
