-- ===== src/Ota/Packet/Scanner.antt =====
-- The loop body of `OTAPacketParser.feed` drives the loop, and leaves less than one packet behind.
use edu_glasses_host.Base.{
  ℕ, ◌+◌, ◌-◌, ◌<◌, ◌≡◌, ◌≢◌, refl, ◌++◌, length, length-append, get_or-append_left, All-drop, drop,
  ◌^◌, arith,
}
use edu_glasses_host.Base.Bytes.{
  Bytes, IsByte, IsBytes, slice-append_left, le_at, le_at-append_left, le-lt,
}
use edu_glasses_host.Stream.{wait, Advances, IsScanner}
use edu_glasses_host.Stream.Feed
use edu_glasses_host.Ota.Packet.{
  packet_pass, check_packet, packet_header_len, packet_overhead, max_buffer,
}

check_packet-stable :
    (buf more : Bytes) (n : ℕ)
    → check_packet buf n ≢ wait
    → check_packet (buf ++ more) n ≡ check_packet buf n
unfolding check_packet
check_packet-stable buf more n h = ground (
  arith,
  length-append buf more,
  le_at-append_left 4 buf more (packet_overhead + n - 4),
  get_or-append_left buf more 4 0,
  slice-append_left buf more packet_header_len (packet_header_len + n),
)

packet_pass-stable :
    (buf more : Bytes) → packet_pass buf ≢ wait → packet_pass (buf ++ more) ≡ packet_pass buf
unfolding packet_pass
packet_pass-stable buf more h = ground (
  arith,
  length-append buf more,
  le_at-append_left 4 buf more 0,
  le_at-append_left 2 buf more 5,
  check_packet-stable buf more (le_at 2 buf 5),
)

packet_pass-Advances : (buf : Bytes) → Advances buf (packet_pass buf)
unfolding packet_pass check_packet
packet_pass-Advances buf = ground arith

pub packet_pass-IsScanner : IsScanner packet_pass
unfolding packet_pass
packet_pass-IsScanner = record {
  stops = refl;
  advances = packet_pass-Advances;
  stable = packet_pass-stable;
}

-- A packet is at most 65546 bytes long, its length field being two bytes.
pub packet_pass-wait-lt :
    (buf : Bytes) → IsBytes buf → packet_pass buf ≡ wait → length buf < packet_overhead + 2 ^ 16
unfolding packet_pass check_packet
packet_pass-wait-lt buf h e = ground (arith, le-lt 2 (drop 5 buf) (All-drop IsByte 5 buf h))

packet_pass-IsBounded : Feed.IsBounded packet_pass IsBytes max_buffer
packet_pass-IsBounded buf h e = omega (arith, packet_pass-wait-lt buf h e)

-- The cut of an overlong buffer never takes place.
pub packet_pass-IsIdle : Feed.IsIdle packet_pass IsBytes (Feed.cut max_buffer packet_overhead)
packet_pass-IsIdle = Feed.cut-IsIdle max_buffer packet_overhead packet_pass-IsBounded
