-- ===== src/Ota/Link/Tests.antt =====
-- A request on concrete bytes, answered behind a packet with another number.
use edu_glasses_host.Base.{◌≡◌, refl, List, [], ◌∷◌, ok, arith}
use edu_glasses_host.Base.Bytes.{Bytes, to_le, le}
use edu_glasses_host.Ota.Packet.{Packet, pack_packet}
use edu_glasses_host.Ota.Packet.RoundTrip.{IsSendable, pack_all}
use edu_glasses_host.Ota.Link.{Link, request}
use edu_glasses_host.Ota.Link.Requests.{IsAnswered, expecting, ota_request-answered}

abbrev late : Packet
late = record { opcode = 5; payload = 1 ∷ 1 ∷ 0 ∷ [] }

abbrev answer : Packet
answer = record { opcode = 5; payload = 2 ∷ 1 ∷ 1 ∷ [] }

-- The bytes of both, in two reads that cut the first one.
abbrev reads : List Bytes
reads =
    (0x98 ∷ 0xba ∷ 0xdc ∷ 0xfe ∷ 5 ∷ 3 ∷ [])
    ∷ (0 ∷ 1 ∷ 1 ∷ 0 ∷ 0x10 ∷ 0x32 ∷ 0x54 ∷ 0x76 ∷ 0x98 ∷ 0xba ∷ 0xdc ∷ 0xfe ∷ 5 ∷ 3 ∷ 0 ∷ 2 ∷ 1 ∷ 1
        ∷ 0x10 ∷ 0x32 ∷ 0x54 ∷ 0x76 ∷ [])
    ∷ []

late-IsSendable : IsSendable late
late-IsSendable = record { opcode_byte = omega arith; payload_bytes = grind arith }

answer-IsSendable : IsSendable answer
answer-IsSendable = record { opcode_byte = omega arith; payload_bytes = grind arith }

reads-IsAnswered : IsAnswered 5 258 reads (late ∷ []) [] answer
unfolding pack_all pack_packet to_le le
reads-IsAnswered = record {
  sendable = (late-IsSendable, (answer-IsSendable, tt));
  stream = refl;
  bytes = grind arith;
  first = refl;
  answering = refl;
}

abbrev wire : Bytes
wire = 0x98 ∷ 0xba ∷ 0xdc ∷ 0xfe ∷ 5 ∷ 2 ∷ 0 ∷ 2 ∷ 1 ∷ 0x10 ∷ 0x32 ∷ 0x54 ∷ 0x76 ∷ []

abbrev link : Link
link = record { sn = 258; buf = []; left = []; coming = []; written = [] }

ota_request-answered_example :
    let done = request 5 (2 ∷ 1 ∷ []) 258 (expecting link reads []) in
    (done.0 ≡ ok (2 ∷ 1 ∷ 1 ∷ [])) × (done.1.written ≡ wire ∷ [])
unfolding pack_packet to_le
ota_request-answered_example =
    ota_request-answered 5 258 (2 ∷ 1 ∷ []) wire reads [] (late ∷ []) [] answer link refl
      reads-IsAnswered
