-- ===== src/Ota/Packet/Tests.antt =====
-- Packets on concrete bytes.
use edu_glasses_host.Base.{◌≡◌, refl, List, [], ◌∷◌, All, arith}
use edu_glasses_host.Base.Bytes.{Bytes, IsBytes, to_le}
use edu_glasses_host.Ota.Packet.{Packet, pack_packet}
use edu_glasses_host.Ota.Packet.RoundTrip.{IsSendable, pack_all, feed_reads, feed_reads-pack_all}

abbrev query : Packet
query = record { opcode = 0x99; payload = 0x91 ∷ 1 ∷ [] }

abbrev empty : Packet
empty = record { opcode = 0x92; payload = [] }

-- The bytes of both, in two reads that cut the first one.
abbrev reads : List Bytes
reads =
    (0x98 ∷ 0xba ∷ 0xdc ∷ 0xfe ∷ 0x99 ∷ 2 ∷ [])
    ∷ (0 ∷ 0x91 ∷ 1 ∷ 0x10 ∷ 0x32 ∷ 0x54 ∷ 0x76 ∷ 0x98 ∷ 0xba ∷ 0xdc ∷ 0xfe ∷ 0x92 ∷ 0 ∷ 0 ∷ 0x10
        ∷ 0x32 ∷ 0x54 ∷ 0x76 ∷ [])
    ∷ []

query-IsSendable : IsSendable query
query-IsSendable = record { opcode_byte = omega arith; payload_bytes = grind arith }

empty-IsSendable : IsSendable empty
empty-IsSendable = record { opcode_byte = omega arith; payload_bytes = tt }

reads-IsBytes : All IsBytes reads
reads-IsBytes = grind arith

feed_reads-pack_all_example : feed_reads reads ≡ (query ∷ empty ∷ [], [])
unfolding pack_all pack_packet to_le
feed_reads-pack_all_example =
    feed_reads-pack_all (query ∷ empty ∷ []) reads (query-IsSendable, (empty-IsSendable, tt))
      reads-IsBytes refl
