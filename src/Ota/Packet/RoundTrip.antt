-- ===== src/Ota/Packet/RoundTrip.antt =====
-- What `pack_packet` builds, `OTAPacketParser.feed` finds, in whatever pieces it arrives.
use edu_glasses_host.Base.{
  ℕ, ◌+◌, ◌-◌, ◌≤◌, ◌<◌, ◌≡◌, refl, ap, sym, ◌∙◌, subst, List, [], ◌∷◌, ◌++◌, append_assoc, bit_and,
  length, length-append, concat, All, drop, take, take-append_all, drop-append_all, drop-drop,
  All-concat, ok, Result, ◌>>=◌, bind-eq-ok, arith,
}
use edu_glasses_host.Base.Bits.{bit_and_mask}
use edu_glasses_host.Base.Bytes.{Bytes, IsByte, IsBytes, byte_at, slice, le, le_at, to_le, le-to_le}
use edu_glasses_host.Stream.{found}
use edu_glasses_host.Stream.Parses.{Parses, Parses-front, waits, drain-eq}
use edu_glasses_host.Stream.Feed
use edu_glasses_host.Ota.Packet.{
  Packet, PackError, pack_packet, packet_bytes, check_packet, packet_pass, feed, max_buffer,
  packet_prefix, packet_appendix, packet_header_len, packet_overhead, max_packet_payload,
}
use edu_glasses_host.Ota.Packet.Scanner.{packet_pass-IsScanner, packet_pass-IsIdle}

-- The tests that a whole valid packet passes.
packet_pass-found :
    (buf : Bytes) (n : ℕ)
    → packet_overhead + n ≤ length buf
    → le_at 4 buf 0 ≡ packet_prefix
    → le_at 2 buf 5 ≡ n
    → le_at 4 buf (packet_overhead + n - 4) ≡ packet_appendix
    → packet_pass buf
      ≡ found
          (record {
            opcode = byte_at buf 4;
            payload = slice buf packet_header_len (packet_header_len + n);
          })
          (packet_overhead + n)
unfolding packet_pass check_packet
packet_pass-found buf n whole starts size ends = ground arith

module _ (opcode : ℕ) (payload rest : Bytes) (fits : length payload ≤ max_packet_payload) where
  abbrev n : ℕ
  n = length payload

  abbrev wire : Bytes
  wire = packet_bytes opcode payload ++ rest

  length-wire : length wire ≡ packet_overhead + n + length rest
  unfolding to_le
  length-wire = omega (
    arith,
    length-append (payload ++ to_le 4 packet_appendix) rest,
    length-append payload (to_le 4 packet_appendix),
  )

  wire_prefix : le_at 4 wire 0 ≡ packet_prefix
  unfolding to_le le
  wire_prefix = refl

  wire_length : le_at 2 wire 5 ≡ n
  unfolding to_le le
  wire_length = omega arith

  -- The payload, and what follows it.
  after_header : drop packet_header_len wire ≡ payload ++ (to_le 4 packet_appendix ++ rest)
  unfolding to_le
  after_header = append_assoc payload (to_le 4 packet_appendix) rest

  wire_payload : slice wire packet_header_len (packet_header_len + n) ≡ payload
  wire_payload =
      let count : packet_header_len + n - packet_header_len ≡ n = omega arith in
      ap (take (packet_header_len + n - packet_header_len)) after_header
      ∙ ap (λ (k : ℕ). take k (payload ++ (to_le 4 packet_appendix ++ rest))) count
      ∙ take-append_all payload (to_le 4 packet_appendix ++ rest)

  wire_appendix : le_at 4 wire (packet_overhead + n - 4) ≡ packet_appendix
  wire_appendix =
      let place : packet_overhead + n - 4 ≡ packet_header_len + n = omega arith in
      ap (λ (k : ℕ). le_at 4 wire k) place
      ∙ ap (le 4) (
          sym (drop-drop n packet_header_len wire)
          ∙ ap (drop n) after_header
          ∙ drop-append_all payload (to_le 4 packet_appendix ++ rest))
      ∙ le-to_le 4 packet_appendix rest (omega arith)

  wire_opcode : byte_at wire 4 ≡ bit_and opcode 0xff
  unfolding to_le
  wire_opcode = refl

  -- The loop body recognises the packet, whatever follows it.
  pub packet_pass-packet_bytes :
      packet_pass (packet_bytes opcode payload ++ rest)
      ≡ found
          (record { opcode = bit_and opcode 0xff; payload = payload })
          (length (packet_bytes opcode payload))
  packet_pass-packet_bytes =
      let size : packet_overhead + n ≡ length (packet_bytes opcode payload) =
        omega (arith, length-wire, length-append (packet_bytes opcode payload) rest) in
      packet_pass-found wire n (omega (arith, length-wire)) wire_prefix wire_length wire_appendix
      ∙ cc (wire_payload, wire_opcode, size)

-- A packet whose fields are bytes.
pub record IsSendable (p : Packet) : Type 0 where
  pub opcode_byte : p.opcode < 256
  pub payload_bytes : IsBytes p.payload

-- The packets of a list, packed one after the other.
unfoldable pub pack_all : List Packet → Result PackError Bytes
pack_all [] = ok []
pack_all (p ∷ ps) = do wire ← pack_packet p.opcode p.payload; rest ← pack_all ps; ok (wire ++ rest)

-- The calls of `feed` on the pieces of a stream, from the buffer of a new parser.
abbrev pub feed_reads : List Bytes → List Packet × Bytes
feed_reads = Feed.feed_all packet_pass (Feed.cut max_buffer packet_overhead) []

pack_packet_inv :
    (p : Packet) (wire : Bytes)
    → pack_packet p.opcode p.payload ≡ ok wire
    → (length p.payload ≤ max_packet_payload) × (packet_bytes p.opcode p.payload ≡ wire)
unfolding pack_packet
pack_packet_inv p wire e = ground arith

sent-id :
    (p : Packet)
    → IsSendable p
    → ◌≡◌ {A = Packet} (record { opcode = bit_and p.opcode 0xff; payload = p.payload }) p
sent-id p s = ground (arith, s.opcode_byte, bit_and_mask 8 p.opcode)

pack_all-Parses :
    (ps : List Packet) (stream : Bytes)
    → All IsSendable ps
    → pack_all ps ≡ ok stream
    → Parses packet_pass stream ps []
unfolding pack_all
pack_all-Parses [] stream s e =
    let nothing : [] ≡ stream = cc in
    subst (λ (t : Bytes). Parses packet_pass t [] []) nothing (waits packet_pass-IsScanner.stops)
pack_all-Parses (p ∷ ps) stream s e =
    let (wire, packed, later) = bind-eq-ok (pack_packet p.opcode p.payload) _ e in
    let (rest, packed', whole) = bind-eq-ok (pack_all ps) _ later in
    let (fits, bytes) = pack_packet_inv p wire packed in
    let seen = packet_pass-packet_bytes p.opcode p.payload rest fits in
    let here : packet_pass (wire ++ rest) ≡ found p (length wire) =
      cc (seen, bytes, sent-id p s.0) in
    let same : wire ++ rest ≡ stream = cc in
    subst (λ (t : Bytes). Parses packet_pass t (p ∷ ps) []) same
      (Parses-front wire rest here (pack_all-Parses ps rest s.1 packed'))

-- Every list of packets that `pack_packet` accepts comes out of the parser as it was, in order and
-- with no byte left over, whatever the reads, of bytes, into which the stream was cut.
pub feed_reads-pack_all :
    (ps : List Packet) (pieces : List Bytes)
    → All IsSendable ps
    → All IsBytes pieces
    → pack_all ps ≡ ok (concat pieces)
    → feed_reads pieces ≡ (ps, [])
feed_reads-pack_all ps pieces s bytes e =
    Feed.feed_all-concat packet_pass-IsScanner Feed.IsBytes-IsKept packet_pass-IsIdle pieces [] tt
      bytes packet_pass-IsScanner.stops
    ∙ drain-eq packet_pass-IsScanner (pack_all-Parses ps (concat pieces) s e)

-- On any bytes, valid or not, reading the stream in pieces is reading it in one call of `feed`:
-- the same packets, and the same buffer.
pub feed_reads-concat :
    (pieces : List Bytes) → All IsBytes pieces → feed_reads pieces ≡ feed [] (concat pieces)
unfolding feed
feed_reads-concat pieces bytes =
    Feed.feed_all-feed packet_pass-IsScanner Feed.IsBytes-IsKept packet_pass-IsIdle pieces tt bytes
      (All-concat IsByte pieces bytes)
