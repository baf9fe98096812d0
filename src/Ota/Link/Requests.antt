-- ===== src/Ota/Link/Requests.antt =====
-- A request on the OTA channel gets its answer, however the reads cut the stream.
use edu_glasses_host.Base.{
  ℕ, ◌≡◌, refl, ap, sym, ◌∙◌, Bool, Bool-cases, inl, inr, true, Option, none, some, List, [], ◌∷◌,
  ◌++◌, concat, All, ok, arith,
}
use edu_glasses_host.Base.Bytes.{Bytes, IsBytes}
use edu_glasses_host.Stream.Feed
use edu_glasses_host.Ota.Packet
use edu_glasses_host.Ota.Packet.{
  Packet, PackError, pack_packet, packet_pass, max_buffer, packet_overhead,
}
use edu_glasses_host.Ota.Packet.RoundTrip.{IsSendable, pack_all, feed_reads-pack_all}
use edu_glasses_host.Ota.Link.{
  Link, first_match, or_later, read_until, await, request, answers, and_then, write_packet,
  payload_or_timeout,
}

first_match-append :
    (accept : Packet → Bool) (xs ys : List Packet)
    → first_match accept xs ≡ none
    → first_match accept (xs ++ ys) ≡ first_match accept ys
first_match-append accept [] ys h = refl
first_match-append accept (x ∷ xs) ys h = elim (Bool-cases (accept x)) [
  | inl hit ↦ absurd (cc (h, hit))
  | inr miss ↦ cc (first_match-append accept xs ys (cc (h, miss)), miss)
]

first_match-left :
    (accept : Packet → Bool) (xs ys : List Packet) (p : Packet)
    → first_match accept xs ≡ some p
    → first_match accept (xs ++ ys) ≡ some p
first_match-left accept [] ys p h = absurd (cc h)
first_match-left accept (x ∷ xs) ys p h = elim (Bool-cases (accept x)) [
  | inl hit ↦ cc (h, hit)
  | inr miss ↦ cc (first_match-left accept xs ys p (cc (h, miss)), miss)
]

-- The packets in the stream of the reads, for a buffer in front of them.
abbrev packets_in : Bytes → List Bytes → List Packet
packets_in buf reads = (Feed.feed_all packet_pass (Feed.cut max_buffer packet_overhead) buf reads).0

-- Reading until a match finds the first match of the whole stream.
read_until-first_match :
    (accept : Packet → Bool) (buf : Bytes) (reads : List Bytes)
    → (read_until accept buf reads).packet ≡ first_match accept (packets_in buf reads)
unfolding read_until Packet.feed Feed.feed_all
read_until-first_match accept buf [] = refl
read_until-first_match accept buf (input ∷ inputs) =
    go (Packet.feed buf input).0 (Packet.feed buf input).1
      (read_until-first_match accept (Packet.feed buf input).1 inputs)
      (first_match accept (Packet.feed buf input).0) refl
  where
    go :
        (packets : List Packet) (kept : Bytes)
        → (read_until accept kept inputs).packet ≡ first_match accept (packets_in kept inputs)
        → (found : Option Packet) → first_match accept packets ≡ found
        → (or_later found kept inputs (read_until accept kept inputs)).packet
          ≡ first_match accept (packets ++ packets_in kept inputs)
    go packets kept ih none e =
        ih ∙ sym (first_match-append accept packets (packets_in kept inputs) e)
    go packets kept ih (some p) e =
        sym (first_match-left accept packets (packets_in kept inputs) p e)

-- The device sends the packets `before`, the answer and `after`, cut into the reads before the
-- deadline, and none of those before has the opcode and the number.
pub record IsAnswered (opcode sn : ℕ) (reads : List Bytes) (before after : List Packet)
    (answer : Packet) : Type 0 where
  pub sendable : All IsSendable (before ++ (answer ∷ after))
  pub stream : pack_all (before ++ (answer ∷ after)) ≡ ok (concat reads)
  pub bytes : All IsBytes reads
  pub first : first_match (answers opcode sn) before ≡ none
  pub answering : answers opcode sn answer ≡ true

-- A client with nothing left over from earlier requests, and the reads for the next one.
abbrev pub expecting : Link → List Bytes → List (List Bytes) → Link
expecting c reads later = record c { buf = []; left = []; coming = reads ∷ later }

-- A request that is packed, on a channel with nothing left over, gets the payload of the first
-- packet with its opcode and its number, whatever packets arrive around it and however the reads cut
-- them; exactly the request is written.
pub ota_request-answered :
    (opcode sn : ℕ) (payload wire : Bytes) (reads : List Bytes) (later : List (List Bytes))
    (before after : List Packet) (answer : Packet) (c : Link)
    → pack_packet opcode payload ≡ ok wire
    → IsAnswered opcode sn reads before after answer
    → let done = request opcode payload sn (expecting c reads later) in
      (done.0 ≡ ok answer.payload) × (done.1.written ≡ c.written ++ (wire ∷ []))
unfolding request await
ota_request-answered opcode sn payload wire reads later before after answer c packed h =
    let d = expecting c reads later in
    let accept = answers opcode sn in
    let packets : packets_in [] reads ≡ before ++ (answer ∷ after) =
      ap (λ r. r.0) (feed_reads-pack_all _ reads h.sendable h.bytes h.stream) in
    let found : first_match accept (packets_in [] reads) ≡ some answer =
      ap (first_match accept) packets
      ∙ first_match-append accept before _ h.first
      ∙ ground (arith, h.answering) in
    let taken : (read_until accept [] reads).packet ≡ some answer =
      read_until-first_match accept [] reads ∙ found in
    let sent : request opcode payload sn d
        ≡ await accept (record d { written = c.written ++ (wire ∷ []) }) =
      ap (λ r. and_then (λ (u : Unit {0}). await accept) (write_packet r d)) packed in
    (ap (λ r. r.0) sent ∙ ap payload_or_timeout taken, ap (λ r. r.1.written) sent)
