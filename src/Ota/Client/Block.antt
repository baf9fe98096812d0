-- ===== src/Ota/Client/Block.antt =====
-- A block in packets: none of its bytes lost, repeated or out of order; and its response.
use edu_glasses_host.Base.{
  ℕ, zero, suc, ◌+◌, ◌*◌, ◌≤◌, ◌<◌, ◌≡◌, refl, ap, ◌∙◌, false, List, [], ◌∷◌, ◌++◌, concat, map,
  length, length-take, length-drop, take, drop, take-append-drop, ok, arith,
}
use edu_glasses_host.Base.Bytes.{Bytes}
use edu_glasses_host.Ota.Packet.{Packet}
use edu_glasses_host.Ota.Client.{
  Chunk, SentBlock, next_sn, chunks, last_of, send_data_block, is_response,
}

abbrev pub content_of : Chunk → Bytes
content_of c = c.content

-- Each chunk stands right behind the one before, has the next number, and is neither empty nor
-- longer than the limit.
abbrev pub InOrder : ℕ → ℕ → ℕ → List Chunk → Type 0
InOrder limit sn offset [] = Unit
InOrder limit sn offset (c ∷ cs) =
    (c.sn ≡ sn)
    × (c.offset ≡ offset)
    × (1 ≤ length c.content)
    × (length c.content ≤ limit)
    × InOrder limit (next_sn sn) (offset + length c.content) cs

chunks-InOrder :
    (fuel limit sn offset : ℕ) (input : Bytes)
    → 1 ≤ limit
    → length input ≤ fuel
    → (concat (map content_of (chunks fuel limit sn offset input)) ≡ input)
      × InOrder limit sn offset (chunks fuel limit sn offset input)
unfolding chunks
chunks-InOrder zero limit sn offset [] h k = (refl, tt)
chunks-InOrder zero limit sn offset (b ∷ input) h k = absurd (omega arith)
chunks-InOrder (suc fuel) limit sn offset [] h k = (refl, tt)
chunks-InOrder (suc fuel) limit sn offset (b ∷ input) h k =
    let whole = b ∷ input in
    let chunk = take limit whole in
    let left : length (drop limit whole) ≤ fuel = omega (arith, length-drop limit whole) in
    let (joined, ordered) =
      chunks-InOrder fuel limit (next_sn sn) (offset + length chunk) (drop limit whole) h left in
    (
      ap (λ (t : Bytes). chunk ++ t) joined ∙ take-append-drop limit whole,
      (
        refl,
        refl,
        omega (arith, length-take limit whole),
        omega (arith, length-take limit whole),
        ordered,
      ),
    )

-- A block that is not empty is written as chunks that put together are the block: each stands right
-- behind the one before, has the next sequence number, and keeps the limit for a packet.
pub send_data_block-InOrder :
    (limit sn offset : ℕ) (input : Bytes)
    → 1 ≤ limit
    → 1 ≤ length input
    → (block : SentBlock) × (send_data_block limit sn offset input ≡ ok block)
      × (concat (map content_of block.written) ≡ input)
      × InOrder limit (next_sn sn) offset block.written
unfolding send_data_block
send_data_block-InOrder limit sn offset [] h k = absurd (omega arith)
send_data_block-InOrder limit sn offset (b ∷ input) h k =
    let whole = b ∷ input in
    let written = chunks (length whole) limit (next_sn sn) offset whole in
    let (joined, ordered) =
      chunks-InOrder (length whole) limit (next_sn sn) offset whole h (omega arith) in
    (
      record { written = written; first_sn = next_sn sn; last_sn = last_of (next_sn sn) written },
      refl,
      joined,
      ordered,
    )

chunks-nil :
    (fuel limit sn offset : ℕ) (input : Bytes)
    → length input ≡ 0
    → chunks fuel limit sn offset input ≡ []
unfolding chunks
chunks-nil zero limit sn offset input h = refl
chunks-nil (suc fuel) limit sn offset [] h = refl
chunks-nil (suc fuel) limit sn offset (b ∷ input) h = absurd (omega arith)

last_of-one :
    (fuel limit sn other offset : ℕ) (input : Bytes)
    → 1 ≤ fuel
    → 1 ≤ length input
    → length input ≤ limit
    → last_of other (chunks fuel limit sn offset input) ≡ sn
unfolding chunks
last_of-one zero limit sn other offset input f h k = absurd (omega arith)
last_of-one (suc fuel) limit sn other offset [] f h k = absurd (omega arith)
last_of-one (suc fuel) limit sn other offset (b ∷ input) f h k =
    let whole = b ∷ input in
    ap (last_of sn) (
      chunks-nil fuel limit (next_sn sn) (offset + length (take limit whole)) (drop limit whole)
        (omega (arith, length-drop limit whole)))

two_chunks :
    (limit offset : ℕ) (input : Bytes)
    → 1 ≤ limit
    → limit < length input
    → 1 ≤ length (drop limit input)
    → length (drop limit input) ≤ limit
    → (block : SentBlock) × (send_data_block limit 65534 offset input ≡ ok block)
      × (block.first_sn ≡ 65535)
      × (block.last_sn ≡ 1)
unfolding send_data_block chunks next_sn
two_chunks limit offset [] h k a b = absurd (omega arith)
two_chunks limit offset (x ∷ input) h k a b =
    let whole = x ∷ input in
    let written = chunks (length whole) limit 65535 offset whole in
    (
      record { written = written; first_sn = 65535; last_sn = last_of 65535 written },
      refl,
      refl,
      last_of-one (length input) limit 1 65535 (offset + length (take limit whole))
          (drop limit whole) (omega arith) a b,
    )

-- Where the numbers wrap around within a block, from 65535 to 1, no packet at all passes for its
-- response, whatever its number.
pub is_response-wrapped :
    (limit offset : ℕ) (input : Bytes) (p : Packet)
    → 1 ≤ limit
    → limit < length input
    → length input ≤ 2 * limit
    → (block : SentBlock) × (send_data_block limit 65534 offset input ≡ ok block)
      × (block.first_sn ≡ 65535)
      × (block.last_sn ≡ 1)
      × (is_response block p ≡ false)
unfolding is_response
is_response-wrapped limit offset input p h k m =
    let whole = input in
    let rest = drop limit input in
    let some_left : 1 ≤ length rest = omega (arith, length-drop limit input) in
    let one_left : length rest ≤ limit = omega (arith, length-drop limit input) in
    let (block, sent, first, last) = two_chunks limit offset input h k some_left one_left in
    (block, sent, first, last, ground (arith, first, last))
