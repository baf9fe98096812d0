-- ===== src/Ota/Client.antt =====
-- `OTAClient` of looktech_glasses_sdk/ota_client.py: sequence numbers, the packets of a block, and
-- the test of its response. `zlib.crc32` is a parameter; the waits between packets are left out.
pub mod Block
use edu_glasses_host.Base.{
  ℕ, zero, suc, ◌+◌, ◌-◌, ◌*◌, ◌^◌, Bool, true, false, not, ◌&&◌, ◌||◌, List, [], ◌∷◌, ◌++◌, ltb,
  leb, ◌==◌, if◌then◌else◌, length, take, drop, bit_and, Option, none, some, Result, ok, err, ◌>>=◌,
  ◌>>◌, raise_if,
}
use edu_glasses_host.Base.Bytes.{Bytes, byte_at, to_le, le_at, le}
use edu_glasses_host.Ota.Packet.{Packet, pack_packet, PackError}

-- `_next_sn`: the number returned is also the one kept.
unfoldable pub next_sn : ℕ → ℕ
next_sn sn = let next = bit_and (sn + 1) 0xffff in if next == 0 then 1 else next

-- A SEND_DATA packet that is written, and what `_write_send_data_packet` makes of it.
pub record Chunk : Type 0 where
  pub sn : ℕ
  pub offset : ℕ
  pub content : Bytes

abbrev pub op_send_data : ℕ
op_send_data = 0x04

module _ (crc32 : Bytes → ℕ) where
  abbrev pub chunk_payload : Chunk → Bytes
  chunk_payload c =
      to_le 2 c.sn
      ++ (to_le 4 c.offset
          ++ (to_le 2 (length c.content) ++ (c.content ++ to_le 4 (crc32 c.content))))

  unfoldable pub write_chunk : Chunk → Result PackError Bytes
  write_chunk c = pack_packet op_send_data (chunk_payload c)

-- The passes of the loop of `send_data_block` with the bytes left from `pos` on, which go out with
-- number `sn`; each pass takes at least one byte, so as much fuel as bytes is enough.
unfoldable pub chunks : ℕ → ℕ → ℕ → ℕ → Bytes → List Chunk
chunks zero limit sn offset input = []
chunks (suc fuel) limit sn offset [] = []
chunks (suc fuel) limit sn offset (b ∷ input) =
    let chunk = take limit (b ∷ input) in
    record { sn = sn; offset = offset; content = chunk }
    ∷ chunks fuel limit (next_sn sn) (offset + length chunk) (drop limit (b ∷ input))

-- The numbers of the first and the last packet, between which the response's must lie.
abbrev pub last_of : ℕ → List Chunk → ℕ
last_of sn [] = sn
last_of sn (c ∷ cs) = last_of c.sn cs

pub record SentBlock : Type 0 where
  pub written : List Chunk
  pub first_sn : ℕ
  pub last_sn : ℕ

pub data BlockError : Type 0 where
  empty_block : BlockError

abbrev begin_block : ℕ → ℕ → ℕ → Bytes → SentBlock
begin_block limit sn offset input =
    let written = chunks (length input) limit (next_sn sn) offset input in
    record { written = written; first_sn = next_sn sn; last_sn = last_of (next_sn sn) written }

-- The writing half of `send_data_block`, for a client whose last number was `sn`.
unfoldable pub send_data_block : ℕ → ℕ → ℕ → Bytes → Result BlockError SentBlock
send_data_block limit sn offset [] = err empty_block
send_data_block limit sn offset (b ∷ input) = ok (begin_block limit sn offset (b ∷ input))

-- The test of `_read_response` on a packet, with both bounds given.
unfoldable pub is_response : SentBlock → Packet → Bool
is_response block p =
    let sn = le_at 2 p.payload 0 in
    (p.opcode == op_send_data && leb 2 (length p.payload))
    && (leb block.first_sn sn && leb sn block.last_sn)
