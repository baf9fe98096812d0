-- ===== src/Frame.antt =====
-- The EDU-CTRL frame codec of looktech_glasses_sdk/protocol.py: `encode_frame` and `FrameParser`.
pub mod Scanner
pub mod RoundTrip
pub mod Delivery
pub mod Soundness
mod Tests
use edu_glasses_host.Base.{
  ℕ, ◌+◌, ◌-◌, ◌*◌, Bool, not, ◌||◌, List, [], ◌∷◌, ◌++◌, bit_and, bit_or, ltb, ◌==◌, if◌then◌else◌,
  length, drop, Result, ok, err,
}
use edu_glasses_host.Base.Bits.{shl}
use edu_glasses_host.Base.Bytes.{Bytes, byte_at, slice, to_le}
use edu_glasses_host.Stream.{Verdict, wait, skip, found}
use edu_glasses_host.Stream.Feed
use edu_glasses_host.Crc16.{crc16}

abbrev pub sync0 : ℕ
sync0 = 0xa5

abbrev pub sync1 : ℕ
sync1 = 0x5a

abbrev pub proto_version : ℕ
proto_version = 1

abbrev pub hdr_len : ℕ
hdr_len = 7

abbrev pub crc_len : ℕ
crc_len = 2

abbrev pub max_frame : ℕ
max_frame = 990

abbrev pub overhead : ℕ
overhead = 9

abbrev pub max_payload : ℕ
max_payload = max_frame - overhead

-- `kind` is the source's `type`.
pub record Frame : Type 0 where
  pub kind : ℕ
  pub seq : ℕ
  pub payload : Bytes

-- The `ValueError` of `encode_frame`.
pub data EncodeError : Type 0 where
  payload_too_long : EncodeError

-- Version, type, sequence number, length and payload: what the checksum covers.
abbrev pub frame_body : ℕ → ℕ → Bytes → Bytes
frame_body kind seq payload =
    proto_version ∷ bit_and kind 0xff ∷ bit_and seq 0xff ∷ (to_le 2 (length payload) ++ payload)

unfoldable pub encode_frame : ℕ → ℕ → Bytes → Result EncodeError Bytes
encode_frame kind seq payload =
    let body = frame_body kind seq payload in
    if ltb max_payload (length payload)
    then err payload_too_long
    else ok (sync0 ∷ sync1 ∷ (body ++ to_le 2 (crc16 body 0xffff)))

-- The two bytes at `i` and `i + 1` as the parser reads them.
abbrev pub word_at : Bytes → ℕ → ℕ
word_at buf i = bit_or (byte_at buf i) (shl (byte_at buf (i + 1)) 8)

-- A whole frame with an `n`-byte payload is in the buffer: compare the checksum.
unfoldable pub check_crc : Bytes → ℕ → Verdict Frame
check_crc buf n =
    let body = slice buf 2 (hdr_len + n) in
    if not (crc16 body 0xffff == word_at buf (hdr_len + n))
    then skip 2
    else found (record { kind = byte_at buf 3; seq = byte_at buf 4; payload = drop 5 body })
        (hdr_len + n + crc_len)

-- The header gives a payload of `n` bytes.
unfoldable pub check_length : Bytes → ℕ → Verdict Frame
unfolding check_crc
check_length buf n =
    if ltb max_payload n
    then skip 2
    else if ltb (length buf) (hdr_len + n + crc_len)
    then wait
    else check_crc buf n

-- One pass of the loop of `FrameParser.feed` on the bytes from `pos` on.
unfoldable pub frame_pass : Bytes → Verdict Frame
unfolding check_length
frame_pass buf =
    if ltb (length buf) (hdr_len + crc_len)
    then wait
    else if not (byte_at buf 0 == sync0) || not (byte_at buf 1 == sync1)
    then skip 1
    else check_length buf (word_at buf 5)

abbrev pub max_buffer : ℕ
max_buffer = 8 * max_frame

-- `FrameParser.feed`: the frames found, and the buffer kept.
unfoldable pub feed : Bytes → Bytes → List Frame × Bytes
unfolding Feed.feed Feed.cut frame_pass
feed = Feed.feed frame_pass (Feed.cut max_buffer max_frame)
