-- ===== src/AirImg.antt =====
-- The image channel's sub-frames: `parse_air_img_frame` and `AirImgStreamParser` of
-- looktech_glasses_sdk/protocol.py.
pub mod Scanner
pub mod RoundTrip
use edu_glasses_host.Base.{
  ℕ, ◌+◌, Bool, not, ◌||◌, ◌&&◌, List, [], ltb, ◌==◌, if◌then◌else◌, length, take, Result, ok, err,
}
use edu_glasses_host.Base.Bytes.{Bytes, byte_at, slice, le_at, le}
use edu_glasses_host.Frame.{word_at}
use edu_glasses_host.Stream.{Verdict, wait, skip, found, drain}
use edu_glasses_host.Stream.Feed

abbrev pub air_img_head : ℕ
air_img_head = 0x01

abbrev pub air_img_body : ℕ
air_img_body = 0x02

abbrev pub air_img_tail : ℕ
air_img_tail = 0x03

abbrev pub air_img_data_type_image : ℕ
air_img_data_type_image = 0x01

abbrev pub format_jpeg : ℕ
format_jpeg = 0x01

-- `AirImgSubFrame`; `chunk` is the source's `data`.
pub record SubFrame : Type 0 where
  pub frame_type : ℕ
  pub data_type : ℕ
  pub group_id : ℕ
  pub sequence : ℕ
  pub img_format : ℕ
  pub chunk : Bytes

-- The `ValueError`s of `parse_air_img_frame`.
pub data ParseError : Type 0 where
  too_short head_too_short body_too_short body_truncated : ParseError
  unknown_type : ℕ → ParseError

-- The dataclass's defaults for the fields that only one kind of sub-frame has.
abbrev sub_frame : Bytes → ℕ → Bytes → SubFrame
sub_frame payload img_format chunk = record {
  frame_type = byte_at payload 0;
  data_type = byte_at payload 1;
  group_id = byte_at payload 2;
  sequence = le_at 4 payload 3;
  img_format = img_format;
  chunk = chunk;
}

unfoldable pub parse_body : Bytes → ℕ → Result ParseError SubFrame
parse_body payload data_len =
    if ltb (length payload) (9 + data_len)
    then err body_truncated
    else ok (sub_frame payload format_jpeg (slice payload 9 (9 + data_len)))

unfoldable pub parse_air_img_frame : Bytes → Result ParseError SubFrame
parse_air_img_frame payload =
    if ltb (length payload) 7
    then err too_short
    else if byte_at payload 0 == air_img_head
    then (if ltb (length payload) 8
        then err head_too_short
        else ok (sub_frame payload (byte_at payload 7) []))
    else if byte_at payload 0 == air_img_body
    then (if ltb (length payload) 9
        then err body_too_short
        else parse_body payload (le_at 2 payload 7))
    else if byte_at payload 0 == air_img_tail
    then ok (sub_frame payload format_jpeg [])
    else err (unknown_type (byte_at payload 0))

-- `try: frames.append(parse_air_img_frame(…))`, `except ValueError: pos += 1`.
abbrev pub accept : Result ParseError SubFrame → ℕ → Verdict SubFrame
accept (ok sub) frame_len = found sub frame_len
accept (err e) frame_len = skip 1

-- The sub-frame is `frame_len` bytes long.
unfoldable pub whole_frame : Bytes → ℕ → Verdict SubFrame
whole_frame buf frame_len =
    if ltb (length buf) frame_len
    then wait
    else accept (parse_air_img_frame (slice buf 0 frame_len)) frame_len

-- A body's header gives `data_len` bytes of data.
unfoldable pub body_frame : Bytes → ℕ → Verdict SubFrame
body_frame buf data_len = if ltb 4096 data_len then skip 1 else whole_frame buf (9 + data_len)

-- `_FIXED_LEN[frame_type]`, of a head or a tail.
abbrev pub fixed_len : ℕ → ℕ
fixed_len frame_type = if frame_type == air_img_head then 8 else 7

-- A sub-frame of type `frame_type` starts here.
unfoldable pub typed_frame : Bytes → ℕ → Verdict SubFrame
typed_frame buf frame_type =
    if frame_type == air_img_body
    then (if ltb (length buf) 9 then wait else body_frame buf (word_at buf 7))
    else whole_frame buf (fixed_len frame_type)

-- The first two bytes can start a sub-frame.
unfoldable pub is_start : ℕ → ℕ → Bool
is_start t data_type =
    (t == air_img_head || t == air_img_body || t == air_img_tail)
    && data_type == air_img_data_type_image

-- One pass of the loop of `AirImgStreamParser.feed` on the bytes from `pos` on.
unfoldable pub img_pass : Bytes → Verdict SubFrame
img_pass buf =
    if ltb (length buf) 2
    then wait
    else if not (is_start (byte_at buf 0) (byte_at buf 1))
    then skip 1
    else typed_frame buf (byte_at buf 0)

-- `AirImgStreamParser.feed`: the sub-frames found, and the buffer kept. This parser never cuts.
unfoldable pub feed : Bytes → Bytes → List SubFrame × Bytes
unfolding Feed.feed img_pass typed_frame is_start body_frame whole_frame parse_air_img_frame
    parse_body le
feed = Feed.feed img_pass (λ buf. buf)
