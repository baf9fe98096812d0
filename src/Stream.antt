-- ===== src/Stream.antt =====
-- The loop that the four incremental parsers of the SDK share (`FrameParser.feed` and
-- `AirImgStreamParser.feed` in looktech_glasses_sdk/protocol.py, `OTAPacketParser.feed` in
-- looktech_glasses_sdk/ota_client.py, `RecordStreamParser.feed` in
-- looktech_glasses_sdk/audio_client.py).
--
-- Each is `buf.extend(data)`, a `while` loop over a position `pos`, `del buf[:pos]`, and a cut of
-- a buffer that has grown too long. The model keeps the bytes from `pos` on, so `pos += n` is
-- `drop n`. One pass of the loop's body is a function from those bytes to a verdict.
mod Loop
pub mod Parses
pub mod Feed
unfoldable pub use Loop.*
