-- ===== src/Audio/Sink.antt =====
-- The sinks of looktech_glasses_sdk/audio_client.py. A file is the bytes written to it so far, the
-- decoder is a parameter (`opus_loader.create_decoder`), which returns the PCM bytes or raises.
pub mod RoundTrip
use edu_glasses_host.Base.{
  ℕ, ◌+◌, ◌*◌, Bool, true, false, Option, none, some, List, [], ◌∷◌, ◌++◌, ltb, leb, ◌==◌,
  if◌then◌else◌, length, drop, take,
}
use edu_glasses_host.Base.Bytes.{Bytes}

abbrev pub frame_header_len : ℕ
frame_header_len = 8

-- `int.from_bytes(…, "big")`, with the number of the bytes before.
unfoldable pub be_from : ℕ → Bytes → ℕ
be_from n [] = n
be_from n (b ∷ xs) = be_from (256 * n + b) xs

unfoldable pub extract_opus_packet : Bytes → Bytes
extract_opus_packet frame =
    if leb (length frame) frame_header_len
    then frame
    else if be_from 0 (take 4 frame) + frame_header_len == length frame
    then drop frame_header_len frame
    else frame

-- What both sinks keep: the file, and the two counts that `AudioStreamClient.stop` reads.
pub record Sink : Type 0 where
  pub file : Bytes
  pub frames_decoded : ℕ
  pub decode_errors : ℕ

abbrev pub new_sink : Sink
new_sink = record { file = []; frames_decoded = 0; decode_errors = 0 }

abbrev pub write : Bytes → Sink → Sink
write bytes s = record s { file = s.file ++ bytes; frames_decoded = s.frames_decoded + 1 }

-- `decode`: the PCM bytes, or an exception, of the packet and the number of samples expected.
module _ (decode : Bytes → ℕ → Option Bytes) where
  abbrev pub opus_frame_samples : ℕ
  opus_frame_samples = 320

  abbrev pub store : Option Bytes → Sink → Sink
  store none s = record s { decode_errors = s.decode_errors + 1 }
  store (some pcm) s = write pcm s

  -- `WavOpusSink.handle_frame`
  unfoldable pub handle_opus : Bytes → Sink → Sink
  handle_opus [] s = s
  handle_opus (b ∷ frame) s = store (decode (extract_opus_packet (b ∷ frame)) opus_frame_samples) s

-- `RawOpusSink.handle_frame`
unfoldable pub handle_raw : Bytes → Sink → Sink
handle_raw frame s = if ltb 255 (length frame) then s else write (length frame ∷ frame) s

-- `create_sink`: which of the two it is, by whether the decoder could be created.
pub data AudioSink : Type 0 where
  wav_opus : (Bytes → ℕ → Option Bytes) → AudioSink
  raw_opus : AudioSink

unfoldable pub create_sink : Option (Bytes → ℕ → Option Bytes) → AudioSink × Bool
create_sink none = (raw_opus, false)
create_sink (some decode) = (wav_opus decode, true)

unfoldable pub handle_frame : AudioSink → Bytes → Sink → Sink
unfolding handle_opus handle_raw
handle_frame (wav_opus decode) = handle_opus decode
handle_frame raw_opus = handle_raw
