-- ===== src/Frame/Tests.antt =====
-- Frames on concrete bytes.
use edu_glasses_host.Base.{◌≡◌, ◌<◌, refl, length, List, [], ◌∷◌, ◌++◌, arith}
use edu_glasses_host.Base.Bytes.{Bytes, to_le}
use edu_glasses_host.Stream.{drain}
use edu_glasses_host.Crc16.{crc16, crc_loop, crc_byte}
use edu_glasses_host.Frame.{
  Frame, encode_frame, frame_pass, check_length, check_crc, feed, max_frame,
}
use edu_glasses_host.Frame.Delivery.{
  IsSendable, encode_all, feed_pieces, feed_pieces-encode_all, feed_pieces-concat,
}
use edu_glasses_host.Frame.Soundness.{IsFrameAt, frame_pass-IsFrameAt, feed-lt-max_frame}

abbrev request : Frame
request = record { kind = 1; seq = 7; payload = 16 ∷ 2 ∷ [] }

abbrev event : Frame
event = record { kind = 3; seq = 8; payload = [] }

abbrev request_bytes : Bytes
request_bytes = 165 ∷ 90 ∷ 1 ∷ 1 ∷ 7 ∷ 2 ∷ 0 ∷ 16 ∷ 2 ∷ 130 ∷ 165 ∷ []

abbrev event_bytes : Bytes
event_bytes = 165 ∷ 90 ∷ 1 ∷ 3 ∷ 8 ∷ 0 ∷ 0 ∷ 32 ∷ 137 ∷ []

abbrev pieces : List Bytes
pieces =
    (165 ∷ 90 ∷ 1 ∷ [])
    ∷ (1 ∷ 7 ∷ 2 ∷ 0 ∷ 16 ∷ 2 ∷ 130 ∷ 165 ∷ 165 ∷ [])
    ∷ (90 ∷ 1 ∷ 3 ∷ 8 ∷ 0 ∷ 0 ∷ 32 ∷ 137 ∷ [])
    ∷ []

request-IsSendable : IsSendable request
request-IsSendable = record {
  kind_byte = omega arith;
  seq_byte = omega arith;
  payload_bytes = grind arith;
}

event-IsSendable : IsSendable event
event-IsSendable = record { kind_byte = omega arith; seq_byte = omega arith; payload_bytes = tt }

feed_pieces-encode_all_example : feed_pieces pieces ≡ (request ∷ event ∷ [], [])
unfolding encode_all encode_frame crc16 crc_loop crc_byte to_le
feed_pieces-encode_all_example =
    feed_pieces-encode_all (request ∷ event ∷ []) pieces
      (request-IsSendable, (event-IsSendable, tt)) refl

feed_pieces-concat_example :
    feed_pieces ((165 ∷ []) ∷ (90 ∷ 1 ∷ []) ∷ []) ≡ feed [] (165 ∷ 90 ∷ 1 ∷ [])
feed_pieces-concat_example = feed_pieces-concat ((165 ∷ []) ∷ (90 ∷ 1 ∷ []) ∷ [])

frame_pass-IsFrameAt_example : IsFrameAt (request_bytes ++ event_bytes) request 11
unfolding frame_pass check_length check_crc crc16 crc_loop crc_byte
frame_pass-IsFrameAt_example = frame_pass-IsFrameAt (request_bytes ++ event_bytes) request 11 refl

feed-lt-max_frame_example :
    let kept = feed request_bytes (165 ∷ []) in
    (length kept.1 < max_frame) × (kept ≡ drain frame_pass (request_bytes ++ (165 ∷ [])))
feed-lt-max_frame_example = feed-lt-max_frame request_bytes (165 ∷ [])
