-- ===== src/Payload/Event.antt =====
-- `parse_event` of looktech_glasses_sdk/protocol.py: the payload of an EVT frame as an event.
pub mod RoundTrip
use edu_glasses_host.Base.{
  ℕ, ◌*◌, ◌^◌, Bool, true, false, not, ◌&&◌, ◌||◌, List, [], ◌∷◌, leb, ltb, ◌==◌, if◌then◌else◌,
  length, Result, ok, err,
}
use edu_glasses_host.Base.Int.{ℤ, signed}
use edu_glasses_host.Base.Bytes.{Bytes, byte_at, le_at, le}
use edu_glasses_host.Payload.Codes.Commands.{EventId, event_id_code}
use edu_glasses_host.Payload.Capture.{DeviceCaptureState, parse_capture_state, CaptureError}

-- `received_at` of a record request is left out, as it is from the source's comparisons.
pub data GlassesEvent : Type 0 where
  button_event : (btn action : ℕ) → GlassesEvent
  knob_event : (direction : ℕ) (delta_x delta_y : ℤ) → GlassesEvent
  audio_state_event : (state source error : ℕ) → GlassesEvent
  img_state_event : (capture_evt error : ℕ) → GlassesEvent
  capture_state_event : DeviceCaptureState → GlassesEvent
  audio_record_request : (start : Bool) → GlassesEvent
  unknown_event : ℕ → Bytes → GlassesEvent

-- The `ValueError` of an empty payload.
pub data EventError : Type 0 where
  empty_payload : EventError

abbrev pub i16_at : Bytes → ℕ → ℤ
i16_at input i = signed (2 ^ 15) (le_at 2 input i)

abbrev pub or_unknown : Bytes → Result CaptureError DeviceCaptureState → GlassesEvent
or_unknown input (ok s) = capture_state_event s
or_unknown input (err e) = unknown_event (event_id_code EventId.capture_state) input

abbrev is_event : ℕ → EventId → Bool
is_event evt_id e = evt_id == event_id_code e

-- The chain of tests on the id and the bytes behind it.
unfoldable pub event_of : ℕ → Bytes → GlassesEvent
event_of evt_id input =
    if is_event evt_id EventId.button && leb 2 (length input)
    then button_event (byte_at input 0) (byte_at input 1)
    else if is_event evt_id EventId.knob && leb 5 (length input)
    then knob_event (byte_at input 0) (i16_at input 1) (i16_at input 3)
    else if is_event evt_id EventId.audio_state && leb 3 (length input)
    then audio_state_event (byte_at input 0) (byte_at input 1) (byte_at input 2)
    else if is_event evt_id EventId.img_state && leb 2 (length input)
    then img_state_event (byte_at input 0) (byte_at input 1)
    else if is_event evt_id EventId.capture_state
    then or_unknown input (parse_capture_state input)
    else if is_event evt_id EventId.audio_record_request
        && (length input == 1 && leb (byte_at input 0) 1)
    then audio_record_request (not (byte_at input 0 == 0))
    else unknown_event evt_id input

unfoldable pub parse_event : Bytes → Result EventError GlassesEvent
unfolding event_of
parse_event [] = err empty_payload
parse_event (evt_id ∷ input) = ok (event_of evt_id input)
