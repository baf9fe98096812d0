-- ===== src/Capture.antt =====
-- `CaptureClient` of looktech_glasses_sdk/capture.py: photos and videos that the device stores, on a
-- session.
pub mod Codes
pub mod Commands
pub mod Settled
mod Tests
use edu_glasses_host.Base.{
  ℕ, zero, suc, ◌+◌, ◌^◌, Bool, true, false, not, ◌&&◌, ◌||◌, Option, none, some, List, [], ◌∷◌,
  ◌++◌, ltb, leb, ◌==◌, if◌then◌else◌, length, Result, ok, err, bit_and, bit_or,
}
use edu_glasses_host.Base.Bits.{shl}
use edu_glasses_host.Base.Bytes.{Bytes, byte_at, le_at, le, to_le}
use edu_glasses_host.Payload.Codes.{member}
use edu_glasses_host.Payload.Codes.Commands.{CommandId, command_id_code}
use edu_glasses_host.Payload.Codes.Captures.{CaptureState, capture_state_code, capture_state_enum}
use edu_glasses_host.Payload.Capture.{DeviceCaptureState, parse_capture_state}
use edu_glasses_host.Payload.Capture
use edu_glasses_host.Session
use edu_glasses_host.Session.{SessionError, require, request, is_connected}
use edu_glasses_host.Session.State.{
  Session, Op, return, raise, ◌>>=◌, ◌>>◌, get, modify, raise_if, given, lift, map_err,
}
use Codes.{
  VideoResolution, VideoOrientation, VideoConfigState, video_resolution_code,
  video_orientation_code, video_config_state_code, video_resolution_enum, video_orientation_enum,
  video_config_state_enum,
}

pub record VideoConfig : Type 0 where
  pub resolution : VideoResolution
  pub orientation : VideoOrientation
  pub max_duration_s : ℕ
  pub requested_resolution : VideoResolution
  pub requested_orientation : VideoOrientation
  pub sync_state : VideoConfigState

pub record CaptureResult : Type 0 where
  pub operation_id : ℕ
  pub kind : ℕ
  pub state : CaptureState
  pub error : ℕ

-- The exceptions of capture.py: `capture_failed` is `CaptureError`, `unknown_completion` is
-- `CaptureTimeoutError`.
pub data CaptureFailure : Type 0 where
  from_session : SessionError → CaptureFailure
  bad_length bad_value profile_mismatch identity_mismatch bad_operation no_identity : CaptureFailure
  bad_device_state owner_lost bad_duration no_field superseded unconfirmed not_a_video :
      CaptureFailure
  capture_failed : CaptureResult → CaptureFailure
  unknown_completion : ℕ → CaptureFailure

abbrev pub in_session : {A : Type 0} → Op SessionError A → Op CaptureFailure A
in_session = lift from_session

abbrev pub cap_saved_photo : ℕ
cap_saved_photo = shl 1 6

abbrev pub cap_video : ℕ
cap_video = shl 1 7

abbrev pub cap_media_catalog : ℕ
cap_media_catalog = shl 1 8

abbrev pub cap_video_config : ℕ
cap_video_config = shl 1 9

abbrev pub cap_device_capture_state : ℕ
cap_device_capture_state = shl 1 11

abbrev pub or_bad_value : {E : Type 0} → Option E → Result CaptureFailure E
or_bad_value none = err bad_value
or_bad_value (some e) = ok e

abbrev pub is_state : CaptureState → CaptureState → Bool
is_state a b = capture_state_code a == capture_state_code b

abbrev pub is_config_state : VideoConfigState → VideoConfigState → Bool
is_config_state a b = video_config_state_code a == video_config_state_code b

abbrev pub same_profile :
    VideoResolution → VideoOrientation → VideoResolution → VideoOrientation → Bool
same_profile r o r' o' =
    video_resolution_code r == video_resolution_code r'
    && video_orientation_code o == video_orientation_code o'

-- The bytes of a video configuration, in `_video_config`.
unfoldable pub parse_config : Bytes → Op CaptureFailure VideoConfig
parse_config input = do
  raise_if (not (length input == 9)) bad_length
  resolution ← given (or_bad_value (member (byte_at input 0)))
  orientation ← given (or_bad_value (member (byte_at input 1)))
  wanted_res ← given (or_bad_value (member (byte_at input 6)))
  wanted_mode ← given (or_bad_value (member (byte_at input 7)))
  state ← given (or_bad_value (member (byte_at input 8)))
  raise_if
      (is_config_state state VideoConfigState.applied
        && not (same_profile resolution orientation wanted_res wanted_mode))
      profile_mismatch
  return (record {
    resolution = resolution;
    orientation = orientation;
    max_duration_s = le_at 4 input 2;
    requested_resolution = wanted_res;
    requested_orientation = wanted_mode;
    sync_state = state;
  })

-- `_video_config`
unfoldable pub video_config : CommandId → Bytes → Op CaptureFailure VideoConfig
video_config command args = do
  in_session (require cap_video_config true)
  response ← in_session (request (command_id_code command) args)
  parse_config response.content

unfoldable pub get_video_config : Op CaptureFailure VideoConfig
get_video_config = video_config CommandId.get_video_config []

-- `device_state`
abbrev pub or_bad_device_state :
    {A : Type 0} → Result Capture.CaptureError A → Result CaptureFailure A
or_bad_device_state (ok a) = ok a
or_bad_device_state (err e) = err bad_device_state

unfoldable pub device_state : Op CaptureFailure DeviceCaptureState
device_state = do
  in_session (require cap_device_capture_state true)
  response ← in_session (request (command_id_code CommandId.get_capture_state) [])
  given (or_bad_device_state (parse_capture_state response.content))

-- The identity of a capture status is not that of the request.
abbrev pub is_foreign : ℕ → Bytes → Bool
is_foreign operation input =
    not (le_at 4 input 0 == operation)
    || (not (byte_at input 4 == 1 || byte_at input 4 == 2)
        || byte_at input 5 == capture_state_code CaptureState.idle)

abbrev pub state_of : Bytes → Result CaptureFailure CaptureState
state_of input = or_bad_value (member (byte_at input 5))

abbrev pub result_of : Bytes → CaptureState → CaptureResult
result_of input state = record {
  operation_id = le_at 4 input 0;
  kind = byte_at input 4;
  state = state;
  error = byte_at input 6;
}

-- The bytes of a capture status, in `status`.
unfoldable pub parse_status : ℕ → Bytes → Op CaptureFailure CaptureResult
parse_status operation input = do
  raise_if (not (length input == 7)) bad_length
  raise_if (is_foreign operation input) identity_mismatch
  state ← given (state_of input)
  return (result_of input state)

unfoldable pub status : ℕ → Op CaptureFailure CaptureResult
status operation = do
  in_session (require cap_media_catalog true)
  raise_if (operation == 0 || ltb 0xffffffff operation) bad_operation
  response ← in_session (request (command_id_code CommandId.media_status) (to_le 4 operation))
  parse_status operation response.content

-- `_begin`
unfoldable pub begin : CommandId → Op CaptureFailure ℕ
begin command = do
  response ← in_session (request (command_id_code command) [])
  raise_if (not (length response.content == 4)) bad_length
  raise_if (le 4 response.content == 0) no_identity
  return (le 4 response.content)

-- The pause of 0.1 s between two passes of a loop is two polls of 0.05 s.
abbrev pub pause : Op CaptureFailure (Unit {0})
pause = in_session (Session.wait 2)

abbrev pub has_failed : CaptureResult → Bool
has_failed r = is_state r.state CaptureState.failed || is_state r.state CaptureState.unknown

abbrev pub is_over : Bool → CaptureResult → Bool
is_over started r =
    is_state r.state CaptureState.done || (started && is_state r.state CaptureState.recording)

-- What a pass of `wait` makes of a status.
abbrev pub settle :
    Bool → CaptureResult → Op CaptureFailure CaptureResult → Op CaptureFailure CaptureResult
settle started result again =
    if has_failed result
    then raise (capture_failed result)
    else if is_over started result
    then return result
    else again

-- A pass of `wait`. Nothing but the user replaces the client, so the owner is the same.
abbrev pub wait_pass : ℕ → Bool → Op CaptureFailure CaptureResult → Op CaptureFailure CaptureResult
wait_pass operation started again = do
  s ← get
  raise_if (not (is_connected s)) owner_lost
  result ← status operation
  settle started result again

-- `wait`, with the passes that end before the deadline; the pass after those is the last.
unfoldable pub wait : ℕ → Bool → ℕ → Op CaptureFailure CaptureResult
wait operation started zero = wait_pass operation started (raise (unknown_completion operation))
wait operation started (suc n) = wait_pass operation started (pause >> wait operation started n)
