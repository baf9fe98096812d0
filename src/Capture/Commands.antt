-- ===== src/Capture/Commands.antt =====
-- The methods of `CaptureClient` (looktech_glasses_sdk/capture.py) that capture and configure.
use edu_glasses_host.Base.{
  ℕ, zero, suc, Bool, true, false, not, ◌||◌, Option, none, some, ◌∷◌, ◌==◌, if◌then◌else◌, Result,
  ok, err, bit_and, bit_or,
}
use edu_glasses_host.Base.Bytes.{Bytes, to_le}
use edu_glasses_host.Payload.Codes.Commands.{CommandId, command_id_code}
use edu_glasses_host.Payload.Codes.Captures.{CaptureState}
use edu_glasses_host.Session.{require, request, is_connected}
use edu_glasses_host.Session.State.{
  Session, Op, return, raise, ◌>>=◌, ◌>>◌, get, modify, raise_if, given,
}
use edu_glasses_host.Capture.Codes.{
  VideoResolution, VideoOrientation, VideoConfigState, video_resolution_code,
  video_orientation_code,
}
use edu_glasses_host.Capture.{
  VideoConfig, CaptureResult, CaptureFailure, bad_duration, no_field, superseded, unconfirmed,
  owner_lost, not_a_video, capture_failed, bad_operation, in_session, cap_saved_photo, cap_video,
  cap_media_catalog, is_state, has_failed, is_config_state, same_profile, video_config,
  get_video_config, status, begin, pause, wait,
}

-- `_require_capture`
abbrev pub require_capture : ℕ → Op CaptureFailure (Unit {0})
require_capture caps = in_session (require (bit_or caps cap_media_catalog) true)

unfoldable pub photo : ℕ → Op CaptureFailure CaptureResult
photo n = do
  require_capture cap_saved_photo
  operation ← begin CommandId.saved_photo
  wait operation false n

abbrev pub own_video : ℕ → Session → Session
own_video operation s = record s { video_operation = some operation }

unfoldable pub video_start : ℕ → Op CaptureFailure CaptureResult
video_start n = do
  require_capture cap_video
  operation ← begin CommandId.video_start
  modify (own_video operation)
  wait operation true n

abbrev pub or_own : Option ℕ → Option ℕ → Result CaptureFailure ℕ
or_own (some operation) own = ok operation
or_own none (some operation) = ok operation
or_own none none = err bad_operation

-- A video that is over is not stopped again.
abbrev pub stop_or_settled :
    CaptureResult → Op CaptureFailure CaptureResult → Op CaptureFailure CaptureResult
stop_or_settled result stop =
    if is_state result.state CaptureState.done
    then return result
    else if has_failed result
    then raise (capture_failed result)
    else stop

unfoldable pub video_stop : Option ℕ → ℕ → Op CaptureFailure CaptureResult
video_stop given_operation n = do
  require_capture cap_video
  s ← get
  operation ← given (or_own given_operation s.video_operation)
  result ← status operation
  raise_if (not (result.kind == 2)) not_a_video
  stop_or_settled result (
      in_session (request (command_id_code CommandId.video_stop) (to_le 4 operation))
      >> wait operation false n)

-- The settings to change; the names of a resolution or an orientation are its members.
pub record Settings : Type 0 where
  pub resolution : Option VideoResolution
  pub orientation : Option VideoOrientation
  pub max_duration_s : Option ℕ

abbrev pub resolution_field : Option VideoResolution → ℕ × ℕ
resolution_field none = (0, 0)
resolution_field (some r) = (1, video_resolution_code r)

abbrev pub orientation_field : Option VideoOrientation → ℕ × ℕ
orientation_field none = (0, 0)
orientation_field (some o) = (2, video_orientation_code o)

abbrev pub duration_field : Option ℕ → ℕ × ℕ
duration_field none = (0, 0)
duration_field (some d) = (4, d)

abbrev pub is_duration : Option ℕ → Bool
is_duration none = true
is_duration (some d) = d == 30 || (d == 60 || d == 180)

-- The loop of `set_video_config`, for the configuration asked for and the last one read.
abbrev pub config_pass :
    VideoConfig → VideoConfig → Op CaptureFailure VideoConfig → Op CaptureFailure VideoConfig
config_pass first config again = do
  s ← get
  raise_if (not (is_connected s)) owner_lost
  raise_if
      (not (
        same_profile config.requested_resolution config.requested_orientation
          first.requested_resolution first.requested_orientation))
      superseded
  (if is_config_state config.sync_state VideoConfigState.applied then return config else again)

unfoldable pub config_loop : VideoConfig → VideoConfig → ℕ → Op CaptureFailure VideoConfig
config_loop first config zero = config_pass first config (raise unconfirmed)
config_loop first config (suc n) =
    config_pass first config (pause >> (get_video_config >>= (λ next. config_loop first next n)))

abbrev pub mask_of : Settings → ℕ
mask_of settings =
    bit_or
      (bit_or (resolution_field settings.resolution).0 (orientation_field settings.orientation).0)
      (duration_field settings.max_duration_s).0

abbrev pub config_args : Settings → Bytes
config_args settings =
    mask_of settings
    ∷ (resolution_field settings.resolution).1
    ∷ (orientation_field settings.orientation).1
    ∷ to_le 4 (duration_field settings.max_duration_s).1

unfoldable pub set_video_config : Settings → ℕ → Op CaptureFailure VideoConfig
set_video_config settings n = do
  raise_if (not (is_duration settings.max_duration_s)) bad_duration
  raise_if (mask_of settings == 0) no_field
  config ← video_config CommandId.set_video_config (config_args settings)
  (if bit_and (mask_of settings) 3 == 0 then return config else config_loop config config n)
