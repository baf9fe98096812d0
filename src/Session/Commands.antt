-- ===== src/Session/Commands.antt =====
-- The commands of `GlassesSession` (looktech_glasses_sdk/session.py) that are one request.
use edu_glasses_host.Base.{ℕ, ◌∷◌, [], List, true, ltb, Option, none, some, Result, ok, err}
use edu_glasses_host.Base.Bits.{shl}
use edu_glasses_host.Payload.Codes.{member}
use edu_glasses_host.Payload.Codes.Commands.{CommandId, command_id_code}
use edu_glasses_host.Payload.Codes.Controls.{
  led_id_enum, led_mode_enum, led_color_enum, led_speed_enum, led_id_code, led_mode_code,
  led_color_code, led_speed_code,
}
use edu_glasses_host.Payload.Caps.{Capability, caps_to_names}
use edu_glasses_host.Payload.Reply.{
  ReplyError, HelloAck, DeviceInfo, SensorData, parse_device_info, parse_sensor_data,
}
use edu_glasses_host.Client.{Response}
use edu_glasses_host.Session.{SessionError, require_connected, require, request}
use edu_glasses_host.Session.State.{Op, return, ◌>>=◌, ◌>>◌, get, raise_if, given, lift, map_err}

-- What the session raises, a reply that is too short, or a `ValueError` of an argument.
pub data CommandFailure : Type 0 where
  from_session : SessionError → CommandFailure
  bad_reply : ReplyError → CommandFailure
  bad_argument : ℕ → CommandFailure

abbrev pub in_session : {A : Type 0} → Op SessionError A → Op CommandFailure A
in_session = lift from_session

abbrev pub cap_sensors : ℕ
cap_sensors = shl 1 2

abbrev pub cap_control : ℕ
cap_control = shl 1 4

unfoldable pub info : Op CommandFailure DeviceInfo
info = do
  response ← in_session (request (command_id_code CommandId.get_device_info) [])
  given (map_err bad_reply (parse_device_info response.content))

unfoldable pub sensors : Op CommandFailure SensorData
sensors = do
  in_session (require cap_sensors true)
  response ← in_session (request (command_id_code CommandId.get_sensors) [])
  given (map_err bad_reply (parse_sensor_data response.content))

unfoldable pub reboot : Op CommandFailure Response
reboot = do
  in_session (require cap_control true)
  in_session (request (command_id_code CommandId.reboot) [])

abbrev pub or_bad_argument : {E : Type 0} → ℕ → Option E → Result CommandFailure E
or_bad_argument value none = err (bad_argument value)
or_bad_argument value (some e) = ok e

-- Unlike `GlassesClient.set_led`, only members of the enumerations are sent.
unfoldable pub set_led : ℕ → ℕ → ℕ → ℕ → Op CommandFailure Response
set_led led mode color speed = do
  in_session (require cap_control true)
  id ← given (or_bad_argument led (member led))
  how ← given (or_bad_argument mode (member mode))
  shade ← given (or_bad_argument color (member color))
  pace ← given (or_bad_argument speed (member speed))
  in_session (
      request (command_id_code CommandId.set_led)
        (led_id_code id ∷ led_mode_code how ∷ led_color_code shade ∷ led_speed_code pace ∷ []))

-- A tone by its number.
unfoldable pub play_tone : ℕ → Op CommandFailure Response
play_tone tone = do
  in_session (require cap_control true)
  raise_if (ltb 255 tone) (bad_argument tone)
  in_session (request (command_id_code CommandId.play_tone) (tone ∷ []))

abbrev ack_names : Option HelloAck → List Capability
ack_names none = []
ack_names (some a) = caps_to_names a.caps

-- `capabilities`
unfoldable pub capabilities : Op SessionError (List Capability)
capabilities = do require_connected; s ← get; return (ack_names s.hello_ack)
