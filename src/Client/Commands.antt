-- ===== src/Client/Commands.antt =====
-- The commands of `GlassesClient` (looktech_glasses_sdk/client.py): each is one request.
pub mod Answers
use edu_glasses_host.Base.{ℕ, List, [], ◌∷◌, Result, ok, err, ◌>>=◌, bit_and}
use edu_glasses_host.Base.Bytes.{Bytes}
use edu_glasses_host.Payload.Codes.Commands.{FrameType, frame_type_code, CommandId, command_id_code}
use edu_glasses_host.Payload.Reply.{
  ReplyError, HelloAck, DeviceInfo, SensorData, parse_hello_ack, parse_device_info,
  parse_sensor_data,
}
use edu_glasses_host.Frame.{Frame}
use edu_glasses_host.Client.{
  GlassesClient, ClientError, Called, Response, transact, request, request_ok,
}

-- A request that fails, or a reply that is too short.
pub data CommandError : Type 0 where
  failed : ClientError → CommandError
  bad_reply : ReplyError → CommandError

abbrev pub or_failed : {A : Type 0} → Result ClientError A → Result CommandError A
or_failed (ok a) = ok a
or_failed (err e) = err (failed e)

abbrev pub or_bad_reply : {A : Type 0} → Result ReplyError A → Result CommandError A
or_bad_reply (ok a) = ok a
or_bad_reply (err e) = err (bad_reply e)

-- The transaction of `hello`.
abbrev pub greet : ℕ → List Bytes → GlassesClient → Called Frame
greet host_version =
    transact (frame_type_code FrameType.hello) (host_version ∷ [])
      (frame_type_code FrameType.hello_ack)

unfoldable pub hello : ℕ → List Bytes → GlassesClient → Result CommandError HelloAck × GlassesClient
hello host_version reads c =
    let done = greet host_version reads c in
    (or_failed done.result >>= (λ f. or_bad_reply (parse_hello_ack f.payload)), done.client)

unfoldable pub get_device_info :
    List Bytes → GlassesClient → Result CommandError DeviceInfo × GlassesClient
get_device_info reads c =
    let done = request_ok (command_id_code CommandId.get_device_info) [] reads c in
    (or_failed done.result >>= (λ r. or_bad_reply (parse_device_info r.content)), done.client)

unfoldable pub get_sensors :
    List Bytes → GlassesClient → Result CommandError SensorData × GlassesClient
get_sensors reads c =
    let done = request_ok (command_id_code CommandId.get_sensors) [] reads c in
    (or_failed done.result >>= (λ r. or_bad_reply (parse_sensor_data r.content)), done.client)

-- A command without arguments: `take_photo`, `audio_start`, `audio_stop`, `reboot`.
unfoldable pub command : CommandId → List Bytes → GlassesClient → Called Response
command id = request (command_id_code id) []

unfoldable pub set_led : ℕ → ℕ → ℕ → ℕ → List Bytes → GlassesClient → Called Response
set_led led mode color speed =
    request (command_id_code CommandId.set_led)
      (bit_and led 0xff ∷ bit_and mode 0xff ∷ bit_and color 0xff ∷ bit_and speed 0xff ∷ [])

unfoldable pub play_tone : ℕ → List Bytes → GlassesClient → Called Response
play_tone tone = request (command_id_code CommandId.play_tone) (bit_and tone 0xff ∷ [])
