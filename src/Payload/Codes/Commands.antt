-- ===== src/Payload/Codes/Commands.antt =====
-- Enumerations of looktech_glasses_sdk/protocol.py: the types of frames, and the first bytes of their payloads.
use edu_glasses_host.Base.{ℕ, ◌≡◌, refl, some, List, [], ◌∷◌}
use edu_glasses_host.Payload.Codes.{IntEnum, find}

pub data FrameType : Type 0 where
  hello : FrameType
  hello_ack : FrameType
  cmd : FrameType
  rsp : FrameType
  evt : FrameType

abbrev pub frame_type_code : FrameType → ℕ
frame_type_code hello = 0x01
frame_type_code hello_ack = 0x02
frame_type_code cmd = 0x10
frame_type_code rsp = 0x11
frame_type_code evt = 0x20

abbrev pub frame_type_members : List FrameType
frame_type_members =
    FrameType.hello ∷ FrameType.hello_ack ∷ FrameType.cmd ∷ FrameType.rsp ∷ FrameType.evt ∷ []

pub frame_type_own :
    (e : FrameType) → find frame_type_code frame_type_members (frame_type_code e) ≡ some e
frame_type_own hello = refl
frame_type_own hello_ack = refl
frame_type_own cmd = refl
frame_type_own rsp = refl
frame_type_own evt = refl

instance abbrev pub frame_type_enum : IntEnum FrameType
frame_type_enum = record {
  code = frame_type_code;
  members = frame_type_members;
  own = frame_type_own;
}

pub data CommandId : Type 0 where
  take_photo : CommandId
  audio_start : CommandId
  audio_stop : CommandId
  get_sensors : CommandId
  get_device_info : CommandId
  reboot : CommandId
  set_led : CommandId
  play_tone : CommandId
  wifi_execute : CommandId
  saved_photo : CommandId
  video_start : CommandId
  video_stop : CommandId
  media_status : CommandId
  media_caps : CommandId
  media_descriptor : CommandId
  media_ids : CommandId
  get_video_config : CommandId
  set_video_config : CommandId
  get_capture_state : CommandId

abbrev pub command_id_code : CommandId → ℕ
command_id_code take_photo = 0x01
command_id_code audio_start = 0x02
command_id_code audio_stop = 0x03
command_id_code get_sensors = 0x04
command_id_code get_device_info = 0x05
command_id_code reboot = 0x06
command_id_code set_led = 0x07
command_id_code play_tone = 0x08
command_id_code wifi_execute = 0x20
command_id_code saved_photo = 0x21
command_id_code video_start = 0x22
command_id_code video_stop = 0x23
command_id_code media_status = 0x24
command_id_code media_caps = 0x25
command_id_code media_descriptor = 0x26
command_id_code media_ids = 0x27
command_id_code get_video_config = 0x28
command_id_code set_video_config = 0x29
command_id_code get_capture_state = 0x2A

abbrev pub command_id_members : List CommandId
command_id_members =
    CommandId.take_photo ∷ CommandId.audio_start ∷ CommandId.audio_stop ∷ CommandId.get_sensors
    ∷ CommandId.get_device_info ∷ CommandId.reboot ∷ CommandId.set_led ∷ CommandId.play_tone
    ∷ CommandId.wifi_execute ∷ CommandId.saved_photo ∷ CommandId.video_start ∷ CommandId.video_stop
    ∷ CommandId.media_status ∷ CommandId.media_caps ∷ CommandId.media_descriptor
    ∷ CommandId.media_ids ∷ CommandId.get_video_config ∷ CommandId.set_video_config
    ∷ CommandId.get_capture_state ∷ []

pub command_id_own :
    (e : CommandId) → find command_id_code command_id_members (command_id_code e) ≡ some e
command_id_own take_photo = refl
command_id_own audio_start = refl
command_id_own audio_stop = refl
command_id_own get_sensors = refl
command_id_own get_device_info = refl
command_id_own reboot = refl
command_id_own set_led = refl
command_id_own play_tone = refl
command_id_own wifi_execute = refl
command_id_own saved_photo = refl
command_id_own video_start = refl
command_id_own video_stop = refl
command_id_own media_status = refl
command_id_own media_caps = refl
command_id_own media_descriptor = refl
command_id_own media_ids = refl
command_id_own get_video_config = refl
command_id_own set_video_config = refl
command_id_own get_capture_state = refl

instance abbrev pub command_id_enum : IntEnum CommandId
command_id_enum = record {
  code = command_id_code;
  members = command_id_members;
  own = command_id_own;
}

pub data Status : Type 0 where
  ok : Status
  busy : Status
  invalid : Status
  not_ready : Status
  error : Status

abbrev pub status_code : Status → ℕ
status_code ok = 0x00
status_code busy = 0x01
status_code invalid = 0x02
status_code not_ready = 0x03
status_code error = 0xFF

abbrev pub status_members : List Status
status_members = Status.ok ∷ Status.busy ∷ Status.invalid ∷ Status.not_ready ∷ Status.error ∷ []

pub status_own : (e : Status) → find status_code status_members (status_code e) ≡ some e
status_own ok = refl
status_own busy = refl
status_own invalid = refl
status_own not_ready = refl
status_own error = refl

instance abbrev pub status_enum : IntEnum Status
status_enum = record { code = status_code; members = status_members; own = status_own }

pub data EventId : Type 0 where
  button : EventId
  knob : EventId
  audio_state : EventId
  img_state : EventId
  capture_state : EventId
  audio_record_request : EventId

abbrev pub event_id_code : EventId → ℕ
event_id_code button = 0x01
event_id_code knob = 0x02
event_id_code audio_state = 0x03
event_id_code img_state = 0x04
event_id_code capture_state = 0x05
event_id_code audio_record_request = 0x06

abbrev pub event_id_members : List EventId
event_id_members =
    EventId.button ∷ EventId.knob ∷ EventId.audio_state ∷ EventId.img_state ∷ EventId.capture_state
    ∷ EventId.audio_record_request ∷ []

pub event_id_own : (e : EventId) → find event_id_code event_id_members (event_id_code e) ≡ some e
event_id_own button = refl
event_id_own knob = refl
event_id_own audio_state = refl
event_id_own img_state = refl
event_id_own capture_state = refl
event_id_own audio_record_request = refl

instance abbrev pub event_id_enum : IntEnum EventId
event_id_enum = record { code = event_id_code; members = event_id_members; own = event_id_own }
