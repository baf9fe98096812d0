-- ===== src/Payload/Codes/Controls.antt =====
-- Enumerations of looktech_glasses_sdk/protocol.py: LEDs and tones.
use edu_glasses_host.Base.{ℕ, ◌≡◌, refl, some, List, [], ◌∷◌}
use edu_glasses_host.Payload.Codes.{IntEnum, find}

pub data LedId : Type 0 where
  inner : LedId
  outer : LedId

abbrev pub led_id_code : LedId → ℕ
led_id_code inner = 0
led_id_code outer = 1

abbrev pub led_id_members : List LedId
led_id_members = LedId.inner ∷ LedId.outer ∷ []

pub led_id_own : (e : LedId) → find led_id_code led_id_members (led_id_code e) ≡ some e
led_id_own inner = refl
led_id_own outer = refl

instance abbrev pub led_id_enum : IntEnum LedId
led_id_enum = record { code = led_id_code; members = led_id_members; own = led_id_own }

pub data LedMode : Type 0 where
  off : LedMode
  on : LedMode
  blink : LedMode
  breath : LedMode

abbrev pub led_mode_code : LedMode → ℕ
led_mode_code off = 0
led_mode_code on = 1
led_mode_code blink = 2
led_mode_code breath = 3

abbrev pub led_mode_members : List LedMode
led_mode_members = LedMode.off ∷ LedMode.on ∷ LedMode.blink ∷ LedMode.breath ∷ []

pub led_mode_own : (e : LedMode) → find led_mode_code led_mode_members (led_mode_code e) ≡ some e
led_mode_own off = refl
led_mode_own on = refl
led_mode_own blink = refl
led_mode_own breath = refl

instance abbrev pub led_mode_enum : IntEnum LedMode
led_mode_enum = record { code = led_mode_code; members = led_mode_members; own = led_mode_own }

pub data LedColor : Type 0 where
  red : LedColor
  green : LedColor
  blue : LedColor
  orange : LedColor
  purple : LedColor
  white : LedColor

abbrev pub led_color_code : LedColor → ℕ
led_color_code red = 0
led_color_code green = 1
led_color_code blue = 2
led_color_code orange = 3
led_color_code purple = 4
led_color_code white = 5

abbrev pub led_color_members : List LedColor
led_color_members =
    LedColor.red ∷ LedColor.green ∷ LedColor.blue ∷ LedColor.orange ∷ LedColor.purple
    ∷ LedColor.white ∷ []

pub led_color_own :
    (e : LedColor) → find led_color_code led_color_members (led_color_code e) ≡ some e
led_color_own red = refl
led_color_own green = refl
led_color_own blue = refl
led_color_own orange = refl
led_color_own purple = refl
led_color_own white = refl

instance abbrev pub led_color_enum : IntEnum LedColor
led_color_enum = record { code = led_color_code; members = led_color_members; own = led_color_own }

pub data LedSpeed : Type 0 where
  slow : LedSpeed
  normal : LedSpeed
  fast : LedSpeed

abbrev pub led_speed_code : LedSpeed → ℕ
led_speed_code slow = 0
led_speed_code normal = 1
led_speed_code fast = 2

abbrev pub led_speed_members : List LedSpeed
led_speed_members = LedSpeed.slow ∷ LedSpeed.normal ∷ LedSpeed.fast ∷ []

pub led_speed_own :
    (e : LedSpeed) → find led_speed_code led_speed_members (led_speed_code e) ≡ some e
led_speed_own slow = refl
led_speed_own normal = refl
led_speed_own fast = refl

instance abbrev pub led_speed_enum : IntEnum LedSpeed
led_speed_enum = record { code = led_speed_code; members = led_speed_members; own = led_speed_own }

pub data Tone : Type 0 where
  power_on : Tone
  power_off : Tone
  enter_connection_mode : Tone
  bluetooth_connected : Tone
  bluetooth_disconnected : Tone
  connect_to_app : Tone
  wear_detection : Tone
  battery_low_warning : Tone
  battery_critically_low : Tone
  photo_capturing : Tone
  photo_captured : Tone
  video_recording_started : Tone
  video_recording_stopped : Tone
  recording_failed : Tone
  hang_up_call : Tone
  unable_to_operate : Tone
  storage_low : Tone
  temperature_too_high : Tone
  charge : Tone
  audio_recording_started : Tone
  audio_recording_stopped : Tone
  click : Tone

abbrev pub tone_code : Tone → ℕ
tone_code power_on = 0
tone_code power_off = 1
tone_code enter_connection_mode = 2
tone_code bluetooth_connected = 3
tone_code bluetooth_disconnected = 4
tone_code connect_to_app = 6
tone_code wear_detection = 8
tone_code battery_low_warning = 9
tone_code battery_critically_low = 10
tone_code photo_capturing = 11
tone_code photo_captured = 12
tone_code video_recording_started = 13
tone_code video_recording_stopped = 14
tone_code recording_failed = 15
tone_code hang_up_call = 16
tone_code unable_to_operate = 22
tone_code storage_low = 23
tone_code temperature_too_high = 24
tone_code charge = 25
tone_code audio_recording_started = 27
tone_code audio_recording_stopped = 28
tone_code click = 29

abbrev pub tone_members : List Tone
tone_members =
    Tone.power_on ∷ Tone.power_off ∷ Tone.enter_connection_mode ∷ Tone.bluetooth_connected
    ∷ Tone.bluetooth_disconnected ∷ Tone.connect_to_app ∷ Tone.wear_detection
    ∷ Tone.battery_low_warning ∷ Tone.battery_critically_low ∷ Tone.photo_capturing
    ∷ Tone.photo_captured ∷ Tone.video_recording_started ∷ Tone.video_recording_stopped
    ∷ Tone.recording_failed ∷ Tone.hang_up_call ∷ Tone.unable_to_operate ∷ Tone.storage_low
    ∷ Tone.temperature_too_high ∷ Tone.charge ∷ Tone.audio_recording_started
    ∷ Tone.audio_recording_stopped ∷ Tone.click ∷ []

pub tone_own : (e : Tone) → find tone_code tone_members (tone_code e) ≡ some e
tone_own power_on = refl
tone_own power_off = refl
tone_own enter_connection_mode = refl
tone_own bluetooth_connected = refl
tone_own bluetooth_disconnected = refl
tone_own connect_to_app = refl
tone_own wear_detection = refl
tone_own battery_low_warning = refl
tone_own battery_critically_low = refl
tone_own photo_capturing = refl
tone_own photo_captured = refl
tone_own video_recording_started = refl
tone_own video_recording_stopped = refl
tone_own recording_failed = refl
tone_own hang_up_call = refl
tone_own unable_to_operate = refl
tone_own storage_low = refl
tone_own temperature_too_high = refl
tone_own charge = refl
tone_own audio_recording_started = refl
tone_own audio_recording_stopped = refl
tone_own click = refl

instance abbrev pub tone_enum : IntEnum Tone
tone_enum = record { code = tone_code; members = tone_members; own = tone_own }
