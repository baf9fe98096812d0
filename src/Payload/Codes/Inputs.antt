-- ===== src/Payload/Codes/Inputs.antt =====
-- Enumerations of looktech_glasses_sdk/protocol.py: buttons, the knob and the sound source.
use edu_glasses_host.Base.{ℕ, ◌≡◌, refl, some, List, [], ◌∷◌}
use edu_glasses_host.Payload.Codes.{IntEnum, find}

pub data ButtonId : Type 0 where
  ai : ButtonId
  capture : ButtonId
  media : ButtonId

abbrev pub button_id_code : ButtonId → ℕ
button_id_code ai = 0
button_id_code capture = 1
button_id_code media = 2

abbrev pub button_id_members : List ButtonId
button_id_members = ButtonId.ai ∷ ButtonId.capture ∷ ButtonId.media ∷ []

pub button_id_own :
    (e : ButtonId) → find button_id_code button_id_members (button_id_code e) ≡ some e
button_id_own ai = refl
button_id_own capture = refl
button_id_own media = refl

instance abbrev pub button_id_enum : IntEnum ButtonId
button_id_enum = record { code = button_id_code; members = button_id_members; own = button_id_own }

pub data KeyAction : Type 0 where
  single : KeyAction
  double : KeyAction
  triple : KeyAction
  quadruple : KeyAction
  quintuple : KeyAction
  sextuple : KeyAction
  short : KeyAction
  long : KeyAction
  long_release : KeyAction
  vlong : KeyAction
  vlong_release : KeyAction
  vvlong : KeyAction
  vvlong_release : KeyAction
  repeat : KeyAction
  press : KeyAction
  release : KeyAction
  single_long : KeyAction
  double_long : KeyAction
  triple_long : KeyAction
  single_vlong : KeyAction
  double_vlong : KeyAction
  triple_vlong : KeyAction
  slide_up : KeyAction
  slide_down : KeyAction

abbrev pub key_action_code : KeyAction → ℕ
key_action_code single = 0
key_action_code double = 1
key_action_code triple = 2
key_action_code quadruple = 3
key_action_code quintuple = 4
key_action_code sextuple = 5
key_action_code short = 6
key_action_code long = 7
key_action_code long_release = 8
key_action_code vlong = 9
key_action_code vlong_release = 10
key_action_code vvlong = 11
key_action_code vvlong_release = 12
key_action_code repeat = 13
key_action_code press = 14
key_action_code release = 15
key_action_code single_long = 16
key_action_code double_long = 17
key_action_code triple_long = 18
key_action_code single_vlong = 19
key_action_code double_vlong = 20
key_action_code triple_vlong = 21
key_action_code slide_up = 22
key_action_code slide_down = 23

abbrev pub key_action_members : List KeyAction
key_action_members =
    KeyAction.single ∷ KeyAction.double ∷ KeyAction.triple ∷ KeyAction.quadruple
    ∷ KeyAction.quintuple ∷ KeyAction.sextuple ∷ KeyAction.short ∷ KeyAction.long
    ∷ KeyAction.long_release ∷ KeyAction.vlong ∷ KeyAction.vlong_release ∷ KeyAction.vvlong
    ∷ KeyAction.vvlong_release ∷ KeyAction.repeat ∷ KeyAction.press ∷ KeyAction.release
    ∷ KeyAction.single_long ∷ KeyAction.double_long ∷ KeyAction.triple_long ∷ KeyAction.single_vlong
    ∷ KeyAction.double_vlong ∷ KeyAction.triple_vlong ∷ KeyAction.slide_up ∷ KeyAction.slide_down
    ∷ []

pub key_action_own :
    (e : KeyAction) → find key_action_code key_action_members (key_action_code e) ≡ some e
key_action_own single = refl
key_action_own double = refl
key_action_own triple = refl
key_action_own quadruple = refl
key_action_own quintuple = refl
key_action_own sextuple = refl
key_action_own short = refl
key_action_own long = refl
key_action_own long_release = refl
key_action_own vlong = refl
key_action_own vlong_release = refl
key_action_own vvlong = refl
key_action_own vvlong_release = refl
key_action_own repeat = refl
key_action_own press = refl
key_action_own release = refl
key_action_own single_long = refl
key_action_own double_long = refl
key_action_own triple_long = refl
key_action_own single_vlong = refl
key_action_own double_vlong = refl
key_action_own triple_vlong = refl
key_action_own slide_up = refl
key_action_own slide_down = refl

instance abbrev pub key_action_enum : IntEnum KeyAction
key_action_enum = record {
  code = key_action_code;
  members = key_action_members;
  own = key_action_own;
}

pub data KnobEvt : Type 0 where
  none : KnobEvt
  right : KnobEvt
  left : KnobEvt
  down : KnobEvt
  up : KnobEvt
  turning_done : KnobEvt

abbrev pub knob_evt_code : KnobEvt → ℕ
knob_evt_code none = 0
knob_evt_code right = 1
knob_evt_code left = 2
knob_evt_code down = 3
knob_evt_code up = 4
knob_evt_code turning_done = 5

abbrev pub knob_evt_members : List KnobEvt
knob_evt_members =
    KnobEvt.none ∷ KnobEvt.right ∷ KnobEvt.left ∷ KnobEvt.down ∷ KnobEvt.up ∷ KnobEvt.turning_done
    ∷ []

pub knob_evt_own : (e : KnobEvt) → find knob_evt_code knob_evt_members (knob_evt_code e) ≡ some e
knob_evt_own none = refl
knob_evt_own right = refl
knob_evt_own left = refl
knob_evt_own down = refl
knob_evt_own up = refl
knob_evt_own turning_done = refl

instance abbrev pub knob_evt_enum : IntEnum KnobEvt
knob_evt_enum = record { code = knob_evt_code; members = knob_evt_members; own = knob_evt_own }

pub data AudioSubSource : Type 0 where
  mic : AudioSubSource
  call : AudioSubSource

abbrev pub audio_sub_source_code : AudioSubSource → ℕ
audio_sub_source_code mic = 0
audio_sub_source_code call = 1

abbrev pub audio_sub_source_members : List AudioSubSource
audio_sub_source_members = AudioSubSource.mic ∷ AudioSubSource.call ∷ []

pub audio_sub_source_own :
    (e : AudioSubSource)
    → find audio_sub_source_code audio_sub_source_members (audio_sub_source_code e) ≡ some e
audio_sub_source_own mic = refl
audio_sub_source_own call = refl

instance abbrev pub audio_sub_source_enum : IntEnum AudioSubSource
audio_sub_source_enum = record {
  code = audio_sub_source_code;
  members = audio_sub_source_members;
  own = audio_sub_source_own;
}
