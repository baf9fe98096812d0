-- ===== src/Capture/Codes.antt =====
-- Enumerations of looktech_glasses_sdk/capture.py: the settings of videos.
use edu_glasses_host.Base.{ℕ, ◌≡◌, refl, some, List, [], ◌∷◌}
use edu_glasses_host.Payload.Codes.{IntEnum, find}

pub data VideoResolution : Type 0 where
  res_2k : VideoResolution
  res_1080p : VideoResolution

abbrev pub video_resolution_code : VideoResolution → ℕ
video_resolution_code res_2k = 0
video_resolution_code res_1080p = 1

abbrev pub video_resolution_members : List VideoResolution
video_resolution_members = VideoResolution.res_2k ∷ VideoResolution.res_1080p ∷ []

pub video_resolution_own :
    (e : VideoResolution)
    → find video_resolution_code video_resolution_members (video_resolution_code e) ≡ some e
video_resolution_own res_2k = refl
video_resolution_own res_1080p = refl

instance abbrev pub video_resolution_enum : IntEnum VideoResolution
video_resolution_enum = record {
  code = video_resolution_code;
  members = video_resolution_members;
  own = video_resolution_own;
}

pub data VideoOrientation : Type 0 where
  landscape : VideoOrientation
  portrait : VideoOrientation

abbrev pub video_orientation_code : VideoOrientation → ℕ
video_orientation_code landscape = 0
video_orientation_code portrait = 1

abbrev pub video_orientation_members : List VideoOrientation
video_orientation_members = VideoOrientation.landscape ∷ VideoOrientation.portrait ∷ []

pub video_orientation_own :
    (e : VideoOrientation)
    → find video_orientation_code video_orientation_members (video_orientation_code e) ≡ some e
video_orientation_own landscape = refl
video_orientation_own portrait = refl

instance abbrev pub video_orientation_enum : IntEnum VideoOrientation
video_orientation_enum = record {
  code = video_orientation_code;
  members = video_orientation_members;
  own = video_orientation_own;
}

pub data VideoConfigState : Type 0 where
  unconfirmed : VideoConfigState
  pending : VideoConfigState
  applied : VideoConfigState

abbrev pub video_config_state_code : VideoConfigState → ℕ
video_config_state_code unconfirmed = 0
video_config_state_code pending = 1
video_config_state_code applied = 2

abbrev pub video_config_state_members : List VideoConfigState
video_config_state_members =
    VideoConfigState.unconfirmed ∷ VideoConfigState.pending ∷ VideoConfigState.applied ∷ []

pub video_config_state_own :
    (e : VideoConfigState)
    → find video_config_state_code video_config_state_members (video_config_state_code e) ≡ some e
video_config_state_own unconfirmed = refl
video_config_state_own pending = refl
video_config_state_own applied = refl

instance abbrev pub video_config_state_enum : IntEnum VideoConfigState
video_config_state_enum = record {
  code = video_config_state_code;
  members = video_config_state_members;
  own = video_config_state_own;
}
