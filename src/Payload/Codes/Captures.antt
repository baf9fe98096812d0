-- ===== src/Payload/Codes/Captures.antt =====
-- Enumerations of looktech_glasses_sdk/protocol.py: the states and errors of a capture.
use edu_glasses_host.Base.{ℕ, ◌≡◌, refl, some, List, [], ◌∷◌}
use edu_glasses_host.Payload.Codes.{IntEnum, find}

pub data CaptureEvt : Type 0 where
  start : CaptureEvt
  done : CaptureEvt
  error : CaptureEvt
  remote_error : CaptureEvt
  cancel : CaptureEvt

abbrev pub capture_evt_code : CaptureEvt → ℕ
capture_evt_code start = 0
capture_evt_code done = 1
capture_evt_code error = 2
capture_evt_code remote_error = 3
capture_evt_code cancel = 4

abbrev pub capture_evt_members : List CaptureEvt
capture_evt_members =
    CaptureEvt.start ∷ CaptureEvt.done ∷ CaptureEvt.error ∷ CaptureEvt.remote_error
    ∷ CaptureEvt.cancel ∷ []

pub capture_evt_own :
    (e : CaptureEvt) → find capture_evt_code capture_evt_members (capture_evt_code e) ≡ some e
capture_evt_own start = refl
capture_evt_own done = refl
capture_evt_own error = refl
capture_evt_own remote_error = refl
capture_evt_own cancel = refl

instance abbrev pub capture_evt_enum : IntEnum CaptureEvt
capture_evt_enum = record {
  code = capture_evt_code;
  members = capture_evt_members;
  own = capture_evt_own;
}

pub data CaptureErrorCode : Type 0 where
  ok : CaptureErrorCode
  busy : CaptureErrorCode
  timeout : CaptureErrorCode
  res_acquire_failed : CaptureErrorCode
  res_deprived : CaptureErrorCode
  unknown : CaptureErrorCode

abbrev pub capture_error_code_code : CaptureErrorCode → ℕ
capture_error_code_code ok = 0
capture_error_code_code busy = 1
capture_error_code_code timeout = 2
capture_error_code_code res_acquire_failed = 3
capture_error_code_code res_deprived = 4
capture_error_code_code unknown = 0xFF

abbrev pub capture_error_code_members : List CaptureErrorCode
capture_error_code_members =
    CaptureErrorCode.ok ∷ CaptureErrorCode.busy ∷ CaptureErrorCode.timeout
    ∷ CaptureErrorCode.res_acquire_failed ∷ CaptureErrorCode.res_deprived ∷ CaptureErrorCode.unknown
    ∷ []

pub capture_error_code_own :
    (e : CaptureErrorCode)
    → find capture_error_code_code capture_error_code_members (capture_error_code_code e) ≡ some e
capture_error_code_own ok = refl
capture_error_code_own busy = refl
capture_error_code_own timeout = refl
capture_error_code_own res_acquire_failed = refl
capture_error_code_own res_deprived = refl
capture_error_code_own unknown = refl

instance abbrev pub capture_error_code_enum : IntEnum CaptureErrorCode
capture_error_code_enum = record {
  code = capture_error_code_code;
  members = capture_error_code_members;
  own = capture_error_code_own;
}

pub data CaptureState : Type 0 where
  idle : CaptureState
  starting : CaptureState
  recording : CaptureState
  stopping : CaptureState
  done : CaptureState
  failed : CaptureState
  unknown : CaptureState

abbrev pub capture_state_code : CaptureState → ℕ
capture_state_code idle = 0
capture_state_code starting = 1
capture_state_code recording = 2
capture_state_code stopping = 3
capture_state_code done = 4
capture_state_code failed = 6
capture_state_code unknown = 7

abbrev pub capture_state_members : List CaptureState
capture_state_members =
    CaptureState.idle ∷ CaptureState.starting ∷ CaptureState.recording ∷ CaptureState.stopping
    ∷ CaptureState.done ∷ CaptureState.failed ∷ CaptureState.unknown ∷ []

pub capture_state_own :
    (e : CaptureState)
    → find capture_state_code capture_state_members (capture_state_code e) ≡ some e
capture_state_own idle = refl
capture_state_own starting = refl
capture_state_own recording = refl
capture_state_own stopping = refl
capture_state_own done = refl
capture_state_own failed = refl
capture_state_own unknown = refl

instance abbrev pub capture_state_enum : IntEnum CaptureState
capture_state_enum = record {
  code = capture_state_code;
  members = capture_state_members;
  own = capture_state_own;
}

pub data CaptureKind : Type 0 where
  photo : CaptureKind
  video : CaptureKind

abbrev pub capture_kind_code : CaptureKind → ℕ
capture_kind_code photo = 1
capture_kind_code video = 2

abbrev pub capture_kind_members : List CaptureKind
capture_kind_members = CaptureKind.photo ∷ CaptureKind.video ∷ []

pub capture_kind_own :
    (e : CaptureKind) → find capture_kind_code capture_kind_members (capture_kind_code e) ≡ some e
capture_kind_own photo = refl
capture_kind_own video = refl

instance abbrev pub capture_kind_enum : IntEnum CaptureKind
capture_kind_enum = record {
  code = capture_kind_code;
  members = capture_kind_members;
  own = capture_kind_own;
}

pub data CaptureSource : Type 0 where
  none : CaptureSource
  local : CaptureSource
  app : CaptureSource
  ai : CaptureSource
  sdk : CaptureSource

abbrev pub capture_source_code : CaptureSource → ℕ
capture_source_code none = 0
capture_source_code local = 1
capture_source_code app = 2
capture_source_code ai = 3
capture_source_code sdk = 4

abbrev pub capture_source_members : List CaptureSource
capture_source_members =
    CaptureSource.none ∷ CaptureSource.local ∷ CaptureSource.app ∷ CaptureSource.ai
    ∷ CaptureSource.sdk ∷ []

pub capture_source_own :
    (e : CaptureSource)
    → find capture_source_code capture_source_members (capture_source_code e) ≡ some e
capture_source_own none = refl
capture_source_own local = refl
capture_source_own app = refl
capture_source_own ai = refl
capture_source_own sdk = refl

instance abbrev pub capture_source_enum : IntEnum CaptureSource
capture_source_enum = record {
  code = capture_source_code;
  members = capture_source_members;
  own = capture_source_own;
}
