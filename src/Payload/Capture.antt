-- ===== src/Payload/Capture.antt =====
-- `DeviceCaptureState` of looktech_glasses_sdk/protocol.py: the latest photo and video states.
pub mod RoundTrip
use edu_glasses_host.Base.{
  ℕ, ◌+◌, Bool, true, false, not, Option, none, some, List, [], ◌∷◌, ◌==◌, if◌then◌else◌, length,
  Result, ok, err, ◌>>=◌, ◌>>◌, raise_if,
}
use edu_glasses_host.Base.Bytes.{Bytes, byte_at}
use edu_glasses_host.Payload.Codes.{IntEnum, member}
use edu_glasses_host.Payload.Codes.Captures.{
  CaptureKind, CaptureSource, CaptureState, capture_kind_code, capture_source_code,
  capture_state_code, capture_kind_enum, capture_source_enum, capture_state_enum,
}

pub record DeviceCaptureEntry : Type 0 where
  pub kind : CaptureKind
  pub source : CaptureSource
  pub state : CaptureState
  pub error : ℕ

pub record DeviceCaptureState : Type 0 where
  pub photo : DeviceCaptureEntry
  pub video : DeviceCaptureEntry

-- The `ValueError`s.
pub data CaptureError : Type 0 where
  wrong_size : ℕ → CaptureError
  not_a_member : ℕ → CaptureError
  kind_mismatch : CaptureError
  idle_mismatch : CaptureError

abbrev pub member_or : {E : Type 0} → Option E → ℕ → Result CaptureError E
member_or none value = err (not_a_member value)
member_or (some e) value = ok e

abbrev pub differ : Bool → Bool → Bool
differ a b = if a then not b else b

-- One pass of the loop of `parse`.
unfoldable pub parse_entry : Bytes → ℕ → CaptureKind → Result CaptureError DeviceCaptureEntry
parse_entry input offset expected_kind = do
  kind ← member_or (member (byte_at input offset)) (byte_at input offset)
  source ← member_or (member (byte_at input (offset + 1))) (byte_at input (offset + 1))
  state ← member_or (member (byte_at input (offset + 2))) (byte_at input (offset + 2))
  raise_if (not (capture_kind_code kind == capture_kind_code expected_kind)) kind_mismatch
  raise_if
      (differ (capture_source_code source == capture_source_code CaptureSource.none)
        (capture_state_code state == capture_state_code CaptureState.idle))
      idle_mismatch
  ok (record { kind = kind; source = source; state = state; error = byte_at input (offset + 3) })

unfoldable pub parse_capture_state : Bytes → Result CaptureError DeviceCaptureState
unfolding parse_entry
parse_capture_state input = do
  raise_if (not (length input == 8)) (wrong_size (length input))
  photo ← parse_entry input 0 CaptureKind.photo
  video ← parse_entry input 4 CaptureKind.video
  ok (record { photo = photo; video = video })
