-- ===== src/Capture/Settled.antt =====
-- A capture is over when the client says so.
use edu_glasses_host.Base.{ℕ, ◌≡◌, Bool, true, Option, none, some, length, ok, ◌⊎◌}
use edu_glasses_host.Base.Bytes.{Bytes, byte_at, le_at, to_le}
use edu_glasses_host.Payload.Codes.Captures.{CaptureState, capture_state_code}
use edu_glasses_host.Session.{request}
use edu_glasses_host.Session
use edu_glasses_host.Client.{Response}
use edu_glasses_host.Session.State.{Session, given}
use edu_glasses_host.Session.Yields.{Yields}
use edu_glasses_host.Capture.{CaptureResult, CaptureFailure, capture_failed, or_bad_value}

-- The bytes of a status answer that tells a result of an operation.
pub record Tells (content : Bytes) (operation : ℕ) (r : CaptureResult) : Type 0 where
  pub size : length content ≡ 7
  pub is_of : (le_at 4 content 0 ≡ operation) × (r.operation_id ≡ operation)
  pub kind_told : byte_at content 4 ≡ r.kind
  pub state_told : byte_at content 5 ≡ capture_state_code r.state
  pub error_told : byte_at content 6 ≡ r.error

-- The result is what the device answered to MEDIA_STATUS for its operation, at some time.
pub record IsTold (operation : ℕ) (r : CaptureResult) : Type 0 where
  pub asked : Session
  pub answer : Response
  pub answered : (request 0x24 (to_le 4 operation) asked).0 ≡ ok answer
  pub tells : Tells answer.content operation r

-- The same of the result's own operation.
abbrev pub Told : CaptureResult → Type 0
Told r = IsTold r.operation_id r

-- A capture that is reported failed is one of which the device said so.
abbrev pub IsFailed : CaptureFailure → Type 0
IsFailed (capture_failed r) =
    Told r × ((r.state ≡ CaptureState.failed) ⊎ (r.state ≡ CaptureState.unknown))
IsFailed _ = Unit

abbrev pub IsDone : CaptureResult → Type 0
IsDone r = Told r × (r.state ≡ CaptureState.done)

abbrev pub IsStarted : CaptureResult → Type 0
IsStarted r = Told r × ((r.state ≡ CaptureState.done) ⊎ (r.state ≡ CaptureState.recording))

-- The answer to a request, and the session that asked.
abbrev Answered : ℕ → Bytes → Response → Type 0
Answered command args response = (s : Session) × ((request command args s).0 ≡ ok response)

bad_value-IsFailed :
    {E : Type 0} (o : Option E) → Yields (given (or_bad_value o)) (λ _. Unit {0}) IsFailed
bad_value-IsFailed none = record { yields = λ s. tt }
bad_value-IsFailed (some e) = record { yields = λ s. tt }

-- What a settled pass gives, for captures that may be only started.
abbrev Over : Bool → CaptureResult → Type 0
Over started r =
    (r.state ≡ CaptureState.done) ⊎ ((started ≡ true) × (r.state ≡ CaptureState.recording))
