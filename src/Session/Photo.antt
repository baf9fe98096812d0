-- ===== src/Session/Photo.antt =====
-- Photos in looktech_glasses_sdk/session.py: `trigger_photo`, `wait_photo`, `photo`.
pub mod Waits
use edu_glasses_host.Base.{
  ℕ, zero, suc, Bool, true, false, Option, none, some, Result, ok, err, List, [], ◌∷◌,
}
use edu_glasses_host.Base.Bits.{shl}
use edu_glasses_host.Payload.Codes.Commands.{CommandId, command_id_code}
use edu_glasses_host.Client.{Response, timed_out}
use edu_glasses_host.Session.{
  SessionError, client_failed, photo_already_pending, photo_timed_out, photo_failed,
  require_connected, require, poll, request,
}
use edu_glasses_host.Session.State.{
  Session, Op, FilePath, return, raise, ◌>>=◌, ◌>>◌, get, modify, raise_if, on_error,
}

abbrev pub cap_photo : ℕ
cap_photo = shl 1 1

abbrev pub begin_photo : Option FilePath → Session → Session
begin_photo filename s = record s {
  completed_photo = none;
  photo_error = none;
  photo_pending = true;
  next_photo_path = filename;
}

-- After a timeout the capture may have started; after another error it has not.
abbrev pub keep_or_clear : SessionError → Session → Session
keep_or_clear (client_failed timed_out) s = s
keep_or_clear _ s = record s { photo_pending = false; next_photo_path = none }

unfoldable pub trigger_photo : Option FilePath → Op SessionError Response
trigger_photo filename = do
  s ← get
  require cap_photo s.has_image
  poll
  s ← get
  raise_if s.photo_pending photo_already_pending
  modify (begin_photo filename)
  on_error (request (command_id_code CommandId.take_photo) []) keep_or_clear

-- What one pass of `wait_photo` finds after its first poll.
abbrev pub settled : Session → Option (Result SessionError FilePath)
settled s = elim s.completed_photo [
  | some path ↦ some (ok path)
  | none ↦ elim s.photo_error [ some e ↦ some (err (photo_failed e)) | none ↦ none ]
]

abbrev pub settle_or :
    Option (Result SessionError FilePath) → Op SessionError FilePath → Op SessionError FilePath
settle_or none next s = next s
settle_or (some r) next s = (r, s)

-- The loop of `wait_photo`, with the passes that start before the deadline.
unfoldable pub photo_loop : ℕ → Op SessionError FilePath
photo_loop zero = do poll; s ← get; settle_or (settled s) (raise photo_timed_out)
photo_loop (suc n) = do poll; s ← get; settle_or (settled s) (poll >> photo_loop n)

unfoldable pub wait_photo : ℕ → Op SessionError FilePath
wait_photo n = require_connected >> photo_loop n

-- `photo`
unfoldable pub take_photo : Option FilePath → ℕ → Op SessionError FilePath
take_photo filename n = trigger_photo filename >> wait_photo n
