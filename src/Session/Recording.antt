-- ===== src/Session/Recording.antt =====
-- Recordings in looktech_glasses_sdk/session.py: `record_start`, `record_stop`, `record`. The audio
-- client is `AudioStreamClient`, of which the session sees whether it starts, and how many frames it
-- has written when it stops.
pub mod Ends
use edu_glasses_host.Base.{
  ℕ, Bool, true, false, not, Option, none, some, Result, ok, err, List, [], ◌∷◌, ◌==◌,
}
use edu_glasses_host.Base.Bits.{shl}
use edu_glasses_host.Payload.Codes.Commands.{CommandId, command_id_code}
use edu_glasses_host.Client.{Response, timed_out}
use edu_glasses_host.Session.{
  SessionError, client_failed, already_recording, no_recording, no_usable_audio, audio_not_started,
  require_connected, require, request, wait,
}
use edu_glasses_host.Session.State.{
  Session, Op, return, raise, ◌>>=◌, ◌>>◌, get, modify, raise_if, on_error,
}

abbrev pub cap_audio_stream : ℕ
cap_audio_stream = shl 1 0

abbrev pub audio_start : Op SessionError Response
audio_start = request (command_id_code CommandId.audio_start) []

abbrev pub audio_stop : Op SessionError Response
audio_stop = request (command_id_code CommandId.audio_stop) []

abbrev pub begin_recording : Session → Session
begin_recording s = record s { recording = true; frames_written = 0 }

abbrev pub end_recording : Session → Session
end_recording s = record s { recording = false }

-- After a timeout the device may be recording, so it is told to stop, with or without success.
abbrev pub undo_start : SessionError → Session → Session
undo_start (client_failed timed_out) s = end_recording (audio_stop s).1
undo_start _ s = end_recording s

-- `record_start`, where `starts` is whether the audio client opens its file and its channel.
unfoldable pub record_start : Bool → Op SessionError (Unit {0})
record_start starts = do
  s ← get
  require cap_audio_stream s.has_audio
  raise_if s.recording already_recording
  raise_if (not starts) audio_not_started
  modify begin_recording
  on_error audio_start undo_start
  return tt

-- `finally`: the recording ends, whatever came before.
abbrev pub finally_end : {A : Type 0} → Op SessionError A → Op SessionError A
finally_end m s = let (r, s') = m s in (r, end_recording s')

-- `record_stop`: the number of frames written. The wait of 0.1 s is two polls of 0.05 s.
unfoldable pub record_stop : Op SessionError ℕ
record_stop = do
  require_connected
  s ← get
  raise_if (not s.recording) no_recording
  finally_end (audio_stop >> wait 2)
  s ← get
  raise_if (s.frames_written == 0) no_usable_audio
  return s.frames_written

-- `finally` with a call that may raise: its exception comes instead.
abbrev pub then_stop :
    {A : Type 0} → Result SessionError A × Session → Result SessionError ℕ × Session
then_stop (ok a, s) = record_stop s
then_stop (err e, s) = (record_stop >> raise e) s

-- `record`
unfoldable pub record_for : Bool → ℕ → Op SessionError ℕ
record_for starts n = record_start starts >> (λ s. then_stop (wait n s))
