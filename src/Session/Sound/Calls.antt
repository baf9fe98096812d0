-- ===== src/Session/Sound/Calls.antt =====
-- The photo and the recording methods keep what holds between calls.
use edu_glasses_host.Base.{
  ℕ, zero, [], ◌==◌, suc, ◌≡◌, Bool, false, not, Option, none, some, Result, ok, err, arith,
}
use edu_glasses_host.Payload.Codes.Commands.{CommandId, command_id_code}
use edu_glasses_host.Payload.Reply.{HelloAck}
use edu_glasses_host.Session.{
  SessionError, photo_already_pending, already_recording, no_recording, no_usable_audio,
  audio_not_started, wait,
}
use edu_glasses_host.Session.State.{Session, Op, FilePath}
use edu_glasses_host.Session.Triple.{
  Post, Triple, Triple-bind, Triple-raise_if, Triple-modify, Triple-return, Triple-on_error,
  Triple-weaken, Triple-get, Triple-after,
}
use edu_glasses_host.Session.Stable.{
  IsStable, Keeps, poll-Keeps, wait-Keeps, request-Keeps, require_connected-Keeps,
}
use edu_glasses_host.Session.Sound.{IsSound, IsSound-IsStable, Free, require-Free}
use edu_glasses_host.Session.Photo.{
  trigger_photo, begin_photo, keep_or_clear, photo_loop, wait_photo, settled, settle_or,
}
use edu_glasses_host.Session.Recording.{
  begin_recording, record_start, record_stop, record_for, end_recording, undo_start, finally_end,
  then_stop, audio_stop,
}

module _ (A : HelloAck → Type 0) (o : Bool) where
  abbrev Sound : Session → Type 0
  Sound = IsSound A o

  abbrev stable : IsStable Sound
  stable = IsSound-IsStable A o

  -- A method that keeps it and is called when the session is known to be connected.
  pub Free-kept :
      {E B : Type 0} {m : Op E B} → Keeps Sound m → Triple (Free A o) m (λ _. Free A o) Sound
  Free-kept h = record { runs = λ s p. go _ p.1 (h.runs s p.0) }
    where
      go :
          {E B : Type 0} (r : Result E B × Session)
          → o ≡ false
          → Post (λ _. Sound) Sound r
          → Post (λ _. Free A o) Sound r
      go (ok a, s) e q = (q, e)
      go (err x, s) e q = q

  cleared-IsSound : (e : SessionError) (s : Session) → Sound s → Sound (keep_or_clear e s)
  cleared-IsSound e s h = ground (arith, h)

  begun-IsSound :
      (filename : Option FilePath) (s : Session) → Free A o s → Sound (begin_photo filename s)
  begun-IsSound filename s h = ground (arith, h.0, h.1)

  pub trigger_photo-IsSound : (filename : Option FilePath) → Keeps Sound (trigger_photo filename)
  unfolding trigger_photo
  trigger_photo-IsSound filename = Triple-get λ t.
      Triple-bind (Triple-weaken (λ s p. p.0) (require-Free A o _ _) (λ a s q. q)) λ u.
        Triple-bind (Free-kept (poll-Keeps stable)) λ events. Triple-get λ t'.
          Triple-bind (Triple-raise_if t'.photo_pending photo_already_pending (λ s p. p.0.0)) λ v.
            Triple-bind (Triple-modify (λ s p. begun-IsSound filename s p.0.0)) λ w.
              Triple-on_error keep_or_clear
                (request-Keeps stable (command_id_code CommandId.take_photo) []) cleared-IsSound

  settle_or-IsSound :
      {P : Session → Type 0} (found : Option (Result SessionError FilePath))
      (m : Op SessionError FilePath)
      → Keeps Sound m
      → ((s : Session) → P s → Sound s)
      → Triple P (settle_or found m) (λ _. Sound) Sound
  settle_or-IsSound none m h k = record { runs = λ s p. h.runs s (k s p) }
  settle_or-IsSound (some (ok path)) m h k = record { runs = k }
  settle_or-IsSound (some (err e)) m h k = record { runs = k }

  photo_loop-IsSound : (n : ℕ) → Keeps Sound (photo_loop n)
  unfolding photo_loop
  photo_loop-IsSound zero = Triple-bind (poll-Keeps stable) λ events.
      Triple-get λ t. settle_or-IsSound (settled t) _ (record { runs = λ s h. h }) (λ s p. p.0)
  photo_loop-IsSound (suc n) = Triple-bind (poll-Keeps stable) λ events. Triple-get λ t.
      settle_or-IsSound (settled t) _
        (Triple-bind (poll-Keeps stable) (λ more. photo_loop-IsSound n)) (λ s p. p.0)

  pub wait_photo-IsSound : (n : ℕ) → Keeps Sound (wait_photo n)
  unfolding wait_photo
  wait_photo-IsSound n = Triple-bind (require_connected-Keeps stable) (λ u. photo_loop-IsSound n)

  pub end_recording-IsSound : (s : Session) → Sound s → Sound (end_recording s)
  end_recording-IsSound s h = ground (arith, h)

  audio_stop-IsSound : Keeps Sound audio_stop
  audio_stop-IsSound = request-Keeps stable (command_id_code CommandId.audio_stop) []

  pub stopped-IsSound : (s : Session) → Sound s → Sound (audio_stop s).1
  stopped-IsSound s h = Triple-after s audio_stop-IsSound h

  undo_start-IsSound : (e : SessionError) (s : Session) → Sound s → Sound (undo_start e s)
  undo_start-IsSound e s h =
      ground (arith, h, end_recording-IsSound s h, end_recording-IsSound _ (stopped-IsSound s h))

  begun_recording-IsSound : (s : Session) → Free A o s → Sound (begin_recording s)
  begun_recording-IsSound s h = ground (arith, h.0, h.1)

  pub record_start-IsSound : (starts : Bool) → Keeps Sound (record_start starts)
  unfolding record_start
  record_start-IsSound starts = Triple-get λ t.
      Triple-bind (Triple-weaken (λ s p. p.0) (require-Free A o _ _) (λ a s q. q)) λ u.
        Triple-bind (Triple-raise_if t.recording already_recording (λ s p. p.0)) λ v.
          Triple-bind (Triple-raise_if (not starts) audio_not_started (λ s p. p.0.0)) λ w.
            Triple-bind (Triple-modify (λ s p. begun_recording-IsSound s p.0.0)) λ x.
              Triple-bind
                (Triple-on_error undo_start
                  (request-Keeps stable (command_id_code CommandId.audio_start) [])
                  undo_start-IsSound)
                λ y. Triple-return tt (λ s h. h)

  finally_end-IsSound :
      {B : Type 0} {m : Op SessionError B} → Keeps Sound m → Keeps Sound (finally_end m)
  finally_end-IsSound {B} {m} h = record { runs = λ s p. go (m s) (h.runs s p) }
    where
      go :
          (r : Result SessionError B × Session)
          → Post (λ _. Sound) Sound r
          → Post (λ _. Sound) Sound (r.0, end_recording r.1)
      go (ok a, s) q = end_recording-IsSound s q
      go (err e, s) q = end_recording-IsSound s q

  pub record_stop-IsSound : Keeps Sound record_stop
  unfolding record_stop
  record_stop-IsSound = Triple-bind (require_connected-Keeps stable) λ u. Triple-get λ t.
      Triple-bind (Triple-raise_if (not t.recording) no_recording (λ s p. p.0)) λ v.
        Triple-bind
          (Triple-weaken (λ s p. p.0.0)
            (finally_end-IsSound (Triple-bind audio_stop-IsSound (λ r. wait-Keeps stable 2)))
            (λ a s q. q))
          λ w. Triple-get λ t'.
            Triple-bind (Triple-raise_if (t'.frames_written == 0) no_usable_audio (λ s p. p.0))
              λ x. Triple-return t'.frames_written (λ s p. p.0.0)

  then_stop-IsSound :
      {B : Type 0} (r : Result SessionError B × Session)
      → Post (λ _. Sound) Sound r
      → Post (λ _. Sound) Sound (then_stop r)
  then_stop-IsSound (ok a, s) q = record_stop-IsSound.runs s q
  then_stop-IsSound (err e, s) q =
      (Triple-bind record_stop-IsSound (λ n. record { runs = λ t p. p })).runs s q

  pub record_for-IsSound : (starts : Bool) (n : ℕ) → Keeps Sound (record_for starts n)
  unfolding record_for
  record_for-IsSound starts n =
      Triple-bind (record_start-IsSound starts)
        λ u. record { runs = λ s p. then_stop-IsSound (wait n s) ((wait-Keeps stable n).runs s p) }
