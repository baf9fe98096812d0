-- ===== src/Session/Recording/Ends.antt =====
-- A recording is on exactly between a start that succeeds and a stop.
use edu_glasses_host.Base.{
  ℕ, ◌≡◌, refl, Bool, Bool-cases, ◌⊎◌, inl, inr, true, false, not, ◌==◌, Result, ok, err, [], arith,
}
use edu_glasses_host.Payload.Codes.Commands.{CommandId, command_id_code}
use edu_glasses_host.Session.{
  SessionError, is_connected, require_connected, wait, already_recording, no_recording,
  no_usable_audio, audio_not_started,
}
use edu_glasses_host.Session.State.{Session, Op, ◌>>◌}
use edu_glasses_host.Session.Triple.{
  Post, Triple, Triple-bind, Triple-raise_if, Triple-guard, Triple-modify, Triple-return,
  Triple-on_error, Triple-weaken, Triple-raises, Triple-get,
}
use edu_glasses_host.Session.Stable.{
  IsStable, Flags-IsStable, wait-Keeps, request-Keeps, require-Connected,
}
use edu_glasses_host.Session.Recording.{
  end_recording, undo_start, audio_stop, record_start, record_stop, record_for, finally_end,
  then_stop,
}

abbrev Idle : Session → Type 0
Idle s = s.recording ≡ false

-- Recording, while no upgrade runs.
abbrev Busy : Session → Type 0
Busy s = (s.recording ≡ true) × (s.ota_running ≡ false)

abbrev idle-IsStable : IsStable Idle
idle-IsStable = Flags-IsStable (λ r o. r ≡ false)

abbrev busy-IsStable : IsStable Busy
busy-IsStable = Flags-IsStable (λ r o. (r ≡ true) × (o ≡ false))

undo_start-Idle : (e : SessionError) (s : Session) → Idle (undo_start e s)
undo_start-Idle e s = ground arith

-- A start that raises leaves no recording behind, one that returns has started it.
record_start-Busy : (starts : Bool) → Triple Idle (record_start starts) (λ _. Busy) Idle
unfolding record_start
record_start-Busy starts = Triple-get λ t.
    Triple-bind
      (Triple-weaken (λ s p. p.0) (require-Connected idle-IsStable _ t.has_audio) (λ a s q. q))
      λ u. Triple-bind (Triple-raise_if t.recording already_recording (λ s p. p.0)) λ v.
        Triple-bind (Triple-raise_if (not starts) audio_not_started (λ s p. p.0.0)) λ w.
          Triple-bind (Triple-modify (λ s p. (refl, p.0.0.1.1))) λ x.
            Triple-bind
              (Triple-on_error undo_start
                (request-Keeps busy-IsStable (command_id_code CommandId.audio_start) [])
                (λ e s p. undo_start-Idle e s))
              λ y. Triple-return tt (λ s h. h)

-- The connection is gone where a stop leaves the recording on.
abbrev Lost : Session → Type 0
Lost s = s.recording ≡ true → is_connected s ≡ false

finally_end-Idle :
    {B : Type 0} (m : Op SessionError B) (P : Session → Type 0)
    → Triple P (finally_end m) (λ _. Idle) Idle
finally_end-Idle {B} m P = record { runs = λ s p. go (m s) }
  where
    go : (r : Result SessionError B × Session) → Post (λ _. Idle) Idle (r.0, end_recording r.1)
    go (ok a, s) = refl
    go (err e, s) = refl

idle-Lost : (s : Session) → Idle s → Lost s
idle-Lost s h e = cc (h, e)

connected-Busy : Triple Busy require_connected (λ _. Busy) Lost
unfolding require_connected
connected-Busy = record { runs = λ s h. ground arith }

record_stop-Idle : Triple Busy record_stop (λ _. Idle) Lost
unfolding record_stop
record_stop-Idle = Triple-bind connected-Busy λ u. Triple-get λ t.
    Triple-bind (Triple-guard (not t.recording) no_recording (λ s p e. still s t p.0 p.1 e)) λ v.
      Triple-bind (Triple-raises idle-Lost (finally_end-Idle (audio_stop >> wait 2) _)) λ w.
        Triple-get λ t'.
          Triple-bind
            (Triple-raise_if (t'.frames_written == 0) no_usable_audio (λ s p. idle-Lost s p.0))
            λ x. Triple-return t'.frames_written (λ s p. p.0.0)
  where
    still : (s t : Session) → Busy s → s ≡ t → not t.recording ≡ true → Lost s
    still s t b same e = absurd (cc (b.0, same, e))

then_stop-Lost :
    {A : Type 0} (r : Result SessionError A × Session)
    → Post (λ _. Busy) Busy r
    → Post (λ _. Idle) Lost (then_stop r)
then_stop-Lost (ok a, s) q = record_stop-Idle.runs s q
then_stop-Lost (err e, s) q =
    (Triple-bind record_stop-Idle (λ n. record { runs = idle-Lost })).runs s q

record_for-Idle : (starts : Bool) (n : ℕ) → Triple Idle (record_for starts n) (λ _. Idle) Lost
unfolding record_for
record_for-Idle starts n =
    Triple-bind (Triple-raises idle-Lost (record_start-Busy starts)) λ u. record {
      runs = λ s p. then_stop-Lost (wait n s) ((wait-Keeps busy-IsStable n).runs s p);
    }

-- What is known after a call, from the two conditions.
after :
    {A : Type 0} (r : Result SessionError A × Session)
    → Post (λ _. Idle) Lost r
    → (r.1.recording ≡ false) ⊎ (is_connected r.1 ≡ false)
after (ok a, s) h = inl h
after (err e, s) h = elim (Bool-cases s.recording) [ inl on ↦ inr (h on) | inr off ↦ inl off ]

-- Whatever happens during `record` of a session that is not recording, errors included, no recording
-- is on when it is over, unless the connection is gone.
pub record_for-ends :
    (starts : Bool) (n : ℕ) (s : Session)
    → s.recording ≡ false
    → let t = (record_for starts n s).1 in (t.recording ≡ false) ⊎ (is_connected t ≡ false)
record_for-ends starts n s h = after (record_for starts n s) ((record_for-Idle starts n).runs s h)

-- A start that raises leaves no recording on, and one that returns has switched it on.
pub record_start-switches :
    (starts : Bool) (s : Session)
    → s.recording ≡ false
    → Post (λ _ t. t.recording ≡ true) (λ t. t.recording ≡ false) (record_start starts s)
record_start-switches starts s h =
    (Triple-weaken (λ s h. h) (record_start-Busy starts) (λ a s h. h.0)).runs s h
