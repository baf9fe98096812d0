-- ===== src/Session/Sound/Life.antt =====
-- Connecting, closing and upgrading keep what holds between calls.
use edu_glasses_host.Base.{
  ℕ, ◌≡◌, refl, sym, ap, ◌∙◌, Bool, true, false, not, ◌||◌, ◌==◌, Option, none, some, Result, ok,
  err, arith,
}
use edu_glasses_host.Base.Bytes.{Bytes, to_le}
use edu_glasses_host.Frame.{Frame, proto_version}
use edu_glasses_host.Payload.Codes.Commands.{CommandId, command_id_code}
use edu_glasses_host.Payload.Reply.{HelloAck, parse_hello_ack}
use edu_glasses_host.Client.{Called, ClientError}
use edu_glasses_host.Client.Commands.{greet}
use edu_glasses_host.Ota.Image.{parse_image}
use edu_glasses_host.Session.{
  some_client, client_failed, bad_hello, not_opened, unsupported_version, busy_for_ota,
  ota_unavailable, is_connected, next_of, beside,
}
use edu_glasses_host.Session.State.{Session, return, map_err}
use edu_glasses_host.Session.Triple.{
  Post, Triple, Triple-bind, Triple-raise_if, Triple-modify, Triple-given, Triple-on_error,
  Triple-return, Triple-either, Triple-weaken, Triple-raises, Triple-get, Triple-after,
}
use edu_glasses_host.Session.Stable.{Keeps, poll-Keeps, request-Keeps}
use edu_glasses_host.Session.Sound.{IsSound, IsSound-IsStable, Free, require_connected-Free}
use edu_glasses_host.Session.Sound.Calls.{stopped-IsSound, end_recording-IsSound, Free-kept}
use edu_glasses_host.Session.Life.{
  Channels, attach, forget, new_client, greeted, client_hello, stop_video, stop_audio, detach,
  close, accept_ack, open_channels, connect,
}
use edu_glasses_host.Session.Upgrade.{begin_ota, start_ota, end_ota, to_bad}

module _ (A : HelloAck → Type 0) (o : Bool) where
  stop_video-IsSound :
      (operation : Option ℕ) (s : Session) → IsSound A o s → IsSound A o (stop_video operation s)
  stop_video-IsSound none s h = h
  stop_video-IsSound (some v) s h =
      let tried =
        Triple-after s
          (request-Keeps (IsSound-IsStable A o) (command_id_code CommandId.video_stop) (to_le 4 v))
          h in
      ground (arith, h, tried)

  stop_audio-IsSound : (s : Session) → IsSound A o s → IsSound A o (stop_audio s)
  stop_audio-IsSound s h = ground (
    arith,
    h,
    end_recording-IsSound A o s h,
    end_recording-IsSound A o _ (stopped-IsSound A o s h),
  )

  detach-IsSound : (B : HelloAck → Type 0) (s : Session) → IsSound A o s → IsSound B o (detach s)
  detach-IsSound B s h = record {
    upgrade = h.upgrade;
    no_result = h.no_result;
    exclusive = h.exclusive;
    acknowledged = λ a e. absurd (cc e);
  }

  -- Closing needs nothing of the acknowledgement, which is forgotten.
  pub close-IsSound : (B : HelloAck → Type 0) (s : Session) → IsSound A o s → IsSound B o (close s)
  unfolding close
  close-IsSound B s h =
      detach-IsSound B _ (stop_audio-IsSound _ (stop_video-IsSound s.video_operation s h))

  forget-IsSound : (s : Session) → IsSound A o s → IsSound A o (forget s)
  forget-IsSound s h = record {
    upgrade = h.upgrade;
    no_result = λ e. absurd (cc e);
    exclusive = λ e. ((h.exclusive e).0, refl);
    acknowledged = h.acknowledged;
  }

  attach-IsSound : (ch : Channels) (s : Session) → IsSound A o s → IsSound A o (attach ch s)
  attach-IsSound ch s h = record {
    upgrade = h.upgrade;
    no_result = h.no_result;
    exclusive = h.exclusive;
    acknowledged = λ a e. ((h.acknowledged a e).0, refl);
  }

  abbrev pub WithClient : Session → Type 0
  WithClient s = IsSound A o s × (some_client s.client ≡ true)

  hello-WithClient : Triple (IsSound A o) client_hello (λ _. WithClient) (IsSound A o)
  unfolding client_hello
  hello-WithClient = record {
    runs = λ s h.
        let (a, later) = next_of s.coming in
        go (greet proto_version a.reads new_client) (greet proto_version a.reads new_client).result
          (beside a later s) ((IsSound-IsStable A o).arrives a later s h);
  }
    where
      go :
          (done : Called Frame) (r : Result ClientError Frame) (s : Session)
          → IsSound A o s
          → Post (λ _. WithClient) (IsSound A o) (map_err client_failed r, (greeted done s).1)
      go done (ok f) s h = ((IsSound-IsStable A o).exchanges done.client _ _ s h, refl)
      go done (err e) s h = (IsSound-IsStable A o).exchanges done.client _ _ s h

-- The host's own version.
abbrev pub IsCurrent : HelloAck → Type 0
IsCurrent a = a.proto_ver ≡ 1

abbrev IsAny : HelloAck → Type 0
IsAny a = Unit

module _ (o : Bool) where
  IsAny-IsSound : (A : HelloAck → Type 0) (s : Session) → IsSound A o s → IsSound IsAny o s
  IsAny-IsSound A s h = record {
    upgrade = h.upgrade;
    no_result = h.no_result;
    exclusive = h.exclusive;
    acknowledged = λ a e. (tt, (h.acknowledged a e).1);
  }

  accept_ack-IsSound :
      (ack : HelloAck) (s : Session)
      → WithClient IsCurrent o s
      → IsSound (λ a. ack ≡ a) o (accept_ack ack s)
  accept_ack-IsSound ack s h = record {
    upgrade = h.0.upgrade;
    no_result = h.0.no_result;
    exclusive = h.0.exclusive;
    acknowledged = λ a e. (cc e, h.1);
  }

  IsCurrent-IsSound :
      (ack : HelloAck) (s : Session)
      → IsSound (λ a. ack ≡ a) o s × (not (ack.proto_ver == proto_version) ≡ false)
      → IsSound IsCurrent o s
  IsCurrent-IsSound ack s h = record {
    upgrade = h.0.upgrade;
    no_result = h.0.no_result;
    exclusive = h.0.exclusive;
    acknowledged = λ a e.
        let same = h.0.acknowledged a e in
        let version : ack.proto_ver ≡ 1 = ground (arith, h.1) in
        (ap (λ (x : HelloAck). x.proto_ver) (sym (same.0)) ∙ version, same.1);
  }

  open_channels-IsSound :
      (ch : Channels)
      → Triple (IsSound IsCurrent o) (open_channels ch) (λ _. IsSound IsCurrent o) (IsSound IsAny o)
  unfolding open_channels
  open_channels-IsSound ch =
      Triple-bind (Triple-raise_if (not ch.ctrl) not_opened (IsAny-IsSound IsCurrent)) λ u.
        Triple-bind (Triple-modify (λ s p. attach-IsSound IsCurrent o ch s p.0)) λ v.
          Triple-bind (Triple-raises (IsAny-IsSound IsCurrent) (hello-WithClient IsCurrent o)) λ f.
            Triple-bind
              (Triple-given (map_err bad_hello (parse_hello_ack f.payload)) (λ a s p e. p)
                (λ s p. IsAny-IsSound IsCurrent s p.0))
              λ ack. Triple-bind (Triple-modify (accept_ack-IsSound ack)) λ w.
                Triple-weaken (λ s p. p)
                  (Triple-raise_if (not (ack.proto_ver == proto_version))
                    (unsupported_version ack.proto_ver) (IsAny-IsSound (λ a. ack ≡ a)))
                  (λ x. IsCurrent-IsSound ack)

  pub connect-IsSound : (ch : Channels) → Keeps (IsSound IsCurrent o) (connect ch)
  unfolding connect
  connect-IsSound ch =
      let opened =
        Triple-on_error (λ e. close) (open_channels-IsSound ch)
          (λ e. close-IsSound IsAny o IsCurrent) in
      Triple-either (return tt) _ is_connected (Triple-return tt (λ s h. h))
        (record { runs = λ s h. opened.runs (forget s) (forget-IsSound IsCurrent o s h) })

module _ (A : HelloAck → Type 0) where
  start_ota-IsSound :
      (o : Bool) (s : Session)
      → Free A o s
      → (s.recording || s.photo_pending) ≡ false
      → IsSound A true (start_ota s)
  start_ota-IsSound o s h free = ground (arith, h.0, free)

  pub begin_ota-IsSound :
      (crc32 : Bytes → ℕ) (file : Bytes) (o : Bool)
      → Triple (IsSound A o) (begin_ota crc32 file) (λ _. IsSound A true) (IsSound A o)
  unfolding begin_ota
  begin_ota-IsSound crc32 file o = Triple-bind (require_connected-Free A o) λ u.
      Triple-bind (Free-kept A o (poll-Keeps (IsSound-IsStable A o))) λ events. Triple-get λ t.
        Triple-bind (Triple-raise_if (t.recording || t.photo_pending) busy_for_ota (λ s p. p.0.0))
          λ v. Triple-bind (Triple-raise_if (not t.has_ota) ota_unavailable (λ s p. p.0.0.0)) λ w.
            Triple-bind
              (Triple-given (map_err to_bad (parse_image crc32 file)) (λ a s p e. p)
                (λ s p. p.0.0.0.0))
              λ x. Triple-modify (λ s p. start_ota-IsSound o s p.0.0.0 (free s t p.0.0.1 p.0.1))
    where
      free :
          (s t : Session)
          → s ≡ t
          → (t.recording || t.photo_pending) ≡ false
          → (s.recording || s.photo_pending) ≡ false
      free s t e h = ap (λ (x : Session). x.recording || x.photo_pending) e ∙ h

  pub end_ota-IsSound : (o : Bool) (s : Session) → IsSound A o s → IsSound A false (end_ota s)
  unfolding end_ota
  end_ota-IsSound o s h = ground (arith, h)
