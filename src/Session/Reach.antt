-- ===== src/Session/Reach.antt =====
-- The states that a session goes through, whatever its user calls and whatever arrives.
use edu_glasses_host.Base.{ok, err, ℕ, refl, Bool, true, Option, List}
use edu_glasses_host.Base.Bytes.{Bytes}
use edu_glasses_host.Session.State.{Session, Arrivals, FilePath, new_session}
use edu_glasses_host.Session.{SessionError, poll, wait, request}
use edu_glasses_host.Session.Photo.{trigger_photo, wait_photo}
use edu_glasses_host.Session.Recording.{record_start, record_stop, record_for}
use edu_glasses_host.Session.Life.{Channels, connect, close}
use edu_glasses_host.Session.Upgrade.{begin_ota, end_ota}
use edu_glasses_host.Session.Triple.{Triple-after, Post}
use edu_glasses_host.Session.Stable.{poll-Keeps, wait-Keeps, request-Keeps}
use edu_glasses_host.Session.Sound.{IsSound, IsSound-IsStable}
use edu_glasses_host.Session.Sound.Calls.{
  trigger_photo-IsSound, wait_photo-IsSound, record_start-IsSound, record_stop-IsSound,
  record_for-IsSound,
}
use edu_glasses_host.Session.Sound.Life.{
  IsCurrent, connect-IsSound, close-IsSound, begin_ota-IsSound, end_ota-IsSound,
}

module _ (crc32 : Bytes → ℕ) where
  -- A call, whether it returns or raises. An upgrade is two steps, since callbacks may call between
  -- them; every command of the device is a request; `notes_video` is the assignment to
  -- `_video_operation` in capture.py.
  pub data Step : Session → Session → Type 0 where
    connects : (ch : Channels) (s : Session) → Step s (connect ch s).1
    closes : (s : Session) → Step s (close s)
    polled : (s : Session) → Step s (poll {E = SessionError} s).1
    waits : (n : ℕ) (s : Session) → Step s (wait n s).1
    requests : (command : ℕ) (args : Bytes) (s : Session) → Step s (request command args s).1
    triggers : (filename : Option FilePath) (s : Session) → Step s (trigger_photo filename s).1
    awaits : (n : ℕ) (s : Session) → Step s (wait_photo n s).1
    starts : (opens : Bool) (s : Session) → Step s (record_start opens s).1
    stops : (s : Session) → Step s (record_stop s).1
    records : (opens : Bool) (n : ℕ) (s : Session) → Step s (record_for opens n s).1
    upgrades : (file : Bytes) (s : Session) → Step s (begin_ota crc32 file s).1
    upgraded : (s : Session) → Step s (end_ota s)
    notes_video :
        (operation : Option ℕ) (s : Session) → Step s (record s { video_operation = operation })

  pub data Reach (s : Session) : Session → Type 0 where
    here : Reach s s
    next : {t u : Session} → Reach s t → Step t u → Reach s u

  -- What holds of a session, with the upgrade it is in.
  abbrev pub Holds : Session → Type 0
  Holds s = IsSound IsCurrent s.ota_running s

  -- The flag is as it was, or it is the one known.
  settle : (o : Bool) (s : Session) → IsSound IsCurrent o s → Holds s
  settle o s h = record {
    upgrade = refl;
    no_result = h.no_result;
    exclusive = λ e. h.exclusive (cc (e, h.upgrade));
    acknowledged = h.acknowledged;
  }

  begun :
      (o : Bool) (r : _ × Session)
      → Post {E = SessionError} {A = Unit {0}} (λ _. IsSound IsCurrent true) (IsSound IsCurrent o) r
      → Holds r.1
  begun o (ok u, s) h = settle true s h
  begun o (err e, s) h = settle o s h

  Step-Holds : {s t : Session} → Step s t → Holds s → Holds t
  Step-Holds (connects ch s) h = settle _ _ (Triple-after s (connect-IsSound _ ch) h)
  Step-Holds (closes s) h = settle _ _ (close-IsSound IsCurrent _ IsCurrent s h)
  Step-Holds (polled s) h =
      settle _ _ (Triple-after s (poll-Keeps (IsSound-IsStable IsCurrent s.ota_running)) h)
  Step-Holds (waits n s) h =
      settle _ _ (Triple-after s (wait-Keeps (IsSound-IsStable IsCurrent s.ota_running) n) h)
  Step-Holds (requests command args s) h =
      settle _ _
        (Triple-after s (request-Keeps (IsSound-IsStable IsCurrent s.ota_running) command args) h)
  Step-Holds (triggers filename s) h =
      settle _ _ (Triple-after s (trigger_photo-IsSound IsCurrent _ filename) h)
  Step-Holds (awaits n s) h = settle _ _ (Triple-after s (wait_photo-IsSound IsCurrent _ n) h)
  Step-Holds (starts opens s) h =
      settle _ _ (Triple-after s (record_start-IsSound IsCurrent _ opens) h)
  Step-Holds (stops s) h = settle _ _ (Triple-after s (record_stop-IsSound IsCurrent _) h)
  Step-Holds (records opens n s) h =
      settle _ _ (Triple-after s (record_for-IsSound IsCurrent _ opens n) h)
  Step-Holds (upgrades file s) h =
      begun _ _ ((begin_ota-IsSound IsCurrent crc32 file s.ota_running).runs s h)
  Step-Holds (upgraded s) h = settle _ _ (end_ota-IsSound IsCurrent _ s h)
  Step-Holds (notes_video operation s) h = record {
    upgrade = refl;
    no_result = h.no_result;
    exclusive = h.exclusive;
    acknowledged = h.acknowledged;
  }

  -- Whatever is called on a new session and whatever arrives: a pending photo has no result yet;
  -- while an upgrade runs there is no recording and no pending photo; and where there is an
  -- acknowledgement there is a client, and the version is the host's own.
  pub Reach-IsSound :
      (coming : List Arrivals) {s : Session}
      → Reach (new_session coming) s
      → IsSound IsCurrent s.ota_running s
  unfolding new_session
  Reach-IsSound coming here = record {
    upgrade = refl;
    no_result = λ e. absurd (cc e);
    exclusive = λ e. absurd (cc e);
    acknowledged = λ a e. absurd (cc e);
  }
  Reach-IsSound coming (next r st) = Step-Holds st (Reach-IsSound coming r)
