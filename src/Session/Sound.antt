-- ===== src/Session/Sound.antt =====
-- What holds of a session between two calls, and that it is stable.
pub mod Calls
pub mod Life
use edu_glasses_host.Base.{ℕ, ◌≡◌, refl, Bool, true, false, some, none, List, [], ◌∷◌, arith}
use edu_glasses_host.Base.Bytes.{Bytes}
use edu_glasses_host.Payload.Event.{GlassesEvent}
use edu_glasses_host.Payload.Reply.{HelloAck}
use edu_glasses_host.Session.State.{Session, Op}
use edu_glasses_host.Session.{some_client, require_connected, require, take_event}
use edu_glasses_host.Session.Triple.{Triple, Triple-weaken}
use edu_glasses_host.Session.Stable.{
  IsStable, Keeps, Connected, require_connected-Connected, require-Connected,
}

-- While a photo is pending there is no photo and no error; while an upgrade runs there is no
-- recording and no pending photo; an acknowledgement is there only with a client, and is one of `A`.
pub record IsSound (A : HelloAck → Type 0) (o : Bool) (s : Session) : Type 0 where
  pub upgrade : s.ota_running ≡ o
  pub no_result : s.photo_pending ≡ true → (s.completed_photo ≡ none) × (s.photo_error ≡ none)
  pub exclusive : o ≡ true → (s.recording ≡ false) × (s.photo_pending ≡ false)
  pub acknowledged : (a : HelloAck) → s.hello_ack ≡ some a → A a × (some_client s.client ≡ true)

module _ (A : HelloAck → Type 0) (o : Bool) where
  take_event-IsSound :
      (event : GlassesEvent) (s : Session) → IsSound A o s → IsSound A o (take_event event s)
  take_event-IsSound event s h = ground (arith, h)

  pub IsSound-IsStable : IsStable (IsSound A o)
  IsSound-IsStable = record {
    arrives = λ a later s h. record {
      upgrade = h.upgrade;
      no_result = h.no_result;
      exclusive = h.exclusive;
      acknowledged = h.acknowledged;
    };
    exchanges = λ c events sent s h. record {
      upgrade = h.upgrade;
      no_result = h.no_result;
      exclusive = h.exclusive;
      acknowledged = λ a e. ((h.acknowledged a e).0, refl);
    };
    notes = take_event-IsSound;
    empties = λ s h. record {
      upgrade = h.upgrade;
      no_result = h.no_result;
      exclusive = h.exclusive;
      acknowledged = h.acknowledged;
    };
    saves = λ path s h. record {
      upgrade = h.upgrade;
      no_result = λ e. absurd (cc e);
      exclusive = λ e. ((h.exclusive e).0, refl);
      acknowledged = h.acknowledged;
    };
    clears = λ s h. record {
      upgrade = h.upgrade;
      no_result = h.no_result;
      exclusive = h.exclusive;
      acknowledged = h.acknowledged;
    };
  }

  -- What is known once a method has found the session connected.
  abbrev pub Free : Session → Type 0
  Free s = IsSound A o s × (o ≡ false)

  free : (s : Session) → Connected IsSound-IsStable s → Free s
  free s h = ground (arith, h.0.upgrade, h.1.1, h.0)

  pub require_connected-Free : Triple (IsSound A o) require_connected (λ _. Free) (IsSound A o)
  require_connected-Free =
      Triple-weaken (λ s h. h) (require_connected-Connected IsSound-IsStable) (λ a. free)

  pub require-Free :
      (caps : ℕ) (channel : Bool)
      → Triple (IsSound A o) (require caps channel) (λ _. Free) (IsSound A o)
  require-Free caps channel =
      Triple-weaken (λ s h. h) (require-Connected IsSound-IsStable caps channel) (λ a. free)
