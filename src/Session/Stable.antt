-- ===== src/Session/Stable.antt =====
-- What the basic methods do not touch: a condition that arrivals and the two loops of `poll` keep is
-- kept by every wait and every request.
use edu_glasses_host.Base.{
  ℕ, zero, suc, ◌≡◌, Bool, true, false, not, ◌&&◌, Option, none, some, List, [], ◌∷◌, ◌==◌, Result,
  ok, err, arith,
}
use edu_glasses_host.Base.Bytes.{Bytes}
use edu_glasses_host.Payload.Event.{GlassesEvent}
use edu_glasses_host.Payload.Codes.Commands.{Status, status_code}
use edu_glasses_host.Client
use edu_glasses_host.Client.{GlassesClient, Called, Response, ClientError}
use edu_glasses_host.Session.State.{Arrivals, Session, Op, FilePath, map_err}
use edu_glasses_host.Session.{
  client_failed, wrong_command, refused, called, is_connected, require_connected, supports, require,
  next_of, told_to, beside, receive, take_event, note_failure, is_photo_failure, take_events,
  take_images, poll, polls, wait, request_on, client_request, request,
}
use edu_glasses_host.Session.Triple.{
  Post, Triple, Triple-bind, Triple-raise_if, Triple-return, Triple-weaken,
}

pub record IsStable (K : Session → Type 0) : Type 0 where
  pub arrives : (a : Arrivals) (later : List Arrivals) (s : Session) → K s → K (beside a later s)
  pub exchanges :
      (c : GlassesClient) (events : List GlassesEvent) (sent : Bytes) (s : Session)
      → K s
      → K (record s { client = some c; incoming = events; sent = sent })
  pub notes : (event : GlassesEvent) (s : Session) → K s → K (take_event event s)
  pub empties : (s : Session) → K s → K (record s { incoming = [] })
  pub saves :
      (path : FilePath) (s : Session)
      → K s
      → K (record s { completed_photo = some path; photo_pending = false })
  pub clears : (s : Session) → K s → K (record s { images = [] })

-- The two flags are the session's own: nothing that arrives changes them.
module _ (F : Bool → Bool → Type 0) where
  abbrev pub Flags : Session → Type 0
  Flags s = F s.recording s.ota_running

  note-Flags : (event : GlassesEvent) (s : Session) → Flags s → Flags (take_event event s)
  note-Flags event s h = go (s.photo_pending && is_photo_failure event)
    where
      go : (c : Bool) → Flags (note_failure c event s)
      go true = h
      go false = h

  pub Flags-IsStable : IsStable Flags
  Flags-IsStable = record {
    arrives = λ a later s h. h;
    exchanges = λ c events sent s h. h;
    notes = note-Flags;
    empties = λ s h. h;
    saves = λ path s h. h;
    clears = λ s h. h;
  }

-- A method that keeps a condition, whether it returns or raises.
abbrev pub Keeps : (Session → Type 0) → {E B : Type 0} → Op E B → Type 0
Keeps K m = Triple K m (λ _. K) K

module _ {K : Session → Type 0} (k : IsStable K) where
  told_to-Keeps :
      (c : Option GlassesClient) (reads : List Bytes) (s : Session) → K s → K (told_to c reads s)
  told_to-Keeps none reads s h = h
  told_to-Keeps (some c) reads s h = k.exchanges _ _ s.sent s h

  take_events-Keeps : (events : List GlassesEvent) (s : Session) → K s → K (take_events events s)
  unfolding take_events
  take_events-Keeps [] s h = k.empties s h
  take_events-Keeps (event ∷ events) s h =
      take_events-Keeps events (take_event event s) (k.notes event s h)

  take_images-Keeps : (paths : List FilePath) (s : Session) → K s → K (take_images paths s)
  unfolding take_images
  take_images-Keeps [] s h = k.clears s h
  take_images-Keeps (path ∷ paths) s h = take_images-Keeps paths _ (k.saves path s h)

  receive-Keeps : (s : Session) → K s → K (receive s)
  unfolding receive
  receive-Keeps s h =
      told_to-Keeps s.client _ _ (k.arrives (next_of s.coming).0 (next_of s.coming).1 s h)

  pub poll-Keeps : {E : Type 0} → Keeps K (poll {E = E})
  unfolding poll
  poll-Keeps = record {
    runs = λ s h.
        let noted = take_events-Keeps (receive s).incoming (receive s) (receive-Keeps s h) in
        take_images-Keeps _ _ noted;
  }

  pub polls-Keeps : {E : Type 0} (n : ℕ) → Keeps K (polls {E = E} n)
  unfolding polls
  polls-Keeps zero = Triple-return tt (λ s h. h)
  polls-Keeps {E} (suc n) = Triple-bind poll-Keeps (λ events. polls-Keeps n)

  -- What is known once a method has found the session connected.
  abbrev pub Connected : Session → Type 0
  Connected s = K s × ((is_connected s ≡ true) × (s.ota_running ≡ false))

  pub require_connected-Connected : Triple K require_connected (λ _. Connected) K
  unfolding require_connected
  require_connected-Connected = record { runs = λ s h. ground arith }

  pub require_connected-Keeps : Keeps K require_connected
  require_connected-Keeps = Triple-weaken (λ s h. h) require_connected-Connected (λ a s h. h.0)

  pub require-Connected :
      (caps : ℕ) (channel : Bool) → Triple K (require caps channel) (λ _. Connected) K
  unfolding require supports require_connected
  require-Connected caps channel = record { runs = λ s h. ground arith }

  pub wait-Keeps : (n : ℕ) → Keeps K (wait n)
  unfolding wait
  wait-Keeps n =
      Triple-bind require_connected-Keeps λ u. Triple-bind poll-Keeps (λ events. polls-Keeps n)

  request_on-Keeps :
      (c : Option GlassesClient) (command : ℕ) (args : Bytes) (reads : List Bytes) (s : Session)
      → K s
      → Post (λ _. K) K (request_on c command args reads s)
  request_on-Keeps none command args reads s h = h
  request_on-Keeps (some c) command args reads s h = go (Client.request command args reads c).result
    where
      done : Called Response
      done = Client.request command args reads c

      go :
          (r : Result ClientError Response)
          → Post (λ _. K) K (map_err client_failed r, (called done s).1)
      go (ok r) = k.exchanges done.client _ _ s h
      go (err e) = k.exchanges done.client _ _ s h

  pub client_request-Keeps : (command : ℕ) (args : Bytes) → Keeps K (client_request command args)
  unfolding client_request
  client_request-Keeps command args = record {
    runs = λ s h.
        request_on-Keeps s.client command args (next_of s.coming).0.reads _
          (k.arrives (next_of s.coming).0 (next_of s.coming).1 s h);
  }

  pub request-Keeps : (command : ℕ) (args : Bytes) → Keeps K (request command args)
  unfolding request
  request-Keeps command args = Triple-bind require_connected-Keeps λ u.
      Triple-bind (client_request-Keeps command args) λ response.
        Triple-bind (Triple-raise_if (not (response.cmd_id == command)) wrong_command (λ s h. h))
          λ v.
            Triple-bind
              (Triple-raise_if (not (response.status == status_code Status.ok))
                (refused command response.status response.content) (λ s h. h.0))
              λ w.
                Triple-bind (Triple-weaken (λ s h. h.0.0) poll-Keeps (λ a s h. h))
                  λ events. Triple-return response (λ s h. h)
