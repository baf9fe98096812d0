-- ===== src/Session/Clean.antt =====
-- A session on channels that bring bytes holds bytes, and its requests are answered with bytes.
use edu_glasses_host.Base.{
  ℕ, Bool, true, false, not, ◌&&◌, Option, none, some, List, [], ◌∷◌, ◌==◌, All, Result, ok, err,
  arith,
}
use edu_glasses_host.Base.Bytes.{Bytes, IsBytes}
use edu_glasses_host.Payload.Event.{GlassesEvent}
use edu_glasses_host.Payload.Codes.Commands.{Status, status_code}
use edu_glasses_host.Client
use edu_glasses_host.Client.{GlassesClient, Called, Response, ClientError}
use edu_glasses_host.Client.Clean.{
  CleanClient, CleanResponse, CleanCall, Brings, poll-Clean, request-Clean,
}
use edu_glasses_host.Session.State.{Arrivals, Session, FilePath, map_err}
use edu_glasses_host.Session.{
  client_failed, wrong_command, refused, called, require_connected, supports, require, next_of,
  told_to, receive, take_event, note_failure, is_photo_failure, take_events, take_images, poll,
  poll_reads, request_on, client_request, request,
}
use edu_glasses_host.Session.Triple.{
  Post, Triple, Triple-bind, Triple-raise_if, Triple-return, Triple-weaken,
}

abbrev CleanOpt : Option GlassesClient → Type 0
CleanOpt none = Unit
CleanOpt (some c) = CleanClient c

abbrev CleanComing : List Arrivals → Type 0
CleanComing = All (λ a. All IsBytes a.reads)

abbrev pub CleanSession : Session → Type 0
CleanSession s = CleanOpt s.client × CleanComing s.coming

next_of-Clean :
    (coming : List Arrivals)
    → CleanComing coming
    → All IsBytes (next_of coming).0.reads × CleanComing (next_of coming).1
next_of-Clean [] h = (tt, tt)
next_of-Clean (a ∷ later) h = h

poll_reads-Clean :
    (reads : List Bytes) (c : GlassesClient)
    → All IsBytes reads
    → CleanClient c
    → CleanClient (poll_reads reads c).1
unfolding poll_reads
poll_reads-Clean [] c h k = k
poll_reads-Clean (input ∷ inputs) c h k =
    poll_reads-Clean inputs (Client.poll input c).1 h.1 (poll-Clean input c h.0 k)

told_to-Clean :
    (o : Option GlassesClient) (reads : List Bytes) (s : Session)
    → All IsBytes reads
    → CleanOpt o
    → CleanSession s
    → CleanSession (told_to o reads s)
told_to-Clean none reads s h k l = l
told_to-Clean (some c) reads s h k l = (poll_reads-Clean reads c h k, l.1)

receive-Clean : (s : Session) → CleanSession s → CleanSession (receive s)
unfolding receive
receive-Clean s h =
    let (own, later) = next_of-Clean s.coming h.1 in
    told_to-Clean s.client (next_of s.coming).0.reads _ own h.0 (h.0, later)

take_event-Clean :
    (event : GlassesEvent) (s : Session) → CleanSession s → CleanSession (take_event event s)
take_event-Clean event s h = go (s.photo_pending && is_photo_failure event)
  where
    go : (c : Bool) → CleanSession (note_failure c event s)
    go true = h
    go false = h

take_events-Clean :
    (events : List GlassesEvent) (s : Session)
    → CleanSession s
    → CleanSession (take_events events s)
unfolding take_events
take_events-Clean [] s h = h
take_events-Clean (event ∷ events) s h =
    take_events-Clean events (take_event event s) (take_event-Clean event s h)

take_images-Clean :
    (paths : List FilePath) (s : Session) → CleanSession s → CleanSession (take_images paths s)
unfolding take_images
take_images-Clean [] s h = h
take_images-Clean (path ∷ paths) s h = take_images-Clean paths _ h

module _ {K : Session → Type 0} where
  require_connected-Keeps : Triple K require_connected (λ _. K) K
  unfolding require_connected
  require_connected-Keeps = record { runs = λ s h. ground arith }

  pub require-Keeps : (caps : ℕ) (channel : Bool) → Triple K (require caps channel) (λ _. K) K
  unfolding require supports require_connected
  require-Keeps caps channel = record { runs = λ s h. ground arith }

abbrev pub CleanlyAnswered : Response → Session → Type 0
CleanlyAnswered r s = CleanResponse r × CleanSession s

request_on-Clean :
    (o : Option GlassesClient) (command : ℕ) (args : Bytes) (reads : List Bytes) (s : Session)
    → All IsBytes reads
    → CleanOpt o
    → CleanSession s
    → Post CleanlyAnswered CleanSession (request_on o command args reads s)
request_on-Clean none command args reads s h k l = l
request_on-Clean (some c) command args reads s h k l =
    go (Client.request command args reads c) (request-Clean command args reads c h k)
  where
    go :
        (done : Called Response)
        → CleanCall CleanResponse done
        → Post CleanlyAnswered CleanSession (called done s)
    go done t = by done.result t.0
      where
        by :
            (r : Result ClientError Response)
            → Brings CleanResponse r
            → Post CleanlyAnswered CleanSession (map_err client_failed r, (called done s).1)
        by (ok r) u = (u, (t.1, l.1))
        by (err e) u = (t.1, l.1)

poll-Answered :
    {E : Type 0} (r : Response)
    → Triple (CleanlyAnswered r) (poll {E = E}) (λ _. CleanlyAnswered r) CleanSession
unfolding poll
poll-Answered r = record {
  runs = λ s h. (
    h.0,
    take_images-Clean _ _
        (take_events-Clean (receive s).incoming (receive s) (receive-Clean s h.1)),
  );
}

client_request-Clean :
    (command : ℕ) (args : Bytes)
    → Triple CleanSession (client_request command args) CleanlyAnswered CleanSession
unfolding client_request
client_request-Clean command args = record {
  runs = λ s h.
      let (own, later) = next_of-Clean s.coming h.1 in
      request_on-Clean s.client command args _ _ own h.0 (h.0, later);
}

pub request-CleanlyAnswered :
    (command : ℕ) (args : Bytes)
    → Triple CleanSession (request command args) CleanlyAnswered CleanSession
unfolding request
request-CleanlyAnswered command args = Triple-bind require_connected-Keeps λ u.
    Triple-bind (client_request-Clean command args) λ response.
      Triple-bind (Triple-raise_if (not (response.cmd_id == command)) wrong_command (λ s h. h.1))
        λ v.
          Triple-bind
            (Triple-raise_if (not (response.status == status_code Status.ok))
              (refused command response.status response.content) (λ s h. h.0.1))
            λ w.
              Triple-bind (Triple-weaken (λ s h. h.0.0) (poll-Answered response) (λ a s h. h))
                (λ events. Triple-return response (λ s h. h))
