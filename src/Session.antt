-- ===== src/Session.antt =====
-- `GlassesSession` of looktech_glasses_sdk/session.py: the tests before a command, requests, and
-- `poll`, which hands out what arrived. What the callbacks do to the session is outside.
pub mod State
pub mod Photo
pub mod Commands
pub mod Recording
pub mod Life
pub mod Upgrade
pub mod Triple
pub mod Yields
pub mod Stable
pub mod Clean
pub mod Sound
pub mod Reach
mod Tests
use edu_glasses_host.Base.{
  ℕ, ◌+◌, Bool, true, false, not, ◌&&◌, ◌||◌, Option, none, some, List, [], ◌∷◌, ◌++◌, ◌==◌,
  if◌then◌else◌, Result, ok, err, bit_and, zero, suc,
}
use edu_glasses_host.Base.Bytes.{Bytes}
use edu_glasses_host.Payload.Codes.Commands.{Status, status_code}
use edu_glasses_host.Payload.Codes.Captures.{CaptureEvt, capture_evt_code}
use edu_glasses_host.Payload.Event.{GlassesEvent, img_state_event}
use edu_glasses_host.Payload.Reply.{HelloAck, ReplyError}
use edu_glasses_host.Client
use edu_glasses_host.Client.{GlassesClient, ClientError, Response, Called}
use State.{
  Arrivals, Session, Op, FilePath, return, raise, ◌>>=◌, ◌>>◌, get, raise_if, given, map_err,
}

-- The exceptions that the session raises itself, or passes on from its client.
pub data SessionError : Type 0 where
  not_connected ota_in_progress channel_unavailable wrong_command : SessionError
  unsupported : ℕ → SessionError
  client_failed : ClientError → SessionError
  refused : ℕ → ℕ → Bytes → SessionError
  unsupported_version : ℕ → SessionError
  bad_hello : ReplyError → SessionError
  not_opened : SessionError
  photo_already_pending photo_timed_out : SessionError
  photo_failed : GlassesEvent → SessionError
  already_recording no_recording audio_not_started : SessionError
  no_usable_audio : SessionError
  busy_for_ota ota_unavailable bad_firmware : SessionError

abbrev pub some_ack : Option HelloAck → Bool
some_ack none = false
some_ack (some a) = true

abbrev pub some_client : Option GlassesClient → Bool
some_client none = false
some_client (some c) = true

-- `is_connected`
abbrev pub is_connected : Session → Bool
is_connected s = some_client s.client && (some_ack s.hello_ack && s.is_open)

-- `_require_connected`; the test of the thread is outside.
unfoldable pub require_connected : Op SessionError (Unit {0})
require_connected = do
  s ← get
  raise_if (not (is_connected s)) not_connected
  raise_if s.ota_running ota_in_progress

abbrev pub has_caps : ℕ → Option HelloAck → Bool
has_caps caps none = false
has_caps caps (some a) = bit_and a.caps caps == caps

-- `supports`, for a number.
unfoldable pub supports : ℕ → Op SessionError Bool
supports caps = do require_connected; s ← get; return (has_caps caps s.hello_ack)

-- `_require`
unfoldable pub require : ℕ → Bool → Op SessionError (Unit {0})
require caps channel = do
  require_connected
  there ← supports caps
  raise_if (not there) (unsupported caps)
  raise_if (not channel) channel_unavailable

abbrev pub no_arrivals : Arrivals
no_arrivals = record { reads = []; photos = []; frames = 0; lost = false }

-- What arrives while the session waits, and what will arrive after it.
abbrev pub next_of : List Arrivals → Arrivals × List Arrivals
next_of [] = (no_arrivals, [])
next_of (a ∷ later) = (a, later)

-- `GlassesClient.poll`, for each read.
unfoldable pub poll_reads : List Bytes → GlassesClient → List GlassesEvent × GlassesClient
poll_reads [] c = ([], c)
poll_reads (input ∷ inputs) c =
    let (events, c') = Client.poll input c in
    let (more, last) = poll_reads inputs c' in (events ++ more, last)

-- The photos, the audio and the state of the transport.
abbrev pub beside : Arrivals → List Arrivals → Session → Session
beside a later s = record s {
  is_open = s.is_open && not a.lost;
  images = s.images ++ a.photos;
  frames_written = if s.recording then s.frames_written + a.frames else s.frames_written;
  coming = later;
}

abbrev told_to : Option GlassesClient → List Bytes → Session → Session
told_to none reads s = s
told_to (some c) reads s =
    let (events, c') = poll_reads reads c in
    record s { client = some c'; incoming = s.incoming ++ events }

-- The channels work while the session waits, on the readers' threads or on the pump.
unfoldable pub receive : Session → Session
receive s = let (a, later) = next_of s.coming in told_to s.client a.reads (beside a later s)

-- An event that ends the wait for a photo: ERROR, REMOTE_ERROR or CANCEL.
abbrev pub is_photo_failure : GlassesEvent → Bool
is_photo_failure (img_state_event evt error) =
    evt == capture_evt_code CaptureEvt.error
    || (evt == capture_evt_code CaptureEvt.remote_error
        || evt == capture_evt_code CaptureEvt.cancel)
is_photo_failure _ = false

abbrev pub note_failure : Bool → GlassesEvent → Session → Session
note_failure true event s = record s { photo_error = some event; photo_pending = false }
note_failure false event s = s

abbrev pub take_event : GlassesEvent → Session → Session
take_event event s = note_failure (s.photo_pending && is_photo_failure event) event s

-- The first loop of `poll`.
unfoldable pub take_events : List GlassesEvent → Session → Session
take_events [] s = record s { incoming = [] }
take_events (event ∷ events) s = take_events events (take_event event s)

-- The second loop of `poll`.
unfoldable pub take_images : List FilePath → Session → Session
take_images [] s = record s { images = [] }
take_images (path ∷ paths) s =
    take_images paths (record s { completed_photo = some path; photo_pending = false })

abbrev pub poll_with : Session → List GlassesEvent × Session
poll_with s = let noted = take_events s.incoming s in (s.incoming, take_images noted.images noted)

-- `poll`
unfoldable pub poll : {E : Type 0} → Op E (List GlassesEvent)
poll s = let (events, s') = poll_with (receive s) in (ok events, s')

-- The polls of a wait, as many as start before the deadline.
unfoldable pub polls : {E : Type 0} → ℕ → Op E (Unit {0})
polls zero = return tt
polls (suc n) = poll >> polls n

-- `wait`
unfoldable pub wait : ℕ → Op SessionError (Unit {0})
wait n = do require_connected; poll; polls n

abbrev pub called : Called Response → Session → Result SessionError Response × Session
called done s = (
  map_err client_failed done.result,
  record s {
    client = some done.client;
    incoming = s.incoming ++ done.events;
    sent = s.sent ++ done.written;
  },
)

abbrev request_on :
    Option GlassesClient → ℕ → Bytes → List Bytes → Session → Result SessionError Response × Session
request_on none command args reads s = (err not_connected, s)
request_on (some c) command args reads s = called (Client.request command args reads c) s

-- `GlassesClient.request`, with what arrives while it waits.
unfoldable pub client_request : ℕ → Bytes → Op SessionError Response
client_request command args s =
    let (a, later) = next_of s.coming in request_on s.client command args a.reads (beside a later s)

-- `_request`
unfoldable pub request : ℕ → Bytes → Op SessionError Response
request command args = do
  require_connected
  response ← client_request command args
  raise_if (not (response.cmd_id == command)) wrong_command
  raise_if (not (response.status == status_code Status.ok))
      (refused command response.status response.content)
  poll
  return response
