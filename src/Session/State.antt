-- ===== src/Session/State.antt =====
-- What `GlassesSession` (looktech_glasses_sdk/session.py) keeps, and its methods as functions from
-- the state before to the result and the state after.
use edu_glasses_host.Base.{ℕ, Bool, true, false, Option, none, List, [], Result, ok, err}
use edu_glasses_host.Base.Bytes.{Bytes}
use edu_glasses_host.Payload.Event.{GlassesEvent}
use edu_glasses_host.Payload.Reply.{HelloAck}
use edu_glasses_host.Client.{GlassesClient}

-- A path, by its characters.
abbrev pub FilePath : Type 0
FilePath = List ℕ

-- What comes from outside while the session waits once: the reads of the control channel, the
-- photos that the image client saves, the frames that the audio client writes, and whether the
-- control transport closes.
pub record Arrivals : Type 0 where
  pub reads : List Bytes
  pub photos : List FilePath
  pub frames : ℕ
  pub lost : Bool

-- `client` is set with `is_open` while its transport is open. `sent` is all that was written to the
-- control channel, `coming` what the waits to come will meet.
pub record Session : Type 0 where
  pub client : Option GlassesClient
  pub is_open : Bool
  pub has_audio : Bool
  pub has_image : Bool
  pub has_ota : Bool
  pub recording : Bool
  pub frames_written : ℕ
  pub ota_running : Bool
  pub video_operation : Option ℕ
  pub hello_ack : Option HelloAck
  pub incoming : List GlassesEvent
  pub images : List FilePath
  pub photo_pending : Bool
  pub completed_photo : Option FilePath
  pub photo_error : Option GlassesEvent
  pub next_photo_path : Option FilePath
  pub sent : Bytes
  pub coming : List Arrivals

-- `__init__`
unfoldable pub new_session : List Arrivals → Session
new_session coming = record {
  client = none;
  is_open = false;
  has_audio = false;
  has_image = false;
  has_ota = false;
  recording = false;
  frames_written = 0;
  ota_running = false;
  video_operation = none;
  hello_ack = none;
  incoming = [];
  images = [];
  photo_pending = false;
  completed_photo = none;
  photo_error = none;
  next_photo_path = none;
  sent = [];
  coming = coming;
}

-- A method that returns an `A` or raises an `E`.
abbrev pub Op : Type 0 → Type 0 → Type 0
Op E A = Session → Result E A × Session

abbrev pub return : {E A : Type 0} → A → Op E A
return a s = (ok a, s)

abbrev pub raise : {E A : Type 0} → E → Op E A
raise e s = (err e, s)

abbrev pub and_then : {E A B : Type 0} → (A → Op E B) → Result E A × Session → Result E B × Session
and_then f (ok a, s) = f a s
and_then f (err e, s) = (err e, s)

infixl 5 ◌>>=◌ ◌>>◌
abbrev pub ◌>>=◌ : {E A B : Type 0} → Op E A → (A → Op E B) → Op E B
◌>>=◌ m f s = and_then f (m s)

abbrev pub ◌>>◌ : {E A B : Type 0} → Op E A → Op E B → Op E B
m >> k = m >>= λ _. k

abbrev pub get : {E : Type 0} → Op E Session
get s = (ok s, s)

abbrev pub modify : {E : Type 0} → (Session → Session) → Op E (Unit {0})
modify f s = (ok tt, f s)

-- `if c: raise e`
abbrev pub raise_if : {E : Type 0} → Bool → E → Op E (Unit {0})
raise_if true e s = (err e, s)
raise_if false e s = (ok tt, s)

-- A value computed without the session, or its exception.
abbrev pub given : {E A : Type 0} → Result E A → Op E A
given r s = (r, s)

abbrev pub map_err : {E F A : Type 0} → (E → F) → Result E A → Result F A
map_err f (ok a) = ok a
map_err f (err e) = err (f e)

-- A method of another object, whose exceptions are passed on.
abbrev pub lift : {E F A : Type 0} → (E → F) → Op E A → Op F A
lift f m s = let (r, s') = m s in (map_err f r, s')

-- `except`: what the handler does to the session before the exception is raised again.
abbrev pub handled :
    {E A : Type 0} → (E → Session → Session) → Result E A × Session → Result E A × Session
handled f (ok a, s) = (ok a, s)
handled f (err e, s) = (err e, f e s)

abbrev pub on_error : {E A : Type 0} → Op E A → (E → Session → Session) → Op E A
on_error m f s = handled f (m s)
