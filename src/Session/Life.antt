-- ===== src/Session/Life.antt =====
-- `connect` and `close` of looktech_glasses_sdk/session.py. Finding the device and the steps of the
-- transports are outside: what came of opening each channel is given.
pub mod Reconnect
use edu_glasses_host.Base.{
  ℕ, ◌+◌, Bool, true, false, not, ◌&&◌, Option, none, some, Result, ok, err, List, [], ◌∷◌, ◌++◌,
  ◌==◌, if◌then◌else◌,
}
use edu_glasses_host.Base.Bytes.{Bytes, to_le}
use edu_glasses_host.Frame.{Frame, proto_version}
use edu_glasses_host.Payload.Codes.Commands.{CommandId, command_id_code}
use edu_glasses_host.Payload.Reply.{HelloAck, ReplyError, parse_hello_ack}
use edu_glasses_host.Client.{GlassesClient, Called, ClientError}
use edu_glasses_host.Client.Commands.{greet}
use edu_glasses_host.Session.{
  SessionError, client_failed, unsupported_version, bad_hello, not_opened, is_connected, beside,
  next_of, request,
}
use edu_glasses_host.Session.Recording.{audio_stop, end_recording}
use edu_glasses_host.Session.State.{
  Arrivals, Session, Op, return, raise, ◌>>=◌, ◌>>◌, get, modify, raise_if, given, map_err,
  on_error,
}

-- Which channels there are: an audio or image channel that does not open is dropped, and with no
-- image transport at all the image client stays as it is.
pub record Channels : Type 0 where
  pub ctrl : Bool
  pub audio : Bool
  pub image_transport : Bool
  pub image : Bool
  pub ota : Bool

abbrev pub new_client : GlassesClient
new_client = record { seq = 0; pending = []; buf = [] }

-- The assignments before `try`.
abbrev pub forget : Session → Session
forget s = record s {
  incoming = [];
  images = [];
  photo_pending = false;
  completed_photo = none;
  photo_error = none;
  video_operation = none;
}

abbrev pub attach : Channels → Session → Session
attach ch s = record s {
  client = some new_client;
  is_open = true;
  has_audio = ch.audio;
  has_image = if ch.image_transport then ch.image else s.has_image;
  has_ota = ch.ota;
}

abbrev pub greeted : Called Frame → Session → Result SessionError Frame × Session
greeted done s = (
  map_err client_failed done.result,
  record s {
    client = some done.client;
    incoming = s.incoming ++ done.events;
    sent = s.sent ++ done.written;
  },
)

-- `GlassesClient.hello`, of the client just made.
unfoldable pub client_hello : Op SessionError Frame
client_hello s =
    let (a, later) = next_of s.coming in
    greeted (greet proto_version a.reads new_client) (beside a later s)

-- The video that was started is told to stop; what comes of it does not matter.
abbrev pub stop_video : Option ℕ → Session → Session
stop_video none s = s
stop_video (some operation) s =
    let tried = (request (command_id_code CommandId.video_stop) (to_le 4 operation) s).1 in
    if is_connected s then tried else s

abbrev pub stop_audio : Session → Session
stop_audio s =
    let tried = (audio_stop s).1 in
    if s.recording then end_recording (if is_connected s then tried else s) else s

abbrev pub detach : Session → Session
detach s = record s {
  client = none;
  is_open = false;
  has_audio = false;
  has_image = false;
  has_ota = false;
  hello_ack = none;
}

-- `close`
unfoldable pub close : Session → Session
close s = detach (stop_audio (stop_video s.video_operation s))

abbrev pub accept_ack : HelloAck → Session → Session
accept_ack ack s = record s { hello_ack = some ack }

-- The body of `try`.
unfoldable pub open_channels : Channels → Op SessionError (Unit {0})
open_channels ch = do
  raise_if (not ch.ctrl) not_opened
  modify (attach ch)
  frame ← client_hello
  ack ← given (map_err bad_hello (parse_hello_ack frame.payload))
  modify (accept_ack ack)
  raise_if (not (ack.proto_ver == proto_version)) (unsupported_version ack.proto_ver)

unfoldable pub connect : Channels → Op SessionError (Unit {0})
connect ch s =
    let opened = on_error (open_channels ch) (λ e. close) (forget s) in
    if is_connected s then (ok tt, s) else opened
