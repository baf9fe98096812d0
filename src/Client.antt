-- ===== src/Client.antt =====
-- `GlassesClient` of looktech_glasses_sdk/client.py, with the pump that reads on the calling thread.
-- The transport is outside: what is written is returned, and the reads that the pump makes before
-- the deadline are a list. The callbacks get the events in the order returned.
pub mod Matching
pub mod Request
pub mod Clean
pub mod Commands
mod Tests
use edu_glasses_host.Base.{
  ℕ, ◌+◌, Bool, true, false, not, ◌&&◌, ◌||◌, Option, none, some, List, [], ◌∷◌, ◌++◌, ltb, ◌==◌,
  if◌then◌else◌, length, drop, Result, ok, err, ◌>>=◌, bit_and,
}
use edu_glasses_host.Base.Dict.{lookup, insert, remove}
use edu_glasses_host.Base.Bytes.{Bytes, byte_at}
use edu_glasses_host.Frame
use edu_glasses_host.Frame.{Frame, EncodeError, encode_frame}
use edu_glasses_host.Payload.Codes.Commands.{FrameType, frame_type_code, Status, status_code}
use edu_glasses_host.Payload.Event.{GlassesEvent, EventError, parse_event}

-- `_Pending`: the event is set where there is an answer.
pub record Pending : Type 0 where
  pub expected_type : ℕ
  pub answer : Option Frame

abbrev pub Table : Type 0
Table = List (ℕ × Pending)

pub record GlassesClient : Type 0 where
  pub seq : ℕ
  pub pending : Table
  pub buf : Bytes

pub record Response : Type 0 where
  pub cmd_id : ℕ
  pub status : ℕ
  pub content : Bytes

pub data ClientError : Type 0 where
  not_encoded : EncodeError → ClientError
  timed_out : ClientError
  response_too_short : ClientError
  bad_status : Response → ClientError

abbrev pub answer_with : Frame → Option Pending → Table → Table
answer_with f none t = t
answer_with f (some p) t =
    if p.expected_type == f.kind then insert f.seq (record p { answer = some f }) t else t

-- The events told to the callbacks; an exception is logged.
abbrev pub told : Result EventError GlassesEvent → List GlassesEvent
told (ok e) = e ∷ []
told (err e) = []

unfoldable pub handle_frame : Frame → Table → List GlassesEvent × Table
handle_frame f t =
    if f.kind == frame_type_code FrameType.hello_ack || f.kind == frame_type_code FrameType.rsp
    then ([], answer_with f (lookup f.seq t) t)
    else if f.kind == frame_type_code FrameType.evt
    then (told (parse_event f.payload), t)
    else ([], t)

-- The loop of `poll`.
unfoldable pub handle_frames : List Frame → Table → List GlassesEvent × Table
handle_frames [] t = ([], t)
handle_frames (f ∷ fs) t =
    let (events, t') = handle_frame f t in
    let (more, last) = handle_frames fs t' in (events ++ more, last)

-- `poll`, on the bytes read.
unfoldable pub poll : Bytes → GlassesClient → List GlassesEvent × GlassesClient
poll input c =
    let (frames, buf) = Frame.feed c.buf input in
    let (events, pending) = handle_frames frames c.pending in
    (events, record c { pending = pending; buf = buf })

-- `_next_seq`
unfoldable pub next_seq : GlassesClient → ℕ × GlassesClient
next_seq c = (c.seq, record c { seq = bit_and (c.seq + 1) 0xff })

abbrev pub answer_of : Option Pending → Option Frame
answer_of none = none
answer_of (some p) = p.answer

abbrev pub is_set : Option Frame → Bool
is_set none = false
is_set (some f) = true

-- The loop of `_transact`: it polls until the event is set or the reads are over.
unfoldable pub wait_answer : ℕ → List Bytes → GlassesClient → List GlassesEvent × GlassesClient
wait_answer seq [] c = ([], c)
wait_answer seq (input ∷ inputs) c =
    let (events, c') = poll input c in
    let (more, last) = wait_answer seq inputs c' in
    if is_set (answer_of (lookup seq c.pending)) then ([], c) else (events ++ more, last)

abbrev pub or_timeout : Option Frame → Result ClientError Frame
or_timeout none = err timed_out
or_timeout (some f) = ok f

-- What a call does: its result, the bytes written, the events told, and the client after it.
pub record Called (A : Type 0) : Type 0 where
  pub result : Result ClientError A
  pub written : Bytes
  pub events : List GlassesEvent
  pub client : GlassesClient

-- The wait for the answer to a request that was written.
unfoldable pub await : ℕ → Bytes → List Bytes → GlassesClient → Called Frame
await seq wire reads c =
    let (events, c') = wait_answer seq reads c in
    record {
      result = or_timeout (answer_of (lookup seq c'.pending));
      written = wire;
      events = events;
      client = record c' { pending = remove seq c'.pending };
    }

abbrev pub sent_or_not : ℕ → Result EncodeError Bytes → List Bytes → GlassesClient → Called Frame
sent_or_not seq (ok wire) reads c = await seq wire reads c
sent_or_not seq (err e) reads c = record {
  result = err (not_encoded e);
  written = [];
  events = [];
  client = record c { pending = remove seq c.pending };
}

-- `_transact`
unfoldable pub transact : ℕ → Bytes → ℕ → List Bytes → GlassesClient → Called Frame
transact send_type payload expect_type reads c =
    let (seq, c') = next_seq c in
    let pending : Pending = record { expected_type = expect_type; answer = none } in
    sent_or_not seq (encode_frame send_type seq payload) reads
      (record c' { pending = insert seq pending c'.pending })

unfoldable pub to_response : Frame → Result ClientError Response
to_response f =
    if ltb (length f.payload) 2
    then err response_too_short
    else ok (record {
      cmd_id = byte_at f.payload 0;
      status = byte_at f.payload 1;
      content = drop 2 f.payload;
    })

-- `request`, of a command that is a byte: `bytes([cmd_id])` is a `ValueError` for others.
unfoldable pub request : ℕ → Bytes → List Bytes → GlassesClient → Called Response
request cmd_id args reads c =
    let done =
      transact (frame_type_code FrameType.cmd) (cmd_id ∷ args) (frame_type_code FrameType.rsp) reads
        c in
    record {
      result = done.result >>= to_response;
      written = done.written;
      events = done.events;
      client = done.client;
    }

unfoldable pub check_status : Response → Result ClientError Response
check_status r = if r.status == status_code Status.ok then ok r else err (bad_status r)

unfoldable pub request_ok : ℕ → Bytes → List Bytes → GlassesClient → Called Response
request_ok cmd_id args reads c =
    let done = request cmd_id args reads c in
    record {
      result = done.result >>= check_status;
      written = done.written;
      events = done.events;
      client = done.client;
    }
