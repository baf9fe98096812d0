-- ===== src/Client/Clean.antt =====
-- The client holds bytes where bytes arrive: in its buffer and in the answers it keeps.
use edu_glasses_host.Base.{
  ℕ, sym, subst, Bool, true, false, Option, none, some, List, [], ◌∷◌, ◌++◌, length, drop,
  if◌then◌else◌, ltb, ◌==◌, All, All-append, All-drop, All-take, Result, ok, err, ◌>>=◌, arith,
}
use edu_glasses_host.Base.Dict.{lookup, insert, remove}
use edu_glasses_host.Base.Bytes.{Bytes, IsBytes, slice}
use edu_glasses_host.Stream.Parses.{Parses, waits, skips, finds, drain-Parses}
use edu_glasses_host.Frame
use edu_glasses_host.Frame.{Frame, EncodeError, encode_frame, frame_pass}
use edu_glasses_host.Frame.Scanner.{frame_pass-IsScanner}
use edu_glasses_host.Frame.Soundness.{frame_pass-IsFrameAt, feed-lt-max_frame}
use edu_glasses_host.Payload.Event.{GlassesEvent}
use edu_glasses_host.Client.{
  Pending, Table, GlassesClient, Response, ClientError, Called, answer_with, handle_frame,
  handle_frames, poll, answer_of, is_set, wait_answer, or_timeout, await, sent_or_not, next_seq,
  transact, to_response, request,
}

abbrev CleanFrame : Frame → Type 0
CleanFrame f = IsBytes f.payload

abbrev CleanAnswer : Option Frame → Type 0
CleanAnswer none = Unit
CleanAnswer (some f) = CleanFrame f

abbrev CleanTable : Table → Type 0
CleanTable = All (λ e. CleanAnswer e.1.answer)

abbrev pub CleanClient : GlassesClient → Type 0
CleanClient c = IsBytes c.buf × CleanTable c.pending

slice-IsBytes : (buf : Bytes) (i j : ℕ) → IsBytes buf → IsBytes (slice buf i j)
slice-IsBytes buf i j h = All-take _ _ (drop i buf) (All-drop _ i buf h)

Parses-Clean :
    {buf rest : Bytes} {items : List Frame}
    → IsBytes buf
    → Parses frame_pass buf items rest
    → All CleanFrame items × IsBytes rest
Parses-Clean h (waits e) = (tt, h)
Parses-Clean {buf} h (skips {n} e p) = Parses-Clean (All-drop _ n buf h) p
Parses-Clean {buf} h (finds {a} {n} e p) =
    let (items, rest) = Parses-Clean (All-drop _ n buf h) p in
    let there = (frame_pass-IsFrameAt buf a n e).payload_there in
    ((subst IsBytes (sym there) (slice-IsBytes buf _ _ h), items), rest)

feed-Clean :
    (buf input : Bytes)
    → IsBytes buf
    → IsBytes input
    → All CleanFrame (Frame.feed buf input).0 × IsBytes (Frame.feed buf input).1
feed-Clean buf input h k =
    subst (λ r. All CleanFrame r.0 × IsBytes r.1) (sym (feed-lt-max_frame buf input).1)
      (Parses-Clean (All-append _ buf input h k) (drain-Parses frame_pass-IsScanner (buf ++ input)))

if-holds : {A : Type 0} (P : A → Type 0) (b : Bool) (x y : A) → P x → P y → P (if b then x else y)
if-holds P true x y h k = h
if-holds P false x y h k = k

insert-Clean :
    (key : ℕ) (p : Pending) (t : Table)
    → CleanAnswer p.answer
    → CleanTable t
    → CleanTable (insert key p t)
unfolding insert
insert-Clean key p [] h k = (h, tt)
insert-Clean key p ((i, q) ∷ t) h k =
    let rest = insert-Clean key p t h k.1 in if-holds CleanTable (i == key) _ _ (h, k.1) (k.0, rest)

remove-Clean : (key : ℕ) (t : Table) → CleanTable t → CleanTable (remove key t)
unfolding remove
remove-Clean key [] h = tt
remove-Clean key ((i, q) ∷ t) h =
    let rest = remove-Clean key t h.1 in if-holds CleanTable (i == key) _ _ rest (h.0, rest)

lookup-Clean : (key : ℕ) (t : Table) → CleanTable t → CleanAnswer (answer_of (lookup key t))
unfolding lookup
lookup-Clean key [] h = tt
lookup-Clean key ((i, q) ∷ t) h =
    if-holds (λ o. CleanAnswer (answer_of o)) (i == key) (some q) (lookup key t) h.0
      (lookup-Clean key t h.1)

answer_with-Clean :
    (f : Frame) (o : Option Pending) (t : Table)
    → CleanFrame f
    → CleanTable t
    → CleanTable (answer_with f o t)
answer_with-Clean f none t h k = k
answer_with-Clean f (some p) t h k =
    if-holds CleanTable (p.expected_type == f.kind) _ _
      (insert-Clean f.seq (record p { answer = some f }) t h k) k

handle_frame-Clean :
    (f : Frame) (t : Table) → CleanFrame f → CleanTable t → CleanTable (handle_frame f t).1
unfolding handle_frame
handle_frame-Clean f t h k =
    let answered = answer_with-Clean f (lookup f.seq t) t h k in ground (arith, answered, k)

handle_frames-Clean :
    (fs : List Frame) (t : Table)
    → All CleanFrame fs
    → CleanTable t
    → CleanTable (handle_frames fs t).1
unfolding handle_frames
handle_frames-Clean [] t h k = k
handle_frames-Clean (f ∷ fs) t h k =
    handle_frames-Clean fs (handle_frame f t).1 h.1 (handle_frame-Clean f t h.0 k)

pub poll-Clean :
    (input : Bytes) (c : GlassesClient)
    → IsBytes input
    → CleanClient c
    → CleanClient (poll input c).1
unfolding poll
poll-Clean input c h k =
    let (frames, buf) = feed-Clean c.buf input k.0 h in
    (buf, handle_frames-Clean (Frame.feed c.buf input).0 c.pending frames k.1)

wait_answer-Clean :
    (seq : ℕ) (reads : List Bytes) (c : GlassesClient)
    → All IsBytes reads
    → CleanClient c
    → CleanClient (wait_answer seq reads c).1
unfolding wait_answer
wait_answer-Clean seq [] c h k = k
wait_answer-Clean seq (input ∷ inputs) c h k =
    let later = wait_answer-Clean seq inputs (poll input c).1 h.1 (poll-Clean input c h.0 k) in
    if-holds (λ (r : List GlassesEvent × GlassesClient). CleanClient r.1)
      (is_set (answer_of (lookup seq c.pending))) _ _ k later

-- What a call returns.
abbrev pub Brings : {A : Type 0} → (A → Type 0) → Result ClientError A → Type 0
Brings P (ok a) = P a
Brings P (err e) = Unit

or_timeout-Clean : (o : Option Frame) → CleanAnswer o → Brings CleanFrame (or_timeout o)
or_timeout-Clean none h = tt
or_timeout-Clean (some f) h = h

-- A call brings bytes and leaves a clean client.
abbrev pub CleanCall : {A : Type 0} → (A → Type 0) → Called A → Type 0
CleanCall P done = Brings P done.result × CleanClient done.client

await-Clean :
    (seq : ℕ) (wire : Bytes) (reads : List Bytes) (c : GlassesClient)
    → All IsBytes reads
    → CleanClient c
    → CleanCall CleanFrame (await seq wire reads c)
unfolding await
await-Clean seq wire reads c h k =
    let after = wait_answer-Clean seq reads c h k in
    let table = (wait_answer seq reads c).1.pending in
    (or_timeout-Clean _ (lookup-Clean seq table after.1), (after.0, remove-Clean seq table after.1))

sent_or_not-Clean :
    (seq : ℕ) (r : Result EncodeError Bytes) (reads : List Bytes) (c : GlassesClient)
    → All IsBytes reads
    → CleanClient c
    → CleanCall CleanFrame (sent_or_not seq r reads c)
sent_or_not-Clean seq (ok wire) reads c h k = await-Clean seq wire reads c h k
sent_or_not-Clean seq (err e) reads c h k = (tt, (k.0, remove-Clean seq c.pending k.1))

transact-Clean :
    (send_type : ℕ) (payload : Bytes) (kind : ℕ) (reads : List Bytes) (c : GlassesClient)
    → All IsBytes reads
    → CleanClient c
    → CleanCall CleanFrame (transact send_type payload kind reads c)
unfolding transact next_seq
transact-Clean send_type payload kind reads c h k =
    let waiting : Pending = record { expected_type = kind; answer = none } in
    sent_or_not-Clean c.seq (encode_frame send_type c.seq payload) reads _ h
      (k.0, insert-Clean c.seq waiting c.pending tt k.1)

abbrev pub CleanResponse : Response → Type 0
CleanResponse r = IsBytes r.content

to_response-Clean :
    (r : Result ClientError Frame) → Brings CleanFrame r → Brings CleanResponse (r >>= to_response)
unfolding to_response
to_response-Clean (err e) h = tt
to_response-Clean (ok f) h =
    if-holds (Brings CleanResponse) (ltb (length f.payload) 2) _ _ tt (All-drop _ 2 f.payload h)

-- A request on a channel that brings bytes is answered with bytes.
pub request-Clean :
    (cmd_id : ℕ) (args : Bytes) (reads : List Bytes) (c : GlassesClient)
    → All IsBytes reads
    → CleanClient c
    → CleanCall CleanResponse (request cmd_id args reads c)
unfolding request
request-Clean cmd_id args reads c h k =
    let done = transact-Clean _ (cmd_id ∷ args) _ reads c h k in
    (to_response-Clean _ done.0, done.1)
