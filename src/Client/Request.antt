-- ===== src/Client/Request.antt =====
-- A whole request: what is written, what comes back, and the table afterwards.
use edu_glasses_host.Base.{
  ℕ, suc, ◌+◌, ◌%◌, ◌^◌, ◌≡◌, refl, ap, sym, ◌∙◌, true, false, inr, none, some, List, [], ◌∷◌, ◌++◌,
  ltb, length, if◌then◌else◌, concat, All, ok, err, ◌>>=◌, bit_and, subst, arith,
}
use edu_glasses_host.Base.Bits.{bit_and_mask}
use edu_glasses_host.Base.Dict.{lookup, insert, lookup-insert, lookup-remove}
use edu_glasses_host.Base.Bytes.{Bytes}
use edu_glasses_host.Frame.{Frame, encode_frame}
use edu_glasses_host.Frame.Delivery.{IsSendable, encode_all, feed_pieces-encode_all}
use edu_glasses_host.Client.{
  GlassesClient, Response, timed_out, poll, next_seq, answer_of, wait_answer, or_timeout, await,
  sent_or_not, transact, to_response, request,
}
use edu_glasses_host.Client.Matching.{
  matches, last_match, IsAnswerType, entry, Only, last_match-some, last_match-append, Only-parts,
  frames_in, wait_answer-lookup,
}

wait_answer-seq :
    (seq : ℕ) (reads : List Bytes) (c : GlassesClient) → (wait_answer seq reads c).1.seq ≡ c.seq
unfolding wait_answer poll
wait_answer-seq seq [] c = refl
wait_answer-seq seq (input ∷ inputs) c = ground (arith, wait_answer-seq seq inputs (poll input c).1)

module _ (send_type kind : ℕ) (payload wire : Bytes) (reads : List Bytes) (frames : List Frame)
    (c : GlassesClient) (answer : Frame) where
  -- The client while the request is waited for.
  abbrev begun : GlassesClient
  begun = record {
    seq = bit_and (c.seq + 1) 0xff;
    pending = insert c.seq (entry kind none) c.pending;
    buf = c.buf;
  }

  transact-await :
      encode_frame send_type c.seq payload ≡ ok wire
      → transact send_type payload kind reads c ≡ await c.seq wire reads begun
  unfolding transact next_seq
  transact-await e = ap (λ r. sent_or_not c.seq r reads begun) e

  await-frames :
      IsAnswerType kind
      → Only c.seq kind answer (frames_in reads c.buf)
      → let done = await c.seq wire reads begun in
        (done.result ≡ or_timeout (last_match c.seq kind (frames_in reads c.buf) none))
        × (done.written ≡ wire)
        × (lookup c.seq done.client.pending ≡ none)
        × (done.client.seq ≡ (c.seq + 1) % 2 ^ 8)
  unfolding await
  await-frames k only =
      let waiting : lookup c.seq begun.pending ≡ some (entry kind none) =
        ground (arith, lookup-insert c.seq c.seq (entry kind none) c.pending) in
      let found = wait_answer-lookup c.seq kind answer reads begun k waiting only in
      (
        ap (λ o. or_timeout (answer_of o)) found,
        refl,
        ground (arith, lookup-remove c.seq c.seq (wait_answer c.seq reads begun).1.pending),
        wait_answer-seq c.seq reads begun ∙ bit_and_mask 8 (c.seq + 1),
      )

  await-last_match :
      IsAnswerType kind
      → c.buf ≡ []
      → All IsSendable frames
      → encode_all frames ≡ ok (concat reads)
      → Only c.seq kind answer frames
      → let done = await c.seq wire reads begun in
        (done.result ≡ or_timeout (last_match c.seq kind frames none))
        × (done.written ≡ wire)
        × (lookup c.seq done.client.pending ≡ none)
        × (done.client.seq ≡ (c.seq + 1) % 2 ^ 8)
  await-last_match k empty sendable stream only =
      let parsed : frames_in reads c.buf ≡ frames =
        ap (frames_in reads) empty
        ∙ ap (λ t. t.0) (feed_pieces-encode_all frames reads sendable stream) in
      let (result, written, table, seq) =
        await-frames k (subst (Only c.seq kind answer) (sym parsed) only) in
      (
        result ∙ ap (λ (fs : List Frame). or_timeout (last_match c.seq kind fs none)) parsed,
        written,
        table,
        seq,
      )

-- What the device sends while a request is waited for, in reads cut anywhere: frames before and
-- after its answer, of which none but the answer itself answers.
pub record IsAnswered (c : GlassesClient) (reads : List Bytes) (before after : List Frame)
    (answer : Frame) : Type 0 where
  pub no_bytes : c.buf ≡ []
  pub sendable : All IsSendable (before ++ (answer ∷ after))
  pub stream : encode_all (before ++ (answer ∷ after)) ≡ ok (concat reads)
  pub only : Only c.seq 0x11 answer (before ++ (answer ∷ after))
  pub answers : matches c.seq 0x11 answer ≡ true

last_match-answer :
    (seq kind : ℕ) (before after : List Frame) (answer : Frame)
    → matches seq kind answer ≡ true
    → Only seq kind answer (before ++ (answer ∷ after))
    → last_match seq kind (before ++ (answer ∷ after)) none ≡ some answer
last_match-answer seq kind before after answer yes_it_does only =
    let (first, rest) = Only-parts seq kind answer before (answer ∷ after) only in
    let found = last_match seq kind before none in
    let here : (if matches seq kind answer then some answer else found) ≡ some answer =
      cc yes_it_does in
    last_match-append seq kind before (answer ∷ after) none
    ∙ ap (last_match seq kind after) here
    ∙ last_match-some seq kind answer after rest.1

to_response-payload :
    (f : Frame) (r : Response) → f.payload ≡ r.cmd_id ∷ r.status ∷ r.content → to_response f ≡ ok r
unfolding to_response
to_response-payload f r e =
    let long : ltb (suc (suc (length r.content))) 2 ≡ false = ground arith in
    ap (λ (p : Bytes). to_response (record f { payload = p })) e ∙ cc long

-- A request whose command is encoded gets the response that the device sends for it, with the
-- status and the data that stand in the frame, whatever other frames arrive around it and however
-- the reads cut them. Exactly the encoded command is written, the request is no longer pending, and
-- the next request has the next sequence number.
pub request-answered :
    (c : GlassesClient) (cmd_id : ℕ) (args wire : Bytes) (reads : List Bytes)
    (before after : List Frame) (answer : Frame) (response : Response)
    → encode_frame 0x10 c.seq (cmd_id ∷ args) ≡ ok wire
    → IsAnswered c reads before after answer
    → answer.payload ≡ response.cmd_id ∷ response.status ∷ response.content
    → let done = request cmd_id args reads c in
      (done.result ≡ ok response)
      × (done.written ≡ wire)
      × (lookup c.seq done.client.pending ≡ none)
      × (done.client.seq ≡ (c.seq + 1) % 2 ^ 8)
unfolding request
request-answered c cmd_id args wire reads before after answer response e h payload =
    let frames = before ++ (answer ∷ after) in
    let awaited = transact-await 0x10 0x11 (cmd_id ∷ args) wire reads frames c answer e in
    let (result, written, table, seq) =
      await-last_match 0x10 0x11 (cmd_id ∷ args) wire reads frames c answer (inr refl) h.no_bytes
        h.sendable h.stream h.only in
    let found = last_match-answer c.seq 0x11 before after answer h.answers h.only in
    let read : to_response answer ≡ ok response = to_response-payload answer response payload in
    (
      ap (λ t. t.result >>= to_response) awaited
          ∙ ap (λ r. r >>= to_response) (result ∙ ap or_timeout found)
          ∙ read,
      ap (λ t. t.written) awaited ∙ written,
      ap (λ t. lookup c.seq t.client.pending) awaited ∙ table,
      ap (λ t. t.client.seq) awaited ∙ seq,
    )

no_match :
    (seq kind : ℕ) (answer : Frame) (fs : List Frame)
    → All (λ f. matches seq kind f ≡ false) fs
    → Only seq kind answer fs × (last_match seq kind fs none ≡ none)
no_match seq kind answer [] h = (tt, refl)
no_match seq kind answer (f ∷ fs) h =
    let (only, nothing) = no_match seq kind answer fs h.1 in
    let here : (if matches seq kind f then some f else none) ≡ none = cc h.0 in
    ((λ e. cc (e, h.0), only), ap (last_match seq kind fs) here ∙ nothing)

-- A request whose command is encoded fails with a timeout where no frame that the parser finds
-- before the deadline has the type and the sequence number, in whatever bytes are in the buffer and
-- arrive: garbage, damaged and unfinished frames, and frames for others. Exactly the command is
-- written, the request is no longer pending, and the next one has the next sequence number.
pub request-unanswered :
    (c : GlassesClient) (cmd_id : ℕ) (args wire : Bytes) (reads : List Bytes)
    → encode_frame 0x10 c.seq (cmd_id ∷ args) ≡ ok wire
    → All (λ f. matches c.seq 0x11 f ≡ false) (frames_in reads c.buf)
    → let done = request cmd_id args reads c in
      (done.result ≡ err timed_out)
      × (done.written ≡ wire)
      × (lookup c.seq done.client.pending ≡ none)
      × (done.client.seq ≡ (c.seq + 1) % 2 ^ 8)
unfolding request
request-unanswered c cmd_id args wire reads e none_matches =
    let no_frame : Frame = record { kind = 0; seq = 0; payload = [] } in
    let awaited = transact-await 0x10 0x11 (cmd_id ∷ args) wire reads [] c no_frame e in
    let (only, nothing) = no_match c.seq 0x11 no_frame (frames_in reads c.buf) none_matches in
    let (result, written, table, seq) =
      await-frames 0x10 0x11 (cmd_id ∷ args) wire reads [] c no_frame (inr refl) only in
    (
      ap (λ t. t.result >>= to_response) awaited
          ∙ ap (λ r. r >>= to_response) (result ∙ ap or_timeout nothing),
      ap (λ t. t.written) awaited ∙ written,
      ap (λ t. lookup c.seq t.client.pending) awaited ∙ table,
      ap (λ t. t.client.seq) awaited ∙ seq,
    )
