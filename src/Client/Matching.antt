-- ===== src/Client/Matching.antt =====
-- A request gets the answer with its sequence number and type, whatever else arrives.
use edu_glasses_host.Base.{
  ℕ, ◌≡◌, refl, ap, sym, ◌∙◌, Bool, true, ◌&&◌, Bool-cases, inl, inr, Option, none, some, List, [],
  ◌∷◌, ◌++◌, ◌==◌, if◌then◌else◌, All, ◌⊎◌, arith,
}
use edu_glasses_host.Base.Dict.{lookup, lookup-insert}
use edu_glasses_host.Base.Bytes.{Bytes}
use edu_glasses_host.Stream.Feed
use edu_glasses_host.Frame
use edu_glasses_host.Frame.{Frame, encode_frame, frame_pass, max_buffer, max_frame}
use edu_glasses_host.Client.{
  Pending, Table, GlassesClient, answer_with, handle_frame, handle_frames, poll, wait_answer,
}

-- The frame answers a request that was sent with `seq` and expects `kind`.
abbrev pub matches : ℕ → ℕ → Frame → Bool
matches seq kind f = f.kind == kind && f.seq == seq

-- The last frame of a list that answers, or what there was before.
abbrev pub last_match : ℕ → ℕ → List Frame → Option Frame → Option Frame
last_match seq kind [] found = found
last_match seq kind (f ∷ fs) found =
    last_match seq kind fs (if matches seq kind f then some f else found)

abbrev pub IsAnswerType : ℕ → Type 0
IsAnswerType kind = (kind ≡ 0x02) ⊎ (kind ≡ 0x11)

abbrev pub entry : ℕ → Option Frame → Pending
entry kind found = record { expected_type = kind; answer = found }

same_lookup :
    (seq other : ℕ) (t : Table) (o : Option Pending)
    → (other == seq) ≡ true
    → lookup seq t ≡ o
    → lookup other t ≡ o
same_lookup seq other t o e h =
    let same : other ≡ seq = ground arith in ap (λ (k : ℕ). lookup k t) same ∙ h

answer_with-lookup :
    (seq kind : ℕ) (f : Frame) (t : Table) (found : Option Frame) (o : Option Pending)
    → lookup f.seq t ≡ o
    → lookup seq t ≡ some (entry kind found)
    → lookup seq (answer_with f o t)
      ≡ some (entry kind (if matches seq kind f then some f else found))
answer_with-lookup seq kind f t found none e h = elim (Bool-cases (f.seq == seq)) [
  | inl same ↦ cc (same_lookup seq f.seq t _ same h)
  | inr other ↦ ground (arith, other, h)
]
answer_with-lookup seq kind f t found (some p) e h = elim (Bool-cases (f.seq == seq)) [
  | inl same ↦
      let here : some p ≡ some (entry kind found) = sym e ∙ same_lookup seq f.seq t _ same h in
      ground (arith, same, h, here, lookup-insert f.seq seq (record p { answer = some f }) t)
  | inr other ↦ ground (arith, other, h, lookup-insert f.seq seq (record p { answer = some f }) t)
]

handle_frame-lookup :
    (seq kind : ℕ) (f : Frame) (t : Table) (found : Option Frame)
    → IsAnswerType kind
    → lookup seq t ≡ some (entry kind found)
    → lookup seq (handle_frame f t).1
      ≡ some (entry kind (if matches seq kind f then some f else found))
unfolding handle_frame
handle_frame-lookup seq kind f t found k h =
    ground (arith, h, k, answer_with-lookup seq kind f t found (lookup f.seq t) refl h)

handle_frames-lookup :
    (seq kind : ℕ) (fs : List Frame) (t : Table) (found : Option Frame)
    → IsAnswerType kind
    → lookup seq t ≡ some (entry kind found)
    → lookup seq (handle_frames fs t).1 ≡ some (entry kind (last_match seq kind fs found))
unfolding handle_frames
handle_frames-lookup seq kind [] t found k h = h
handle_frames-lookup seq kind (f ∷ fs) t found k h =
    handle_frames-lookup seq kind fs (handle_frame f t).1
      (if matches seq kind f then some f else found) k (handle_frame-lookup seq kind f t found k h)

-- No two frames answer differently.
abbrev pub Only : ℕ → ℕ → Frame → List Frame → Type 0
Only seq kind answer = All (λ f. matches seq kind f ≡ true → f ≡ answer)

pub last_match-some :
    (seq kind : ℕ) (answer : Frame) (fs : List Frame)
    → Only seq kind answer fs
    → last_match seq kind fs (some answer) ≡ some answer
last_match-some seq kind answer [] h = refl
last_match-some seq kind answer (f ∷ fs) h =
    let kept : (if matches seq kind f then some f else some answer) ≡ some answer =
      elim (Bool-cases (matches seq kind f)) [
        | inl same ↦ cc (h.0 same, same)
        | inr other ↦ cc other
      ] in
    ap (last_match seq kind fs) kept ∙ last_match-some seq kind answer fs h.1

pub last_match-none :
    (seq kind : ℕ) (answer : Frame) (fs : List Frame)
    → Only seq kind answer fs
    → (last_match seq kind fs none ≡ none) ⊎ (last_match seq kind fs none ≡ some answer)
last_match-none seq kind answer [] h = inl refl
last_match-none seq kind answer (f ∷ fs) h = elim (Bool-cases (matches seq kind f)) [
  | inl same ↦
      let first : (if matches seq kind f then some f else none) ≡ some answer =
        cc (h.0 same, same) in
      inr (ap (last_match seq kind fs) first ∙ last_match-some seq kind answer fs h.1)
  | inr other ↦
      let first : (if matches seq kind f then some f else none) ≡ none = cc other in
      elim (last_match-none seq kind answer fs h.1) [
        | inl e ↦ inl (ap (last_match seq kind fs) first ∙ e)
        | inr e ↦ inr (ap (last_match seq kind fs) first ∙ e)
      ]
]

pub last_match-append :
    (seq kind : ℕ) (xs ys : List Frame) (found : Option Frame)
    → last_match seq kind (xs ++ ys) found ≡ last_match seq kind ys (last_match seq kind xs found)
last_match-append seq kind [] ys found = refl
last_match-append seq kind (x ∷ xs) ys found =
    last_match-append seq kind xs ys (if matches seq kind x then some x else found)

pub Only-parts :
    (seq kind : ℕ) (answer : Frame) (xs ys : List Frame)
    → Only seq kind answer (xs ++ ys)
    → Only seq kind answer xs × Only seq kind answer ys
Only-parts seq kind answer [] ys h = (tt, h)
Only-parts seq kind answer (x ∷ xs) ys h =
    let (some_x, rest) = Only-parts seq kind answer xs ys h.1 in ((h.0, some_x), rest)

wait_answer-set :
    (seq kind : ℕ) (answer : Frame) (reads : List Bytes) (c : GlassesClient)
    → lookup seq c.pending ≡ some (entry kind (some answer))
    → (wait_answer seq reads c).1 ≡ c
unfolding wait_answer
wait_answer-set seq kind answer [] c h = refl
wait_answer-set seq kind answer (input ∷ inputs) c h = cc h

abbrev pub frames_in : List Bytes → Bytes → List Frame
frames_in reads buf = (Feed.feed_all frame_pass (Feed.cut max_buffer max_frame) buf reads).0

pub wait_answer-lookup :
    (seq kind : ℕ) (answer : Frame) (reads : List Bytes) (c : GlassesClient)
    → IsAnswerType kind
    → lookup seq c.pending ≡ some (entry kind none)
    → Only seq kind answer (frames_in reads c.buf)
    → lookup seq (wait_answer seq reads c).1.pending
      ≡ some (entry kind (last_match seq kind (frames_in reads c.buf) none))
unfolding wait_answer poll Frame.feed Feed.feed_all
wait_answer-lookup seq kind answer [] c k h only = h
wait_answer-lookup seq kind answer (input ∷ inputs) c k h only =
    let frames = (Frame.feed c.buf input).0 in
    let c' = (poll input c).1 in
    let later = frames_in inputs c'.buf in
    let (first, rest) = Only-parts seq kind answer frames later only in
    let step : lookup seq c'.pending ≡ some (entry kind (last_match seq kind frames none)) =
      handle_frames-lookup seq kind frames c.pending none k h in
    let split = last_match-append seq kind frames later none in
    let polls : (wait_answer seq (input ∷ inputs) c).1 ≡ (wait_answer seq inputs c').1 = cc h in
    let goal =
      lookup seq (wait_answer seq inputs c').1.pending
      ≡ some (entry kind (last_match seq kind (frames ++ later) none)) in
    let after : goal = elim (last_match-none seq kind answer frames first) [
      | inl nothing ↦
          let unset = step ∙ ap (λ o. some (entry kind o)) nothing in
          wait_answer-lookup seq kind answer inputs c' k unset rest
          ∙ ap (λ o. some (entry kind (last_match seq kind later o))) (sym nothing)
          ∙ ap (λ o. some (entry kind o)) (sym split)
      | inr there ↦
          let set = step ∙ ap (λ o. some (entry kind o)) there in
          ap (λ (d : GlassesClient). lookup seq d.pending)
            (wait_answer-set seq kind answer inputs c' set)
          ∙ set
          ∙ ap (λ o. some (entry kind o)) (sym (last_match-some seq kind answer later rest))
          ∙ ap (λ o. some (entry kind (last_match seq kind later o))) (sym there)
          ∙ ap (λ o. some (entry kind o)) (sym split)
    ] in
    ap (λ (d : GlassesClient). lookup seq d.pending) polls ∙ after
