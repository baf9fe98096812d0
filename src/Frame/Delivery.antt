-- ===== src/Frame/Delivery.antt =====
-- A stream of encoded frames, delivered in pieces.
use edu_glasses_host.Base.{
  ◌≤◌, ◌<◌, ◌≡◌, ◌∙◌, subst, List, [], ◌∷◌, ◌++◌, length, concat, All, All-Unit, ok, ◌>>=◌, Result,
  bind-eq-ok, arith,
}
use edu_glasses_host.Base.Bits.{bit_and_mask}
use edu_glasses_host.Base.Bytes.{Bytes, IsBytes}
use edu_glasses_host.Stream.{found}
use edu_glasses_host.Stream.Parses.{Parses, Parses-front, waits, drain-eq}
use edu_glasses_host.Stream.Feed
use edu_glasses_host.Frame.{
  Frame, EncodeError, encode_frame, frame_pass, feed, max_buffer, max_frame, max_payload,
}
use edu_glasses_host.Frame.Scanner.{frame_pass-IsScanner, frame_pass-IsIdle}
use edu_glasses_host.Frame.RoundTrip.{frame_bytes, sent_frame, frame_pass-frame_bytes}

-- A frame whose fields are bytes.
pub record IsSendable (f : Frame) : Type 0 where
  pub kind_byte : f.kind < 256
  pub seq_byte : f.seq < 256
  pub payload_bytes : IsBytes f.payload

-- The frames of a list, encoded one after the other.
unfoldable pub encode_all : List Frame → Result EncodeError Bytes
encode_all [] = ok []
encode_all (f ∷ fs) = do
  wire ← encode_frame f.kind f.seq f.payload
  rest ← encode_all fs
  ok (wire ++ rest)

-- The calls of `feed` on the pieces of a stream, from the buffer of a new parser.
abbrev pub feed_pieces : List Bytes → List Frame × Bytes
feed_pieces = Feed.feed_all frame_pass (Feed.cut max_buffer max_frame) []

encode_frame_inv :
    (f : Frame) (wire : Bytes)
    → encode_frame f.kind f.seq f.payload ≡ ok wire
    → (length f.payload ≤ max_payload) × (frame_bytes f.kind f.seq f.payload ≡ wire)
unfolding encode_frame
encode_frame_inv f wire e = ground arith

sent_frame-id : (f : Frame) → IsSendable f → sent_frame f.kind f.seq f.payload ≡ f
sent_frame-id f s =
    ground (arith, s.kind_byte, s.seq_byte, bit_and_mask 8 f.kind, bit_and_mask 8 f.seq)

encode_all-Parses :
    (fs : List Frame) (stream : Bytes)
    → All IsSendable fs
    → encode_all fs ≡ ok stream
    → Parses frame_pass stream fs []
unfolding encode_all
encode_all-Parses [] stream s e =
    let nothing : [] ≡ stream = cc in
    subst (λ (t : Bytes). Parses frame_pass t [] []) nothing (waits frame_pass-IsScanner.stops)
encode_all-Parses (f ∷ fs) stream s e =
    let (wire, encoded, later) = bind-eq-ok (encode_frame f.kind f.seq f.payload) _ e in
    let (rest, encoded', whole) = bind-eq-ok (encode_all fs) _ later in
    let (fits, bytes) = encode_frame_inv f wire encoded in
    let seen = frame_pass-frame_bytes f.kind f.seq f.payload rest fits s.0.payload_bytes in
    let here : frame_pass (wire ++ rest) ≡ found f (length wire) =
      cc (seen, bytes, sent_frame-id f s.0) in
    let same : wire ++ rest ≡ stream = cc in
    subst (λ (t : Bytes). Parses frame_pass t (f ∷ fs) []) same
      (Parses-front wire rest here (encode_all-Parses fs rest s.1 encoded'))

-- Every list of frames that `encode_frame` accepts comes out of the parser as it was, in order and
-- with no byte left over, whatever the reads into which the stream was cut.
pub feed_pieces-encode_all :
    (fs : List Frame) (pieces : List Bytes)
    → All IsSendable fs
    → encode_all fs ≡ ok (concat pieces)
    → feed_pieces pieces ≡ (fs, [])
feed_pieces-encode_all fs pieces s e =
    Feed.feed_all-concat frame_pass-IsScanner Feed.anything-IsKept frame_pass-IsIdle pieces [] tt
      (All-Unit pieces) frame_pass-IsScanner.stops
    ∙ drain-eq frame_pass-IsScanner (encode_all-Parses fs (concat pieces) s e)

-- On any bytes at all, valid or not, the frames found and the buffer kept depend only on the
-- stream: reading it in pieces is reading it in one call of `feed`.
pub feed_pieces-concat : (pieces : List Bytes) → feed_pieces pieces ≡ feed [] (concat pieces)
unfolding feed
feed_pieces-concat pieces =
    Feed.feed_all-feed frame_pass-IsScanner Feed.anything-IsKept frame_pass-IsIdle pieces tt
      (All-Unit pieces) tt
