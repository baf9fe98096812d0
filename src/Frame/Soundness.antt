-- ===== src/Frame/Soundness.antt =====
-- What the parser accepts is a frame, and what it keeps is less than one.
use edu_glasses_host.Base.{
  ℕ, ◌+◌, ◌-◌, ◌≤◌, ◌<◌, ◌≡◌, ap, sym, ◌∙◌, ◌++◌, length, drop, take, length-take, length-drop,
  drop-take, drop-drop, subst, arith,
}
use edu_glasses_host.Base.Bytes.{Bytes, byte_at, slice}
use edu_glasses_host.Stream.{found, drain}
use edu_glasses_host.Stream.Parses.{drain-Parses, Parses-waits}
use edu_glasses_host.Stream.Feed
use edu_glasses_host.Crc16.{crc16}
use edu_glasses_host.Frame.{
  Frame, feed, frame_pass, check_length, check_crc, word_at, sync0, sync1, hdr_len, crc_len,
  max_payload, max_frame,
}
use edu_glasses_host.Frame.Scanner.{frame_pass-IsScanner, frame_pass-IsIdle, frame_pass-wait-lt}

-- The bytes at the front of `buf` are those of a frame `f` of `n` bytes: sync pair, any version,
-- the fields, and a checksum over what stands between.
pub record IsFrameAt (buf : Bytes) (f : Frame) (n : ℕ) : Type 0 where
  pub size : n ≡ hdr_len + length f.payload + crc_len
  pub short : length f.payload ≤ max_payload
  pub whole : n ≤ length buf
  pub starts : (byte_at buf 0 ≡ sync0) × (byte_at buf 1 ≡ sync1)
  pub fields : (byte_at buf 3 ≡ f.kind) × (byte_at buf 4 ≡ f.seq)
  pub payload_there : f.payload ≡ slice buf hdr_len (hdr_len + length f.payload)
  pub sized : word_at buf 5 ≡ length f.payload
  pub checked :
      crc16 (slice buf 2 (hdr_len + length f.payload)) 0xffff
      ≡ word_at buf (hdr_len + length f.payload)

drop-slice :
    (buf : Bytes) (m : ℕ) → drop 5 (slice buf 2 (hdr_len + m)) ≡ slice buf hdr_len (hdr_len + m)
drop-slice buf m =
    let count : hdr_len + m - 2 - 5 ≡ hdr_len + m - hdr_len = omega arith in
    drop-take 5 (hdr_len + m - 2) (drop 2 buf)
    ∙ ap (λ t. take (hdr_len + m - 2 - 5) t) (drop-drop 5 2 buf)
    ∙ ap (λ (k : ℕ). take k (drop hdr_len buf)) count

length-slice :
    (buf : Bytes) (m : ℕ) → hdr_len + m ≤ length buf → length (slice buf hdr_len (hdr_len + m)) ≡ m
length-slice buf m h =
    omega (arith, length-take (hdr_len + m - hdr_len) (drop hdr_len buf), length-drop hdr_len buf)

frame_pass_inv :
    (buf : Bytes) (f : Frame) (n : ℕ)
    → frame_pass buf ≡ found f n
    → let m = word_at buf 5 in
      (byte_at buf 0 ≡ sync0)
      × (byte_at buf 1 ≡ sync1)
      × (m ≤ max_payload)
      × (n ≤ length buf)
      × (crc16 (slice buf 2 (hdr_len + m)) 0xffff ≡ word_at buf (hdr_len + m))
      × (byte_at buf 3 ≡ f.kind)
      × (byte_at buf 4 ≡ f.seq)
      × (f.payload ≡ drop 5 (slice buf 2 (hdr_len + m)))
      × (n ≡ hdr_len + m + crc_len)
unfolding frame_pass check_length check_crc
frame_pass_inv buf f n e = ground arith

-- The parser takes a frame only where the bytes are one: an intact sync pair, a length within the
-- limit, all its bytes at hand, and a matching checksum; it reports the fields that stand there
-- and moves past exactly that frame.
pub frame_pass-IsFrameAt :
    (buf : Bytes) (f : Frame) (n : ℕ) → frame_pass buf ≡ found f n → IsFrameAt buf f n
frame_pass-IsFrameAt buf f n e =
    let (h0, h1, hm, hn, hc, hk, hs, hp, size) = frame_pass_inv buf f n e in
    let m = word_at buf 5 in
    let payload = hp ∙ drop-slice buf m in
    let count : m ≡ length f.payload =
      sym (length-slice buf m (omega arith)) ∙ sym (ap length payload) in
    record {
      size = omega arith;
      short = omega arith;
      whole = hn;
      starts = (h0, h1);
      fields = (hk, hs);
      payload_there = subst (λ (k : ℕ). f.payload ≡ slice buf hdr_len (hdr_len + k)) count payload;
      sized = count;
      checked =
          subst (λ (k : ℕ). crc16 (slice buf 2 (hdr_len + k)) 0xffff ≡ word_at buf (hdr_len + k))
            count hc;
    }

-- After any call of `feed` on any bytes the buffer holds less than one frame of the largest size,
-- so the cut of an overlong buffer never takes place: the frames and the buffer are those of the
-- bare loop.
pub feed-lt-max_frame :
    (buf input : Bytes)
    → (length (feed buf input).1 < max_frame) × (feed buf input ≡ drain frame_pass (buf ++ input))
unfolding feed
feed-lt-max_frame buf input =
    let bare =
      Feed.feed-drain frame_pass-IsScanner Feed.anything-IsKept frame_pass-IsIdle buf input tt in
    let kept = Parses-waits (drain-Parses frame_pass-IsScanner (buf ++ input)) in
    (subst (λ p. length p.1 < max_frame) (sym bare) (frame_pass-wait-lt _ kept), bare)
