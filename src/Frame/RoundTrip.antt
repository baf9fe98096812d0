-- ===== src/Frame/RoundTrip.antt =====
-- What `encode_frame` builds, `FrameParser.feed` finds.
use edu_glasses_host.Base.{
  ℕ, ◌+◌, ◌-◌, ◌*◌, ◌/◌, ◌%◌, ◌^◌, ◌≤◌, ◌<◌, ◌≡◌, refl, ap, sym, ◌∙◌, ◌∷◌, ◌++◌, bit_and, bit_or,
  length, length-append, drop, take, take-append_all, get_or-append_right, ok, append_assoc, arith,
  All-append,
}
use edu_glasses_host.Base.Bits.{bit_or_fields, bit_and_mask}
use edu_glasses_host.Base.Bytes.{
  Bytes, byte_at, slice, to_le, IsByte, IsBytes, length-to_le, to_le-IsBytes,
}
use edu_glasses_host.Stream.{found}
use edu_glasses_host.Crc16.{crc16}
use edu_glasses_host.Crc16.Bounds.{crc16-lt}
use edu_glasses_host.Frame.{
  Frame, encode_frame, frame_body, word_at, check_crc, check_length, frame_pass, max_payload, sync0,
  sync1, hdr_len, crc_len,
}

-- The bytes of a frame.
abbrev pub frame_bytes : ℕ → ℕ → Bytes → Bytes
frame_bytes kind seq payload =
    let body = frame_body kind seq payload in sync0 ∷ sync1 ∷ (body ++ to_le 2 (crc16 body 0xffff))

-- The frame that the other side reads.
abbrev pub sent_frame : ℕ → ℕ → Bytes → Frame
sent_frame kind seq payload = record {
  kind = bit_and kind 0xff;
  seq = bit_and seq 0xff;
  payload = payload;
}

pub encode_frame-eq :
    (kind seq : ℕ) (payload : Bytes)
    → length payload ≤ max_payload
    → encode_frame kind seq payload ≡ ok (frame_bytes kind seq payload)
unfolding encode_frame
encode_frame-eq kind seq payload h = ground arith

pub word_of_bytes : (v : ℕ) → v < 2 ^ 16 → bit_or (v % 256) (v / 256 % 256 * 2 ^ 8) ≡ v
word_of_bytes v h = omega (arith, bit_or_fields 8 (v % 256) (v / 256 % 256) (omega arith))

-- The tests that a whole valid frame passes.
frame_pass-found :
    (buf : Bytes) (n : ℕ)
    → byte_at buf 0 ≡ sync0
    → byte_at buf 1 ≡ sync1
    → word_at buf 5 ≡ n
    → n ≤ max_payload
    → hdr_len + n + crc_len ≤ length buf
    → crc16 (slice buf 2 (hdr_len + n)) 0xffff ≡ word_at buf (hdr_len + n)
    → frame_pass buf
      ≡ found
          (record {
            kind = byte_at buf 3;
            seq = byte_at buf 4;
            payload = drop 5 (slice buf 2 (hdr_len + n));
          })
          (hdr_len + n + crc_len)
unfolding frame_pass check_length check_crc
frame_pass-found buf n h0 h1 hn fits whole crc = ground arith

module _ (kind seq : ℕ) (payload rest : Bytes) (fits : length payload ≤ max_payload) where
  abbrev n : ℕ
  n = length payload

  abbrev body : Bytes
  body = frame_body kind seq payload

  abbrev crc : ℕ
  crc = crc16 body 0xffff

  abbrev wire : Bytes
  wire = frame_bytes kind seq payload ++ rest

  length-body : length body ≡ 5 + n
  unfolding to_le
  length-body = omega arith

  wire_split : wire ≡ (sync0 ∷ sync1 ∷ body) ++ (to_le 2 crc ++ rest)
  wire_split = ap (λ t. sync0 ∷ sync1 ∷ t) (append_assoc body (to_le 2 crc) rest)

  wire_length : word_at wire 5 ≡ n
  unfolding to_le
  wire_length = word_of_bytes n (omega arith)

  wire-body : slice wire 2 (hdr_len + n) ≡ body
  wire-body =
      let count : hdr_len + n - 2 ≡ length body = omega (arith, length-body) in
      ap (λ t. take (hdr_len + n - 2) t) (append_assoc body (to_le 2 crc) rest)
      ∙ ap (λ (k : ℕ). take k (body ++ (to_le 2 crc ++ rest))) count
      ∙ take-append_all body (to_le 2 crc ++ rest)

  after_body : (i k : ℕ) → i ≡ hdr_len + n + k → byte_at wire i ≡ byte_at (to_le 2 crc ++ rest) k
  after_body i k e =
      let place : i ≡ length (sync0 ∷ sync1 ∷ body) + k = omega (arith, length-body) in
      ap (λ t. byte_at t i) wire_split
      ∙ ap (λ (j : ℕ). byte_at ((sync0 ∷ sync1 ∷ body) ++ (to_le 2 crc ++ rest)) j) place
      ∙ get_or-append_right (sync0 ∷ sync1 ∷ body) (to_le 2 crc ++ rest) k 0

  trailer : (w : ℕ) → w < 2 ^ 16 → word_at (to_le 2 w ++ rest) 0 ≡ w
  unfolding to_le
  trailer w h = word_of_bytes w h

  wire_crc : crc < 2 ^ 16 → word_at wire (hdr_len + n) ≡ crc
  wire_crc h = cc (
    after_body (hdr_len + n) 0 (omega arith),
    after_body (hdr_len + n + 1) 1 (omega arith),
    trailer crc h,
  )

  length-wire : length wire ≡ hdr_len + n + crc_len + length rest
  length-wire = omega (
    arith,
    ap length wire_split,
    length-append body (to_le 2 crc ++ rest),
    length-append (to_le 2 crc) rest,
    length-to_le 2 crc,
    length-body,
  )

  mask-IsByte : (x : ℕ) → IsByte (bit_and x 0xff)
  mask-IsByte x = omega (arith, bit_and_mask 8 x)

  body-IsBytes : IsBytes payload → IsBytes body
  body-IsBytes h = (
    omega arith,
    (
      mask-IsByte kind,
      (mask-IsByte seq, All-append IsByte (to_le 2 n) payload (to_le-IsBytes 2 n) h),
    ),
  )

  drop_header : drop 5 (slice wire 2 (hdr_len + n)) ≡ payload
  unfolding to_le
  drop_header = ap (drop 5) wire-body

  -- The loop body recognises the frame, whatever follows it.
  pub frame_pass-frame_bytes :
      IsBytes payload
      → frame_pass (frame_bytes kind seq payload ++ rest)
        ≡ found (sent_frame kind seq payload) (length (frame_bytes kind seq payload))
  frame_pass-frame_bytes h =
      let crc-lt = crc16-lt body 0xffff (body-IsBytes h) in
      let size : hdr_len + n + crc_len ≡ length (frame_bytes kind seq payload) =
        omega (arith, length-wire, length-append (frame_bytes kind seq payload) rest) in
      frame_pass-found wire n refl refl wire_length fits (omega (arith, length-wire))
        (ap (λ t. crc16 t 0xffff) wire-body ∙ sym (wire_crc crc-lt))
      ∙ cc (drop_header, size)
