-- ===== src/AirImg/RoundTrip.antt =====
-- The sub-frames as docs/PROTOCOL.md §5 and the comments of looktech_glasses_sdk/protocol.py lay
-- them out, and that the parser finds each of them.
use edu_glasses_host.Base.{
  ℕ, ◌+◌, ◌-◌, ◌^◌, ◌≤◌, ◌<◌, ◌≡◌, refl, ap, sym, ◌∙◌, List, [], ◌∷◌, ◌++◌, map, length,
  length-append, concat, All, take, take_all, take-append_all, ok, true, arith,
}
use edu_glasses_host.Base.Bytes.{Bytes, byte_at, slice, le_at, to_le, le-to_le}
use edu_glasses_host.Stream.{found}
use edu_glasses_host.Stream.Parses.{Parses, Parses-front, waits}
use edu_glasses_host.Frame.{word_at}
use edu_glasses_host.Frame.RoundTrip.{word_of_bytes}
use edu_glasses_host.AirImg.{
  SubFrame, air_img_head, air_img_body, air_img_tail, air_img_data_type_image, format_jpeg,
  parse_air_img_frame, parse_body, whole_frame, body_frame, typed_frame, is_start, img_pass,
}
use edu_glasses_host.AirImg.Scanner.{img_pass-IsScanner}

-- A sub-frame that the device sends, of a group and with a sequence number.
pub data Sent : Type 0 where
  head : ℕ → ℕ → ℕ → Sent
  body : ℕ → ℕ → Bytes → Sent
  tail : ℕ → ℕ → Sent

-- Its bytes.
abbrev pub sent_bytes : Sent → Bytes
sent_bytes (head g seq format) =
    air_img_head ∷ air_img_data_type_image ∷ g ∷ (to_le 4 seq ++ (format ∷ []))
sent_bytes (body g seq chunk) =
    air_img_body ∷ air_img_data_type_image ∷ g ∷ (to_le 4 seq ++ (to_le 2 (length chunk) ++ chunk))
sent_bytes (tail g seq) = air_img_tail ∷ air_img_data_type_image ∷ g ∷ to_le 4 seq

-- What the host makes of it.
abbrev pub sub_of : Sent → SubFrame
sub_of (head g seq format) = record {
  frame_type = air_img_head;
  data_type = air_img_data_type_image;
  group_id = g;
  sequence = seq;
  img_format = format;
  chunk = [];
}
sub_of (body g seq chunk) = record {
  frame_type = air_img_body;
  data_type = air_img_data_type_image;
  group_id = g;
  sequence = seq;
  img_format = format_jpeg;
  chunk = chunk;
}
sub_of (tail g seq) = record {
  frame_type = air_img_tail;
  data_type = air_img_data_type_image;
  group_id = g;
  sequence = seq;
  img_format = format_jpeg;
  chunk = [];
}

-- Its numbers fit their fields, and the data is no longer than the parser allows.
abbrev pub IsSendable : Sent → Type 0
IsSendable (head g seq format) = seq < 2 ^ 32
IsSendable (body g seq chunk) = (seq < 2 ^ 32) × (length chunk ≤ 4096)
IsSendable (tail g seq) = seq < 2 ^ 32

whole_frame-found :
    (buf : Bytes) (n : ℕ) (sub : SubFrame)
    → n ≤ length buf
    → parse_air_img_frame (slice buf 0 n) ≡ ok sub
    → whole_frame buf n ≡ found sub n
unfolding whole_frame
whole_frame-found buf n sub h e = ground arith

img_pass-typed :
    (buf : Bytes)
    → 2 ≤ length buf
    → is_start (byte_at buf 0) (byte_at buf 1) ≡ true
    → img_pass buf ≡ typed_frame buf (byte_at buf 0)
unfolding img_pass
img_pass-typed buf h e = ground arith

-- A body whose length field says `n`.
typed_frame-body :
    (buf : Bytes) (n : ℕ)
    → word_at buf 7 ≡ n
    → n ≤ 4096
    → 9 + n ≤ length buf
    → typed_frame buf air_img_body ≡ whole_frame buf (9 + n)
unfolding typed_frame body_frame
typed_frame-body buf n e small whole = ground arith

img_pass-head :
    (g seq format : ℕ) (rest : Bytes)
    → seq < 2 ^ 32
    → img_pass (sent_bytes (head g seq format) ++ rest) ≡ found (sub_of (head g seq format)) 8
unfolding is_start typed_frame parse_air_img_frame to_le
img_pass-head g seq format rest h =
    img_pass-typed _ (omega arith) refl
    ∙ whole_frame-found _ 8 _ (omega arith)
        (ap (λ (k : ℕ). ok (sub_of (head g k format))) (le-to_le 4 seq (format ∷ []) h))

img_pass-tail :
    (g seq : ℕ) (rest : Bytes)
    → seq < 2 ^ 32
    → img_pass (sent_bytes (tail g seq) ++ rest) ≡ found (sub_of (tail g seq)) 7
unfolding is_start typed_frame parse_air_img_frame to_le
img_pass-tail g seq rest h =
    img_pass-typed _ (omega arith) refl
    ∙ whole_frame-found _ 7 _ (omega arith)
        (ap (λ (k : ℕ). ok (sub_of (tail g k))) (le-to_le 4 seq [] h))

parse-body :
    (payload : Bytes) (n : ℕ)
    → length payload ≡ 9 + n
    → byte_at payload 0 ≡ air_img_body
    → le_at 2 payload 7 ≡ n
    → parse_air_img_frame payload
      ≡ ok (record {
        frame_type = byte_at payload 0;
        data_type = byte_at payload 1;
        group_id = byte_at payload 2;
        sequence = le_at 4 payload 3;
        img_format = format_jpeg;
        chunk = slice payload 9 (9 + n);
      })
unfolding parse_air_img_frame parse_body
parse-body payload n size kind e = ground arith

module _ (g seq : ℕ) (chunk rest : Bytes) (h : seq < 2 ^ 32) (k : length chunk ≤ 4096) where
  abbrev n : ℕ
  n = length chunk

  abbrev wire : Bytes
  wire = sent_bytes (body g seq chunk)

  wire_chunk : slice wire 9 (9 + n) ≡ chunk
  unfolding to_le
  wire_chunk = take_all chunk (9 + n - 9) (omega arith)

  wire_sequence : le_at 4 wire 3 ≡ seq
  unfolding to_le
  wire_sequence = le-to_le 4 seq (to_le 2 n ++ chunk) h

  length-wire : length wire ≡ 9 + n
  unfolding to_le
  length-wire = omega arith

  wire_size : le_at 2 wire 7 ≡ n
  unfolding to_le
  wire_size = le-to_le 2 n chunk (omega arith)

  wire_word : word_at (wire ++ rest) 7 ≡ n
  unfolding to_le
  wire_word = word_of_bytes n (omega arith)

  wire_front : slice (wire ++ rest) 0 (9 + n) ≡ wire
  wire_front =
      let count : 9 + n - 0 ≡ length wire = omega (arith, length-wire) in
      ap (λ (m : ℕ). take m (wire ++ rest)) count ∙ take-append_all wire rest

  parse-wire : parse_air_img_frame wire ≡ ok (sub_of (body g seq chunk))
  parse-wire = parse-body wire n length-wire refl wire_size ∙ cc (wire_chunk, wire_sequence)

  img_pass-body : img_pass (wire ++ rest) ≡ found (sub_of (body g seq chunk)) (length wire)
  unfolding is_start
  img_pass-body =
      let whole : 9 + n ≤ length (wire ++ rest) =
        omega (arith, length-append wire rest, length-wire) in
      img_pass-typed (wire ++ rest) (omega arith) refl
      ∙ typed_frame-body (wire ++ rest) n wire_word k whole
      ∙ whole_frame-found (wire ++ rest) (9 + n) (sub_of (body g seq chunk)) whole
          (ap parse_air_img_frame wire_front ∙ parse-wire)
      ∙ ap (found (sub_of (body g seq chunk))) (sym length-wire)

-- The loop body recognises each sub-frame, whatever follows it.
pub img_pass-sent_bytes :
    (s : Sent) (rest : Bytes)
    → IsSendable s
    → img_pass (sent_bytes s ++ rest) ≡ found (sub_of s) (length (sent_bytes s))
unfolding to_le
img_pass-sent_bytes (head g seq format) rest h = img_pass-head g seq format rest h
img_pass-sent_bytes (body g seq chunk) rest h = img_pass-body g seq chunk rest h.0 h.1
img_pass-sent_bytes (tail g seq) rest h = img_pass-tail g seq rest h

pub sent-Parses :
    (sent : List Sent)
    → All IsSendable sent
    → Parses img_pass (concat (map sent_bytes sent)) (map sub_of sent) []
sent-Parses [] h = waits img_pass-IsScanner.stops
sent-Parses (s ∷ sent) (h, hs) =
    Parses-front (sent_bytes s) (concat (map sent_bytes sent)) (img_pass-sent_bytes s _ h)
      (sent-Parses sent hs)
