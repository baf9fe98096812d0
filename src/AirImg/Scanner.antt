-- ===== src/AirImg/Scanner.antt =====
-- The loop body of `AirImgStreamParser.feed` drives the loop.
use edu_glasses_host.Base.{
  ℕ, ◌+◌, ◌≤◌, ◌<◌, ◌≡◌, ◌≢◌, refl, ◌++◌, length, length-append, get_or-append_left, Bool-cases,
  inl, inr, ltb, Result, ok, err, arith,
}
use edu_glasses_host.Base.Bytes.{Bytes, byte_at, slice, slice-append_left}
use edu_glasses_host.Stream.{wait, Advances, IsScanner}
use edu_glasses_host.Frame.{word_at}
use edu_glasses_host.Frame.Scanner.{word_at-append_left}
use edu_glasses_host.AirImg.{
  img_pass, typed_frame, body_frame, whole_frame, fixed_len, parse_air_img_frame, accept, SubFrame,
  ParseError,
}

whole_frame-stable :
    (buf more : Bytes) (n : ℕ)
    → whole_frame buf n ≢ wait
    → whole_frame (buf ++ more) n ≡ whole_frame buf n
unfolding whole_frame
whole_frame-stable buf more n h =
    ground (arith, length-append buf more, slice-append_left buf more 0 n)

body_frame-stable :
    (buf more : Bytes) (n : ℕ)
    → body_frame buf n ≢ wait
    → body_frame (buf ++ more) n ≡ body_frame buf n
unfolding body_frame
body_frame-stable buf more n h = ground (arith, whole_frame-stable buf more (9 + n))

typed_frame-stable :
    (buf more : Bytes) (t : ℕ)
    → typed_frame buf t ≢ wait
    → typed_frame (buf ++ more) t ≡ typed_frame buf t
unfolding typed_frame
typed_frame-stable buf more t h = ground (
  arith,
  length-append buf more,
  word_at-append_left buf more 7,
  body_frame-stable buf more (word_at buf 7),
  whole_frame-stable buf more (fixed_len t),
)

img_pass-stable : (buf more : Bytes) → img_pass buf ≢ wait → img_pass (buf ++ more) ≡ img_pass buf
unfolding img_pass
img_pass-stable buf more h = ground (
  arith,
  length-append buf more,
  get_or-append_left buf more 0 0,
  get_or-append_left buf more 1 0,
  typed_frame-stable buf more (byte_at buf 0),
)

accept-Advances :
    (r : Result ParseError SubFrame) (buf : Bytes) (n : ℕ)
    → 0 < n
    → n ≤ length buf
    → Advances buf (accept r n)
accept-Advances (ok s) buf n p q = (p, q)
accept-Advances (err e) buf n p q = (omega arith, omega arith)

whole_frame-Advances : (buf : Bytes) (n : ℕ) → 0 < n → Advances buf (whole_frame buf n)
unfolding whole_frame
whole_frame-Advances buf n h = elim (Bool-cases (ltb (length buf) n)) [
  | inl short ↦ rw short tt
  | inr whole ↦
      rw whole (accept-Advances (parse_air_img_frame (slice buf 0 n)) buf n h (ground arith))
]

body_frame-Advances : (buf : Bytes) (n : ℕ) → 2 ≤ length buf → Advances buf (body_frame buf n)
unfolding body_frame
body_frame-Advances buf n h = elim (Bool-cases (ltb 4096 n)) [
  | inl long ↦ rw long (omega arith, omega arith)
  | inr fits ↦ rw fits (whole_frame-Advances buf (9 + n) (omega arith))
]

typed_frame-Advances : (buf : Bytes) (t : ℕ) → 2 ≤ length buf → Advances buf (typed_frame buf t)
unfolding typed_frame
typed_frame-Advances buf t h = ground (
  arith,
  body_frame-Advances buf (word_at buf 7),
  whole_frame-Advances buf 7,
  whole_frame-Advances buf 8,
)

img_pass-Advances : (buf : Bytes) → Advances buf (img_pass buf)
unfolding img_pass
img_pass-Advances buf = ground (arith, typed_frame-Advances buf (byte_at buf 0))

pub img_pass-IsScanner : IsScanner img_pass
unfolding img_pass
img_pass-IsScanner = record { stops = refl; advances = img_pass-Advances; stable = img_pass-stable }
