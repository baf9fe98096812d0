-- ===== src/Frame/Scanner.antt =====
-- The loop body of `FrameParser.feed` drives the loop, and leaves less than one frame behind.
use edu_glasses_host.Base.{
  ℕ, ◌+◌, ◌≤◌, ◌<◌, ◌≡◌, ◌≢◌, refl, ◌++◌, length, length-append, get_or-append_left, arith,
}
use edu_glasses_host.Base.Bytes.{Bytes, slice-append_left}
use edu_glasses_host.Stream.{wait, Advances, IsScanner}
use edu_glasses_host.Stream.Feed
use edu_glasses_host.Frame.{
  word_at, check_crc, check_length, frame_pass, hdr_len, crc_len, max_frame, max_buffer,
}

pub word_at-append_left :
    (buf more : Bytes) (i : ℕ) → i + 2 ≤ length buf → word_at (buf ++ more) i ≡ word_at buf i
word_at-append_left buf more i h = cc (
  get_or-append_left buf more i 0 (omega arith),
  get_or-append_left buf more (i + 1) 0 (omega arith),
)

check_crc-stable :
    (buf more : Bytes) (n : ℕ)
    → hdr_len + n + crc_len ≤ length buf
    → check_crc (buf ++ more) n ≡ check_crc buf n
unfolding check_crc
check_crc-stable buf more n h = cc (
  slice-append_left buf more 2 (hdr_len + n) (omega arith) (omega arith),
  word_at-append_left buf more (hdr_len + n) (omega arith),
  get_or-append_left buf more 3 0 (omega arith),
  get_or-append_left buf more 4 0 (omega arith),
)

check_length-stable :
    (buf more : Bytes) (n : ℕ)
    → check_length buf n ≢ wait
    → check_length (buf ++ more) n ≡ check_length buf n
unfolding check_length
check_length-stable buf more n h =
    ground (arith, length-append buf more, check_crc-stable buf more n)

frame_pass-stable :
    (buf more : Bytes) → frame_pass buf ≢ wait → frame_pass (buf ++ more) ≡ frame_pass buf
unfolding frame_pass
frame_pass-stable buf more h = ground (
  arith,
  length-append buf more,
  get_or-append_left buf more 0 0,
  get_or-append_left buf more 1 0,
  word_at-append_left buf more 5,
  check_length-stable buf more (word_at buf 5),
)

check_crc-Advances :
    (buf : Bytes) (n : ℕ) → hdr_len + n + crc_len ≤ length buf → Advances buf (check_crc buf n)
unfolding check_crc
check_crc-Advances buf n h = ground arith

check_length-Advances : (buf : Bytes) (n : ℕ) → 9 ≤ length buf → Advances buf (check_length buf n)
unfolding check_length
check_length-Advances buf n h = ground (arith, check_crc-Advances buf n)

frame_pass-Advances : (buf : Bytes) → Advances buf (frame_pass buf)
unfolding frame_pass
frame_pass-Advances buf = ground (arith, check_length-Advances buf (word_at buf 5))

pub frame_pass-wait-lt : (buf : Bytes) → frame_pass buf ≡ wait → length buf < max_frame
unfolding frame_pass check_crc
frame_pass-wait-lt buf e = ground arith

pub frame_pass-IsScanner : IsScanner frame_pass
unfolding frame_pass
frame_pass-IsScanner = record {
  stops = refl;
  advances = frame_pass-Advances;
  stable = frame_pass-stable;
}

frame_pass-IsBounded : Feed.IsBounded frame_pass (λ _. Unit {0}) max_buffer
frame_pass-IsBounded buf h e = omega (arith, frame_pass-wait-lt buf e)

-- The cut of an overlong buffer never takes place.
pub frame_pass-IsIdle : Feed.IsIdle frame_pass (λ _. Unit {0}) (Feed.cut max_buffer max_frame)
frame_pass-IsIdle = Feed.cut-IsIdle max_buffer max_frame frame_pass-IsBounded
