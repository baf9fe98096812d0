-- ===== src/Audio/Sink/RoundTrip.antt =====
-- The raw file can be read back, and the header of a decoder's frame is removed.
use edu_glasses_host.Base.{
  ℕ, ◌+◌, ◌^◌, ◌/◌, ◌%◌, ◌<◌, ◌≡◌, ◌≢◌, refl, ap, sym, ◌∙◌, some, take, drop, List, [], ◌∷◌, ◌++◌,
  append_assoc, append-nil, length, All, arith,
}
use edu_glasses_host.Base.Bytes.{Bytes}
use edu_glasses_host.Audio.Package.{walk}
use edu_glasses_host.Audio.Package.RoundTrip.{section, area, IsShort, walk-area}
use edu_glasses_host.Audio.Sink.{
  Sink, write, handle_raw, be_from, extract_opus_packet, frame_header_len,
}

-- A sink fed with each frame in turn.
abbrev pub handle_all : (Bytes → Sink → Sink) → List Bytes → Sink → Sink
handle_all handle [] s = s
handle_all handle (frame ∷ frames) s = handle_all handle frames (handle frame s)

pub raw_file :
    (frames : List Bytes) (s : Sink)
    → All IsShort frames
    → let t = handle_all handle_raw frames s in
      (t.file ≡ s.file ++ area frames)
      × (t.frames_decoded ≡ s.frames_decoded + length frames)
      × (t.decode_errors ≡ s.decode_errors)
unfolding handle_raw
raw_file [] s h = (sym (append-nil s.file), omega arith, refl)
raw_file (f ∷ frames) s h =
    let taken : handle_raw f s ≡ write (section f) s = ground (arith, h.0) in
    let (file, count, errors) = raw_file frames (write (section f) s) h.1 in
    (
      ap (λ t. (handle_all handle_raw frames t).file) taken
          ∙ file
          ∙ append_assoc s.file (section f) (area frames),
      ap (λ t. (handle_all handle_raw frames t).frames_decoded) taken ∙ omega (arith, count),
      ap (λ t. (handle_all handle_raw frames t).decode_errors) taken ∙ errors,
    )

-- The file written by the raw sink, read as the section area of a package is, gives back every
-- frame stored, in order, and the number of frames is the one that the sink counted.
pub walk-handle_raw :
    (frames : List Bytes) (s : Sink)
    → s.file ≡ []
    → All IsShort frames
    → let t = handle_all handle_raw frames s in
      (walk t.file (length frames) 0 (length t.file) ≡ some frames)
      × (t.frames_decoded ≡ s.frames_decoded + length frames)
walk-handle_raw frames s new h =
    let t = handle_all handle_raw frames s in
    let (file, count, errors) = raw_file frames s h in
    let whole : t.file ≡ area frames = file ∙ ap (λ (k : Bytes). k ++ area frames) new in
    let padded : t.file ≡ area frames ++ [] = whole ∙ sym (append-nil (area frames)) in
    (
      ap (λ (k : Bytes). walk k (length frames) 0 (length t.file)) padded
          ∙ walk-area frames [] [] 0 (length t.file) refl (omega (arith, ap length whole)),
      count,
    )

-- The header of a frame of the encoder: the length and the range, big-endian.
abbrev pub to_be : ℕ → Bytes
to_be n = n / 2 ^ 24 ∷ n / 2 ^ 16 % 256 ∷ n / 2 ^ 8 % 256 ∷ n % 256 ∷ []

be_from-to_be : (n : ℕ) → be_from 0 (to_be n) ≡ n
unfolding be_from
be_from-to_be n = omega arith

extract_matching :
    (frame : Bytes)
    → frame_header_len < length frame
    → be_from 0 (take 4 frame) + frame_header_len ≡ length frame
    → extract_opus_packet frame ≡ drop frame_header_len frame
unfolding extract_opus_packet
extract_matching frame h e = ground arith

-- A packet that is not empty comes out from behind its header, whatever the range says. A frame
-- whose first bytes are not the length of the rest stays as it is.
pub extract_opus_packet-to_be :
    (packet frame : Bytes) (a b c d : ℕ)
    → packet ≢ []
    → be_from 0 (take 4 frame) + frame_header_len ≢ length frame
    → (extract_opus_packet (to_be (length packet) ++ (a ∷ b ∷ c ∷ d ∷ packet)) ≡ packet)
      × (extract_opus_packet frame ≡ frame)
unfolding extract_opus_packet
extract_opus_packet-to_be [] frame a b c d h other = absurd (h refl)
extract_opus_packet-to_be (x ∷ packet) frame a b c d h other =
    let n = length (x ∷ packet) in
    (
      extract_matching (to_be n ++ (a ∷ b ∷ c ∷ d ∷ x ∷ packet)) (omega arith)
          (omega (arith, be_from-to_be n)),
      ground arith,
    )
