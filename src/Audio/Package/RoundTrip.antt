-- ===== src/Audio/Package/RoundTrip.antt =====
-- Packages as docs/PROTOCOL.md §6 lays them out, and that the parser finds each of them.
use edu_glasses_host.Base.{
  ℕ, ◌+◌, ◌-◌, ◌*◌, ◌^◌, ◌≤◌, ◌<◌, ◌≡◌, refl, ap, sym, ◌∙◌, true, some, List, [], ◌∷◌, ◌++◌,
  append_assoc, map, length, length-append, concat, All, All-Unit, take, take-append_all,
  drop-append_right, get_or-append_right, arith,
}
use edu_glasses_host.Base.Bytes.{Bytes, byte_at, slice, le_at, to_le, le-to_le}
use edu_glasses_host.Stream.{found, drain}
use edu_glasses_host.Stream.Parses.{Parses, Parses-front, waits, drain-eq}
use edu_glasses_host.Stream.Feed
use edu_glasses_host.Audio.Package.{
  RecordPackage, record_pass, plausible_package, walk, walk_sections, header_plausible, pkg_tag,
  pkg_hdr_len, pkg_len_extra, max_sections, max_buffer,
}
use edu_glasses_host.Audio.Package.Scanner.{record_pass-IsScanner, record_pass-IsIdle}

-- A section: a length byte, and the frame.
abbrev pub section : Bytes → Bytes
section frame = length frame ∷ frame

abbrev pub area : List Bytes → Bytes
area frames = concat (map section frames)

abbrev pub IsShort : Bytes → Type 0
IsShort frame = length frame < 256

area_bounds :
    (frames : List Bytes)
    → All IsShort frames
    → (length frames ≤ length (area frames)) × (length (area frames) ≤ length frames * 256)
area_bounds [] h = (omega arith, omega arith)
area_bounds (f ∷ frames) h =
    let (low, high) = area_bounds frames h.1 in
    (
      omega (arith, length-append f (area frames)),
      omega (arith, length-append f (area frames), h.0),
    )

-- Walking the sections behind any bytes gives back the frames.
pub walk-area :
    (frames : List Bytes) (before rest : Bytes) (off end : ℕ)
    → off ≡ length before
    → end ≡ off + length (area frames)
    → walk (before ++ (area frames ++ rest)) (length frames) off end ≡ some frames
unfolding walk
walk-area [] before rest off end h e = ground arith
walk-area (f ∷ frames) before rest off end h e =
    let buf = before ++ (area (f ∷ frames) ++ rest) in
    let next = off + 1 + length f in
    let tail = (f ++ area frames) ++ rest in
    let regroup = append_assoc f (area frames) rest in
    let moved : buf ≡ (before ++ section f) ++ (area frames ++ rest) =
      ap (λ (t : Bytes). before ++ (length f ∷ t)) regroup
      ∙ sym (append_assoc before (section f) (area frames ++ rest)) in
    let place : off ≡ length before + 0 = omega arith in
    let here : byte_at buf off ≡ length f =
      ap (λ (k : ℕ). byte_at buf k) place ∙ get_or-append_right before (length f ∷ tail) 0 0 in
    let count : next - (off + 1) ≡ length f = omega arith in
    let frame : slice buf (off + 1) next ≡ f =
      ap (take (next - (off + 1)))
        (drop-append_right before (length f ∷ tail) 1 (off + 1) (omega arith) ∙ regroup)
      ∙ ap (λ (k : ℕ). take k (f ++ (area frames ++ rest))) count
      ∙ take-append_all f (area frames ++ rest) in
    let later : walk buf (length frames) next end ≡ some frames =
      ap (λ (t : Bytes). walk t (length frames) next end) moved
      ∙ walk-area frames (before ++ section f) rest next end
          (omega (arith, length-append before (section f)))
          (omega (arith, length-append f (area frames))) in
    ground (arith, length-append f (area frames))

-- A package with its frames; `reserved` and `cmd` are bytes, and the number of sections is that
-- of the frames.
pub record Sent : Type 0 where
  pub cmd : ℕ
  pub sn : ℕ
  pub reserved : ℕ
  pub frames : List Bytes

abbrev pub sent_bytes : Sent → Bytes
sent_bytes p =
    pkg_tag
    ∷ p.cmd
    ∷ (to_le 2 (length (area p.frames) + pkg_len_extra)
        ++ (to_le 2 p.sn ++ (length p.frames ∷ p.reserved ∷ area p.frames)))

abbrev pub package_of : Sent → RecordPackage
package_of p = record {
  cmd = p.cmd;
  sn = p.sn;
  sections = length p.frames;
  reserved = p.reserved;
  frames = p.frames;
}

-- One to sixteen frames of at most 255 bytes, and a 16-bit sequence number.
pub record IsSendable (p : Sent) : Type 0 where
  pub some_frames : 1 ≤ length p.frames
  pub few_frames : length p.frames ≤ max_sections
  pub short_frames : All IsShort p.frames
  pub sn_fits : p.sn < 2 ^ 16

-- The tests that a whole valid package passes.
record_pass-found :
    (buf : Bytes) (size sections sn : ℕ) (frames : List Bytes)
    → pkg_hdr_len + size ≤ length buf
    → byte_at buf 0 ≡ pkg_tag
    → le_at 2 buf 2 ≡ size + pkg_len_extra
    → byte_at buf 6 ≡ sections
    → le_at 2 buf 4 ≡ sn
    → header_plausible sections size ≡ true
    → walk buf sections pkg_hdr_len (pkg_hdr_len + size) ≡ some frames
    → record_pass buf
      ≡ found
          (record {
            cmd = byte_at buf 1;
            sn = sn;
            sections = sections;
            reserved = byte_at buf 7;
            frames = frames;
          })
          (pkg_hdr_len + size)
unfolding record_pass plausible_package walk_sections
record_pass-found buf size sections sn frames whole tag len sec seq plausible walked = ground arith

header_plausible-true :
    (sections size : ℕ)
    → 1 ≤ sections
    → sections ≤ max_sections
    → sections ≤ size
    → size ≤ sections * 256
    → header_plausible sections size ≡ true
unfolding header_plausible
header_plausible-true sections size a b c d = ground arith

module _ (p : Sent) (rest : Bytes) (ok : IsSendable p) where
  abbrev size : ℕ
  size = length (area p.frames)

  abbrev wire : Bytes
  wire = sent_bytes p ++ rest

  length-wire : length wire ≡ pkg_hdr_len + size + length rest
  unfolding to_le
  length-wire = omega (arith, length-append (area p.frames) rest)

  -- The header's eight bytes, and the sections.
  abbrev header : Bytes
  header =
      pkg_tag
      ∷ p.cmd
      ∷ (to_le 2 (size + pkg_len_extra) ++ (to_le 2 p.sn ++ (length p.frames ∷ p.reserved ∷ [])))

  wire-walk : walk wire (length p.frames) pkg_hdr_len (pkg_hdr_len + size) ≡ some p.frames
  unfolding to_le
  wire-walk = walk-area p.frames header rest pkg_hdr_len (pkg_hdr_len + size) (omega arith) refl

  -- The loop body recognises the package, whatever follows it.
  pub record_pass-sent_bytes :
      record_pass (sent_bytes p ++ rest) ≡ found (package_of p) (length (sent_bytes p))
  unfolding to_le
  record_pass-sent_bytes =
      let (low, high) = area_bounds p.frames ok.short_frames in
      let fits : size + pkg_len_extra < 256 ^ 2 = omega (arith, ok.few_frames) in
      let total : pkg_hdr_len + size ≡ length (sent_bytes p) =
        omega (arith, length-wire, length-append (sent_bytes p) rest) in
      record_pass-found wire size (length p.frames) p.sn p.frames (omega (arith, length-wire)) refl
        (le-to_le 2 (size + pkg_len_extra) _ fits) refl (le-to_le 2 p.sn _ ok.sn_fits)
        (header_plausible-true (length p.frames) size ok.some_frames ok.few_frames low high)
        wire-walk
      ∙ ap (found (package_of p)) total

sent-Parses :
    (ps : List Sent)
    → All IsSendable ps
    → Parses record_pass (concat (map sent_bytes ps)) (map package_of ps) []
sent-Parses [] h = waits record_pass-IsScanner.stops
sent-Parses (p ∷ ps) (h, hs) =
    Parses-front (sent_bytes p) (concat (map sent_bytes ps)) (record_pass-sent_bytes p _ h)
      (sent-Parses ps hs)

-- The calls of `feed` on the pieces of a stream, from the buffer of a new parser.
abbrev pub feed_pieces : List Bytes → List RecordPackage × Bytes
feed_pieces = Feed.feed_all record_pass (Feed.cut max_buffer 4096) []

-- However a stream of packages is cut into reads, the parser returns those packages with their
-- frames, in order, and keeps nothing.
pub feed_pieces-sent_bytes :
    (ps : List Sent) (pieces : List Bytes)
    → All IsSendable ps
    → concat pieces ≡ concat (map sent_bytes ps)
    → feed_pieces pieces ≡ (map package_of ps, [])
feed_pieces-sent_bytes ps pieces h e =
    Feed.feed_all-concat record_pass-IsScanner Feed.anything-IsKept record_pass-IsIdle pieces [] tt
      (All-Unit pieces) record_pass-IsScanner.stops
    ∙ ap (drain record_pass) e
    ∙ drain-eq record_pass-IsScanner (sent-Parses ps h)
