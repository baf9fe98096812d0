-- ===== src/Audio/Package.antt =====
-- Audio packages: `RecordStreamParser` of looktech_glasses_sdk/audio_client.py.
pub mod Scanner
pub mod RoundTrip
mod Tests
use edu_glasses_host.Base.{
  ℕ, zero, suc, ◌+◌, ◌-◌, ◌*◌, Bool, not, ◌&&◌, ◌||◌, Option, none, some, List, [], ◌∷◌, ltb, leb,
  ◌==◌, if◌then◌else◌, length,
}
use edu_glasses_host.Base.Bytes.{Bytes, byte_at, slice, le_at, le}
use edu_glasses_host.Stream.{Verdict, wait, skip, found}
use edu_glasses_host.Stream.Feed

abbrev pub pkg_tag : ℕ
pkg_tag = 0x52

abbrev pub pkg_hdr_len : ℕ
pkg_hdr_len = 8

abbrev pub pkg_len_extra : ℕ
pkg_len_extra = 4

abbrev pub max_sections : ℕ
max_sections = 16

abbrev pub max_section_bytes : ℕ
max_section_bytes = 1 + 255

pub record RecordPackage : Type 0 where
  pub cmd : ℕ
  pub sn : ℕ
  pub sections : ℕ
  pub reserved : ℕ
  pub frames : List Bytes

-- `_header_plausible`, for an area that is not negative.
unfoldable pub header_plausible : ℕ → ℕ → Bool
header_plausible sections section_area =
    (leb 1 sections && leb sections max_sections)
    && (leb sections section_area && leb section_area (sections * max_section_bytes))

abbrev pub push_frame : Bytes → Option (List Bytes) → Option (List Bytes)
push_frame frame none = none
push_frame frame (some frames) = some (frame ∷ frames)

-- The loop of `_walk_sections`, with the sections left, at `off` and up to `end`.
unfoldable pub walk : Bytes → ℕ → ℕ → ℕ → Option (List Bytes)
walk buf zero off end = if off == end then some [] else none
walk buf (suc n) off end =
    let frame_len = byte_at buf off in
    let next = off + 1 + frame_len in
    let rest = walk buf n next end in
    if leb end off
    then none
    else if ltb end next
    then none
    else push_frame (slice buf (off + 1) next) rest

unfoldable pub walk_sections : Bytes → ℕ → ℕ → ℕ → Option (List Bytes)
unfolding walk
walk_sections buf start section_area sections = walk buf sections start (start + section_area)

abbrev pub accept : Bytes → ℕ → Option (List Bytes) → Verdict RecordPackage
accept buf total none = skip 1
accept buf total (some frames) =
    found
      (record {
        cmd = byte_at buf 1;
        sn = le_at 2 buf 4;
        sections = byte_at buf 6;
        reserved = byte_at buf 7;
        frames = frames;
      })
      total

-- The header gives `sections` sections in `section_area` bytes.
unfoldable pub plausible_package : Bytes → ℕ → ℕ → Verdict RecordPackage
plausible_package buf section_area sections =
    let total = pkg_hdr_len + section_area in
    if ltb (length buf) total
    then wait
    else accept buf total (walk_sections buf pkg_hdr_len section_area sections)

-- One pass of the loop of `RecordStreamParser.feed` on the bytes from `pos` on. Where the length
-- field is below 4 the source's section area is negative and thus not plausible.
unfoldable pub record_pass : Bytes → Verdict RecordPackage
record_pass buf =
    if ltb (length buf) pkg_hdr_len
    then wait
    else if not (byte_at buf 0 == pkg_tag)
    then skip 1
    else if ltb (le_at 2 buf 2) pkg_len_extra
        || not (header_plausible (byte_at buf 6) (le_at 2 buf 2 - pkg_len_extra))
    then skip 1
    else plausible_package buf (le_at 2 buf 2 - pkg_len_extra) (byte_at buf 6)

abbrev pub max_buffer : ℕ
max_buffer = 64 * 1024

-- `RecordStreamParser.feed`: the packages found, and the buffer kept.
unfoldable pub feed : Bytes → Bytes → List RecordPackage × Bytes
unfolding Feed.feed Feed.cut record_pass plausible_package walk_sections header_plausible le
feed = Feed.feed record_pass (Feed.cut max_buffer 4096)
