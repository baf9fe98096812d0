-- ===== src/Audio/Package/Scanner.antt =====
-- The loop body of `RecordStreamParser.feed` drives the loop, and leaves less than one package.
use edu_glasses_host.Base.{
  ℕ, zero, suc, ◌+◌, ◌-◌, ◌≤◌, ◌<◌, ◌≡◌, ◌≢◌, refl, Bool-cases, inl, inr, ◌++◌, Option, none, some,
  List, length, ltb, length-append, get_or-append_left, arith,
}
use edu_glasses_host.Base.Bytes.{Bytes, byte_at, le_at, slice-append_left, le_at-append_left}
use edu_glasses_host.Stream.{wait, Advances, IsScanner}
use edu_glasses_host.Stream.Feed
use edu_glasses_host.Audio.Package.{
  record_pass, plausible_package, accept, walk, walk_sections, header_plausible, pkg_hdr_len,
  pkg_len_extra, max_buffer,
}

pub walk-append_left :
    (n : ℕ) (buf more : Bytes) (off end : ℕ)
    → end ≤ length buf
    → walk (buf ++ more) n off end ≡ walk buf n off end
unfolding walk
walk-append_left zero buf more off end h = refl
walk-append_left (suc n) buf more off end h = ground (
  arith,
  get_or-append_left buf more off 0,
  slice-append_left buf more (off + 1) (off + 1 + byte_at buf off),
  walk-append_left n buf more (off + 1 + byte_at buf off) end,
)

accept-append_left :
    (buf more : Bytes) (total : ℕ) (frames : Option (List Bytes))
    → 8 ≤ length buf
    → accept (buf ++ more) total frames ≡ accept buf total frames
accept-append_left buf more total none h = refl
accept-append_left buf more total (some frames) h = cc (
  get_or-append_left buf more 1 0 (omega arith),
  le_at-append_left 2 buf more 4 (omega arith),
  get_or-append_left buf more 6 0 (omega arith),
  get_or-append_left buf more 7 0 (omega arith),
)

plausible_package-stable :
    (buf more : Bytes) (area sections : ℕ)
    → plausible_package buf area sections ≢ wait
    → plausible_package (buf ++ more) area sections ≡ plausible_package buf area sections
unfolding plausible_package walk_sections
plausible_package-stable buf more area sections h = ground (
  arith,
  length-append buf more,
  walk-append_left sections buf more pkg_hdr_len (pkg_hdr_len + area),
  accept-append_left buf more (pkg_hdr_len + area)
      (walk buf sections pkg_hdr_len (pkg_hdr_len + area)),
)

record_pass-stable :
    (buf more : Bytes) → record_pass buf ≢ wait → record_pass (buf ++ more) ≡ record_pass buf
unfolding record_pass
record_pass-stable buf more h = ground (
  arith,
  length-append buf more,
  get_or-append_left buf more 0 0,
  get_or-append_left buf more 6 0,
  le_at-append_left 2 buf more 2,
  plausible_package-stable buf more (le_at 2 buf 2 - pkg_len_extra) (byte_at buf 6),
)

accept-Advances :
    (buf : Bytes) (total : ℕ) (frames : Option (List Bytes))
    → 0 < total
    → total ≤ length buf
    → Advances buf (accept buf total frames)
accept-Advances buf total none h k = (omega arith, omega arith)
accept-Advances buf total (some frames) h k = (h, k)

plausible_package-Advances :
    (buf : Bytes) (area sections : ℕ) → Advances buf (plausible_package buf area sections)
unfolding plausible_package
plausible_package-Advances buf area sections =
    elim (Bool-cases (ltb (length buf) (pkg_hdr_len + area))) [
      | inl short ↦ rw short tt
      | inr whole ↦ rw whole (
          accept-Advances buf _ (walk_sections buf pkg_hdr_len area sections) (omega arith)
            (ground arith))
    ]

record_pass-Advances : (buf : Bytes) → Advances buf (record_pass buf)
unfolding record_pass
record_pass-Advances buf =
    ground (arith, plausible_package-Advances buf (le_at 2 buf 2 - pkg_len_extra) (byte_at buf 6))

pub record_pass-IsScanner : IsScanner record_pass
unfolding record_pass
record_pass-IsScanner = record {
  stops = refl;
  advances = record_pass-Advances;
  stable = record_pass-stable;
}

accept-ne-wait :
    (buf : Bytes) (total : ℕ) (frames : Option (List Bytes)) → accept buf total frames ≢ wait
accept-ne-wait buf total none e = cc
accept-ne-wait buf total (some frames) e = cc

plausible_package-wait :
    (buf : Bytes) (area sections : ℕ)
    → plausible_package buf area sections ≡ wait
    → length buf < pkg_hdr_len + area
unfolding plausible_package
plausible_package-wait buf area sections e =
    ground (arith, accept-ne-wait buf _ (walk_sections buf pkg_hdr_len area sections))

pub record_pass-wait-lt : (buf : Bytes) → record_pass buf ≡ wait → length buf < pkg_hdr_len + 4096
unfolding record_pass header_plausible
record_pass-wait-lt buf e =
    ground (arith, plausible_package-wait buf (le_at 2 buf 2 - pkg_len_extra) (byte_at buf 6))

record_pass-IsBounded : Feed.IsBounded record_pass (λ _. Unit {0}) max_buffer
record_pass-IsBounded buf h e = omega (arith, record_pass-wait-lt buf e)

-- The cut of an overlong buffer never takes place.
pub record_pass-IsIdle : Feed.IsIdle record_pass (λ _. Unit {0}) (Feed.cut max_buffer 4096)
record_pass-IsIdle = Feed.cut-IsIdle max_buffer 4096 record_pass-IsBounded
