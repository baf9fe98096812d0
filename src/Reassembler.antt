-- ===== src/Reassembler.antt =====
-- `ImageReassembler` of looktech_glasses_sdk/protocol.py: images from sub-frames.
pub mod Delivery
pub mod Integrity
pub mod Counters
mod Tests
use edu_glasses_host.Base.{
  ℕ, ◌+◌, Bool, true, false, not, ◌&&◌, ◌||◌, Option, none, some, List, [], ◌∷◌, ◌++◌, ◌==◌,
  if◌then◌else◌, concat, ok, err,
}
use edu_glasses_host.Base.Bytes.{Bytes}
use edu_glasses_host.AirImg.{
  SubFrame, ParseError, parse_air_img_frame, air_img_head, air_img_body, format_jpeg,
}

-- The texts of `last_error`, with the numbers that they show.
pub data Problem : Type 0 where
  malformed : ParseError → Problem
  new_head : ℕ → ℕ → Problem
  body_group : ℕ → ℕ → Problem
  body_sequence : ℕ → ℕ → Problem
  tail_mismatch : ℕ → ℕ → ℕ → ℕ → Problem

-- `CompletedImage`; `content` is the source's `data`.
pub record CompletedImage : Type 0 where
  pub content : Bytes
  pub group_id : ℕ
  pub img_format : ℕ

pub record Reassembler : Type 0 where
  pub collecting : Bool
  pub broken : Bool
  pub group_id : ℕ
  pub expected_seq : ℕ
  pub img_format : ℕ
  pub chunks : List Bytes
  pub last_error : Option Problem
  pub images_completed : ℕ
  pub images_dropped : ℕ

-- `ImageReassembler.__init__`
abbrev pub initial : Reassembler
initial = record {
  collecting = false;
  broken = false;
  group_id = 0;
  expected_seq = 0;
  img_format = format_jpeg;
  chunks = [];
  last_error = none;
  images_completed = 0;
  images_dropped = 0;
}

-- What a call returns, and the object after it.
abbrev pub Outcome : Type 0
Outcome = Option CompletedImage × Reassembler

abbrev has_chunks : List Bytes → Bool
has_chunks [] = false
has_chunks (c ∷ cs) = true

unfoldable pub reset : Reassembler → Reassembler
reset r =
    let dropped =
      if r.collecting && has_chunks r.chunks then r.images_dropped + 1 else r.images_dropped in
    record r { collecting = false; broken = false; chunks = []; images_dropped = dropped }

unfoldable pub mark_broken : Reassembler → Reassembler
mark_broken r =
    let dropped = if r.collecting && not r.broken then r.images_dropped + 1 else r.images_dropped in
    record r { broken = true; chunks = []; images_dropped = dropped }

-- `self.last_error = …`
abbrev pub note : Problem → Reassembler → Reassembler
note p r = record r { last_error = some p }

unfoldable pub on_head : SubFrame → Reassembler → Outcome
on_head sub r =
    let noted =
      if r.collecting
      then record r {
        last_error = some (new_head sub.group_id r.group_id);
        images_dropped = r.images_dropped + 1;
      }
      else r in
    (
      none,
      record noted {
        collecting = true;
        broken = false;
        group_id = sub.group_id;
        img_format = sub.img_format;
        chunks = [];
        expected_seq = sub.sequence + 1;
      },
    )

unfoldable pub on_body : SubFrame → Reassembler → Outcome
on_body sub r =
    if not r.collecting || r.broken
    then (none, r)
    else if not (sub.group_id == r.group_id)
    then (none, mark_broken (note (body_group sub.group_id r.group_id) r))
    else if not (sub.sequence == r.expected_seq)
    then (none, mark_broken (note (body_sequence sub.sequence r.expected_seq) r))
    else (
      none,
      record r { chunks = r.chunks ++ (sub.chunk ∷ []); expected_seq = r.expected_seq + 1 },
    )

unfoldable pub on_tail : SubFrame → Reassembler → Outcome
on_tail sub r =
    if not r.collecting || r.broken
    then (none, r)
    else if not (sub.group_id == r.group_id) || not (sub.sequence == r.expected_seq)
    then (
      none,
      mark_broken (note (tail_mismatch sub.group_id sub.sequence r.group_id r.expected_seq) r),
    )
    else (
      some (record { content = concat r.chunks; group_id = r.group_id; img_format = r.img_format }),
      record r { collecting = false; chunks = []; images_completed = r.images_completed + 1 },
    )

unfoldable pub feed_subframe : SubFrame → Reassembler → Outcome
feed_subframe sub r =
    if sub.frame_type == air_img_head
    then on_head sub r
    else if sub.frame_type == air_img_body
    then on_body sub r
    else on_tail sub r

-- `ImageReassembler.feed`, on the raw bytes of one sub-frame.
unfoldable pub feed : Bytes → Reassembler → Outcome
feed payload r = elim (parse_air_img_frame payload) [
  | ok sub ↦ feed_subframe sub r
  | err e ↦ (none, mark_broken (note (malformed e) r))
]
