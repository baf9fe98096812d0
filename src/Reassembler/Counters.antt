-- ===== src/Reassembler/Counters.antt =====
-- `images_completed` and `images_dropped`.
use edu_glasses_host.Base.{
  ℕ, ◌+◌, ◌≤◌, ◌≡◌, ◌≢◌, true, false, not, ◌&&◌, ◌⊎◌, Option, none, some, List, [], ◌∷◌, ◌==◌,
  if◌then◌else◌, length, arith,
}
use edu_glasses_host.AirImg.{SubFrame, air_img_head, air_img_body}
use edu_glasses_host.Reassembler.{
  Reassembler, CompletedImage, feed_subframe, on_head, on_body, on_tail, mark_broken,
}
use edu_glasses_host.Reassembler.Delivery.{run, emit}

abbrev pub head_count : SubFrame → ℕ
head_count sub = if sub.frame_type == air_img_head then 1 else 0

abbrev pub heads : List SubFrame → ℕ
heads [] = 0
heads (sub ∷ subs) = head_count sub + heads subs

-- An image that may still be completed.
abbrev pub pending : Reassembler → ℕ
pending r = if r.collecting && not r.broken then 1 else 0

abbrev pub accounted : Reassembler → ℕ
accounted r = r.images_completed + r.images_dropped + pending r

abbrev returned : Option CompletedImage → ℕ
returned none = 0
returned (some image) = 1

on_head_counts :
    (sub : SubFrame) (r : Reassembler)
    → let (out, s) = on_head sub r in
      (accounted r + 1 ≤ accounted s) × (s.images_completed ≡ r.images_completed + returned out)
unfolding on_head
on_head_counts sub r = ground arith

on_body_counts :
    (sub : SubFrame) (r : Reassembler)
    → let (out, s) = on_body sub r in
      (accounted r ≤ accounted s) × (s.images_completed ≡ r.images_completed + returned out)
unfolding on_body mark_broken
on_body_counts sub r = ground arith

on_tail_counts :
    (sub : SubFrame) (r : Reassembler)
    → let (out, s) = on_tail sub r in
      (accounted r ≤ accounted s) × (s.images_completed ≡ r.images_completed + returned out)
unfolding on_tail mark_broken
on_tail_counts sub r = ground arith

feed_subframe_counts :
    (sub : SubFrame) (r : Reassembler)
    → let (out, s) = feed_subframe sub r in
      (accounted r + head_count sub ≤ accounted s)
      × (s.images_completed ≡ r.images_completed + returned out)
unfolding feed_subframe
feed_subframe_counts sub r =
    ground (arith, on_head_counts sub r, on_body_counts sub r, on_tail_counts sub r)

length-emit :
    (out : Option CompletedImage) (images : List CompletedImage)
    → length (emit out images) ≡ returned out + length images
length-emit none images = omega arith
length-emit (some image) images = omega arith

-- No image goes missing from the counts: every head is accounted for as completed, as dropped, or
-- as the image in progress, and the completed ones are exactly those returned.
pub run-accounted :
    (subs : List SubFrame) (r : Reassembler)
    → let (images, s) = run subs r in
      (accounted r + heads subs ≤ accounted s)
      × (s.images_completed ≡ r.images_completed + length images)
unfolding run
run-accounted [] r = (omega arith, omega arith)
run-accounted (sub ∷ subs) r =
    let (out, s) = feed_subframe sub r in
    let (more, exact) = feed_subframe_counts sub r in
    let (more', exact') = run-accounted subs s in
    (omega (arith, more, more'), omega (arith, exact, exact', length-emit out (run subs s).0))

-- An image that breaks, because a body of another group or out of sequence arrives, is counted as
-- dropped at once, and once more by the next head: two for one lost image.
pub images_dropped_twice :
    (r : Reassembler) (stray next : SubFrame)
    → r.collecting ≡ true
    → r.broken ≡ false
    → stray.frame_type ≡ air_img_body
    → (stray.group_id ≢ r.group_id) ⊎ (stray.sequence ≢ r.expected_seq)
    → next.frame_type ≡ air_img_head
    → let (images, s) = run (stray ∷ next ∷ []) r in
      (images ≡ []) × (s.images_dropped ≡ r.images_dropped + 2)
unfolding run feed_subframe on_head on_body mark_broken
images_dropped_twice r stray next c b t bad h = ground arith
