-- ===== src/Reassembler/Tests.antt =====
-- Images from a few sub-frames.
use edu_glasses_host.Base.{
  ◌≡◌, ◌≤◌, ◌+◌, refl, inl, true, false, if◌then◌else◌, length, [], ◌∷◌, map, arith,
}
use edu_glasses_host.AirImg.{SubFrame}
use edu_glasses_host.AirImg.RoundTrip.{head, body, tail, sub_of}
use edu_glasses_host.Reassembler.{Reassembler, initial, feed_subframe, on_head, on_body, on_tail}
use edu_glasses_host.Reassembler.Delivery.{run, Photo, image_of, sent_photo, run-sent_photo}
use edu_glasses_host.Reassembler.Integrity.{IsJustified, feed_subframe-IsJustified}
use edu_glasses_host.Reassembler.Counters.{accounted, heads, run-accounted, images_dropped_twice}

abbrev photo : Photo
photo = record { group = 5; format = 1; parts = (1 ∷ 2 ∷ []) ∷ (3 ∷ []) ∷ [] }

abbrev stray : SubFrame
stray = sub_of (body 6 1 (9 ∷ []))

abbrev next : SubFrame
next = sub_of (head 7 0 1)

-- In the middle of an image of group 5.
abbrev started : Reassembler
started = record initial { collecting = true; group_id = 5; expected_seq = 1; img_format = 1 }

run-sent_photo_example :
    let result = run (map sub_of (sent_photo photo)) started in
    (result.0 ≡ image_of photo ∷ [])
    × (result.1.collecting ≡ false)
    × (result.1.images_completed ≡ started.images_completed + 1)
    × (result.1.images_dropped
        ≡ (if started.collecting then started.images_dropped + 1 else started.images_dropped))
run-sent_photo_example = run-sent_photo photo started

feed_subframe-IsJustified_example :
    IsJustified
      (sub_of (head 5 0 1) ∷ sub_of (body 5 1 (1 ∷ 2 ∷ [])) ∷ [])
      (sub_of (tail 5 2))
      (image_of (record { group = 5; format = 1; parts = (1 ∷ 2 ∷ []) ∷ [] }))
unfolding feed_subframe on_head on_body on_tail run
feed_subframe-IsJustified_example =
    feed_subframe-IsJustified (sub_of (head 5 0 1) ∷ sub_of (body 5 1 (1 ∷ 2 ∷ [])) ∷ [])
      (sub_of (tail 5 2)) (image_of (record { group = 5; format = 1; parts = (1 ∷ 2 ∷ []) ∷ [] }))
      refl

run-accounted_example :
    let (images, s) = run (stray ∷ next ∷ []) started in
    (accounted started + heads (stray ∷ next ∷ []) ≤ accounted s)
    × (s.images_completed ≡ started.images_completed + length images)
run-accounted_example = run-accounted (stray ∷ next ∷ []) started

images_dropped_twice_example :
    let (images, s) = run (stray ∷ next ∷ []) started in
    (images ≡ []) × (s.images_dropped ≡ started.images_dropped + 2)
images_dropped_twice_example =
    images_dropped_twice started stray next refl refl refl (inl (omega arith)) refl
