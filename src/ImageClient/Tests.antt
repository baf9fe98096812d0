-- ===== src/ImageClient/Tests.antt =====
-- A photo saved.
use edu_glasses_host.Base.{ℕ, ◌≡◌, refl, some, List, [], ◌∷◌, map, All, arith}
use edu_glasses_host.Base.Bytes.{Bytes, to_le}
use edu_glasses_host.AirImg.RoundTrip.{IsSendable}
use edu_glasses_host.Reassembler.{CompletedImage, initial}
use edu_glasses_host.Reassembler.Delivery.{Photo, image_of, sent_photos}
use edu_glasses_host.ImageClient.{ImageClient, poll_all}
use edu_glasses_host.ImageClient.Delivery.{named, poll_all-sent_photos}

abbrev photo : Photo
photo = record { group = 5; format = 1; parts = (1 ∷ 2 ∷ []) ∷ [] }

-- The paths are numbers here, and the default one is the group.
abbrev path_of : CompletedImage → ℕ
path_of image = image.group_id

abbrev client : ImageClient ℕ
client = record { buf = []; sink = record { reassembler = initial; next_photo_path = some 77 } }

abbrev reads : List Bytes
reads =
    (1 ∷ 1 ∷ 5 ∷ 0 ∷ 0 ∷ [])
    ∷ (0 ∷ 0 ∷ 1 ∷ 2 ∷ 1 ∷ 5 ∷ 1 ∷ 0 ∷ 0 ∷ 0 ∷ 2 ∷ 0 ∷ 1 ∷ [])
    ∷ (2 ∷ 3 ∷ 1 ∷ 5 ∷ 2 ∷ 0 ∷ 0 ∷ 0 ∷ [])
    ∷ []

photo-IsSendable : All IsSendable (sent_photos (photo ∷ []))
photo-IsSendable = (omega arith, ((omega arith, omega arith), (omega arith, tt)))

poll_all-sent_photos_example :
    (poll_all path_of reads client).0 ≡ named path_of (map image_of (photo ∷ [])) (some 77)
unfolding to_le
poll_all-sent_photos_example =
    poll_all-sent_photos path_of (photo ∷ []) reads client photo-IsSendable refl
      (record { no_bytes = refl; no_image = refl })
