-- ===== src/Session/Tests.antt =====
-- Sessions on concrete bytes: a handshake and a photo, and what the theorems say of them.
use edu_glasses_host.Base.{
  ℕ, ◌≡◌, refl, true, false, some, ok, List, [], ◌∷◌, ◌++◌, map, ◌⊎◌, arith,
}
use edu_glasses_host.Base.Bytes.{Bytes}
use edu_glasses_host.Session.State.{Session, Arrivals, FilePath, new_session}
use edu_glasses_host.Session.{SessionError, is_connected, poll}
use edu_glasses_host.Session.Photo.{trigger_photo, wait_photo}
use edu_glasses_host.Session.Photo.Waits.{waiting, silence, wait_photo-photo}
use edu_glasses_host.Session.Recording.{record_for}
use edu_glasses_host.Session.Recording.Ends.{record_for-ends}
use edu_glasses_host.Session.Life.{Channels, connect}
use edu_glasses_host.Session.Life.Reconnect.{connect-still_recording}
use edu_glasses_host.Session.Triple.{Post}
use edu_glasses_host.Session.Sound.{IsSound}
use edu_glasses_host.Session.Sound.Life.{IsCurrent}
use edu_glasses_host.Session.Reach.{here, next, connects, triggers, polled, Reach-IsSound}

abbrev channels : Channels
channels = record { ctrl = true; audio = true; image_transport = true; image = true; ota = false }

-- HELLO_ACK with all capabilities.
abbrev hello_ack : Bytes
hello_ack =
    165 ∷ 90 ∷ 1 ∷ 2 ∷ 0 ∷ 11 ∷ 0 ∷ 1 ∷ 0 ∷ 0 ∷ 0 ∷ 0 ∷ 0 ∷ 0 ∷ 0 ∷ 0 ∷ 255 ∷ 15 ∷ 81 ∷ 97 ∷ []

-- The response to TAKE_PHOTO.
abbrev photo_ack : Bytes
photo_ack = 165 ∷ 90 ∷ 1 ∷ 17 ∷ 1 ∷ 2 ∷ 0 ∷ 1 ∷ 0 ∷ 131 ∷ 98 ∷ []

abbrev photo_path : FilePath
photo_path = 112 ∷ []

abbrev arrives : Bytes → Arrivals
arrives input = record { reads = input ∷ []; photos = []; frames = 0; lost = false }

abbrev saves : FilePath → Arrivals
saves path = record { reads = []; photos = path ∷ []; frames = 0; lost = false }

abbrev coming : List Arrivals
coming = arrives hello_ack ∷ silence 0 ∷ arrives photo_ack ∷ silence 0 ∷ saves photo_path ∷ []

abbrev connected : Session
connected = (connect channels (new_session coming)).1

abbrev triggered : Session
triggered = (trigger_photo (some photo_path) connected).1

abbrev polled_once : Session
polled_once = (poll {E = SessionError} triggered).1

abbrev checksum : Bytes → ℕ
checksum input = 0

Reach-IsSound_example : IsSound IsCurrent polled_once.ota_running polled_once
Reach-IsSound_example = Reach-IsSound checksum coming (
    next
      (next (next here (connects channels (new_session coming)))
        (triggers (some photo_path) connected))
      (polled triggered))

-- A session as it is after a handshake.
abbrev greeted : Session
greeted = record (new_session []) {
  client = some (record { seq = 1; pending = []; buf = [] });
  is_open = true;
  has_audio = true;
  hello_ack = some (record { proto_ver = 1; fw_version = 7; caps = 4095 });
}

wait_photo-photo_example :
    (wait_photo 1 (waiting greeted (map silence (0 ∷ 3 ∷ []) ++ (saves photo_path ∷ [])))).0
    ≡ ok photo_path
unfolding new_session
wait_photo-photo_example =
    wait_photo-photo 1 (0 ∷ 3 ∷ []) (saves photo_path) photo_path [] greeted refl refl (omega arith)
      refl tt

record_for-ends_example :
    let t = (record_for true 3 greeted).1 in (t.recording ≡ false) ⊎ (is_connected t ≡ false)
unfolding new_session
record_for-ends_example = record_for-ends true 3 greeted refl

-- The connection was lost while recording.
abbrev lost : Session
lost = record greeted { is_open = false; recording = true; coming = arrives hello_ack ∷ [] }

connect-still_recording_example :
    Post (λ _ t. t.recording ≡ true) (λ t. t.recording ≡ false) (connect channels lost)
connect-still_recording_example = connect-still_recording channels lost refl refl
