-- ===== src/Capture/Tests.antt =====
-- Captures on a session after a handshake, with a device that takes each of them.
use edu_glasses_host.Base.{true, false, some, List, [], ◌∷◌}
use edu_glasses_host.Base.Bytes.{Bytes}
use edu_glasses_host.Session.State.{Session, Arrivals, new_session}

abbrev arrives : Bytes → Arrivals
arrives input = record { reads = input ∷ []; photos = []; frames = 0; lost = false }

-- The photo and the video are operation 5.
abbrev photo_begun : Bytes
photo_begun = 165 ∷ 90 ∷ 1 ∷ 17 ∷ 1 ∷ 6 ∷ 0 ∷ 33 ∷ 0 ∷ 5 ∷ 0 ∷ 0 ∷ 0 ∷ 144 ∷ 80 ∷ []

abbrev video_begun : Bytes
video_begun = 165 ∷ 90 ∷ 1 ∷ 17 ∷ 1 ∷ 6 ∷ 0 ∷ 34 ∷ 0 ∷ 5 ∷ 0 ∷ 0 ∷ 0 ∷ 112 ∷ 158 ∷ []

-- The photo is done, the video runs, and is done.
abbrev photo_done : Bytes
photo_done = 165 ∷ 90 ∷ 1 ∷ 17 ∷ 2 ∷ 9 ∷ 0 ∷ 36 ∷ 0 ∷ 5 ∷ 0 ∷ 0 ∷ 0 ∷ 1 ∷ 4 ∷ 0 ∷ 177 ∷ 68 ∷ []

abbrev video_runs : Bytes
video_runs = 165 ∷ 90 ∷ 1 ∷ 17 ∷ 2 ∷ 9 ∷ 0 ∷ 36 ∷ 0 ∷ 5 ∷ 0 ∷ 0 ∷ 0 ∷ 2 ∷ 2 ∷ 0 ∷ 71 ∷ 183 ∷ []

abbrev video_done : Bytes
video_done = 165 ∷ 90 ∷ 1 ∷ 17 ∷ 1 ∷ 9 ∷ 0 ∷ 36 ∷ 0 ∷ 5 ∷ 0 ∷ 0 ∷ 0 ∷ 2 ∷ 4 ∷ 0 ∷ 126 ∷ 24 ∷ []

-- Behind each request there is a poll.
abbrev greeted : List Arrivals → Session
greeted coming = record (new_session []) {
  client = some (record { seq = 1; pending = []; buf = [] });
  is_open = true;
  hello_ack = some (record { proto_ver = 1; fw_version = 7; caps = 4095 });
  coming = coming;
}

abbrev for_photo : Session
for_photo = greeted (arrives photo_begun ∷ arrives [] ∷ arrives photo_done ∷ [])

abbrev for_video : Session
for_video = greeted (arrives video_begun ∷ arrives [] ∷ arrives video_runs ∷ [])

abbrev for_stop : Session
for_stop = greeted (arrives video_done ∷ [])
