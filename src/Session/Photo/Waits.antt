-- ===== src/Session/Photo/Waits.antt =====
-- The wait for a photo ends with it.
use edu_glasses_host.Base.{
  ℕ, zero, suc, ◌+◌, ◌*◌, ◌≤◌, ◌≡◌, refl, ap, ◌∙◌, Bool, true, false, ◌&&◌, if◌then◌else◌, Option,
  none, some, List, [], ◌∷◌, ◌++◌, map, ok, length, arith,
}
use edu_glasses_host.Base.Bytes.{Bytes}
use edu_glasses_host.Client.{GlassesClient}
use edu_glasses_host.Payload.Event.{GlassesEvent}
use edu_glasses_host.Session.State.{Session, Arrivals, FilePath, and_then}
use edu_glasses_host.Session.{
  SessionError, is_connected, next_of, told_to, beside, receive, note_failure, take_event,
  take_events, take_images, poll_reads, poll, is_photo_failure, require_connected,
}
use edu_glasses_host.Session.Photo.{photo_loop, wait_photo, settled, settle_or}

-- A time in which no photo is saved and nothing arrives on the control channel, with the audio
-- frames written.
abbrev pub silence : ℕ → Arrivals
silence frames = record { reads = []; photos = []; frames = frames; lost = false }

-- A session in which nothing is queued and no photo has come.
abbrev pub waiting : Session → List Arrivals → Session
waiting s coming = record s {
  incoming = [];
  images = [];
  completed_photo = none;
  photo_error = none;
  coming = coming;
}

-- What a poll in silence leaves.
abbrev listened : ℕ → Session → Session
listened frames s = record s {
  is_open = s.is_open && true;
  frames_written = if s.recording then s.frames_written + frames else s.frames_written;
}

poll-silence :
    (frames : ℕ) (later : List Arrivals) (s : Session)
    → (poll {E = SessionError} (waiting s (silence frames ∷ later))).1
      ≡ waiting (listened frames s) later
unfolding poll receive poll_reads take_events take_images
poll-silence frames later s = go s.client
  where
    go :
        (c : Option GlassesClient)
        → (poll {E = SessionError} (waiting (record s { client = c }) (silence frames ∷ later))).1
          ≡ waiting (listened frames (record s { client = c })) later
    go none = refl
    go (some c) = refl

-- What the first loop of `poll` does not touch.
take_events-same :
    {B : Type 0} (f : Session → B)
    → ((c : Bool) (e : GlassesEvent) (s : Session) → f (note_failure c e s) ≡ f s)
    → ((s : Session) → f (record s { incoming = [] }) ≡ f s)
    → (events : List GlassesEvent) (s : Session) → f (take_events events s) ≡ f s
unfolding take_events
take_events-same f h k [] s = k s
take_events-same f h k (event ∷ events) s =
    take_events-same f h k events (take_event event s)
    ∙ h (s.photo_pending && is_photo_failure event) event s

abbrev photos : Session → Option FilePath × (List FilePath × List Arrivals)
photos s = (s.completed_photo, (s.images, s.coming))

events-photos :
    (events : List GlassesEvent) (s : Session) → photos (take_events events s) ≡ photos s
events-photos = take_events-same photos (λ c e s. go c e s) (λ s. refl)
  where
    go : (c : Bool) (e : GlassesEvent) (s : Session) → photos (note_failure c e s) ≡ photos s
    go true e s = refl
    go false e s = refl

told_to-photos :
    (c : Option GlassesClient) (reads : List Bytes) (s : Session)
    → photos (told_to c reads s) ≡ photos s
told_to-photos none reads s = refl
told_to-photos (some c) reads s = refl

-- The photo that is completed last.
abbrev pub last_of : List FilePath → Option FilePath → Option FilePath
last_of [] o = o
last_of (p ∷ paths) o = last_of paths (some p)

take_images-photos :
    (paths : List FilePath) (s : Session)
    → photos (take_images paths s) ≡ (last_of paths s.completed_photo, ([], s.coming))
unfolding take_images
take_images-photos [] s = refl
take_images-photos (p ∷ paths) s =
    take_images-photos paths (record s { completed_photo = some p; photo_pending = false })

-- Whatever else arrives, a poll takes the photos queued and those saved meanwhile.
abbrev polled :
    Option FilePath × (List FilePath × List Arrivals)
    → Option FilePath × (List FilePath × List Arrivals)
polled (o, (images, coming)) =
    (last_of (images ++ (next_of coming).0.photos) o, ([], (next_of coming).1))

poll-photos : (s : Session) → photos (poll {E = SessionError} s).1 ≡ polled (photos s)
unfolding poll receive
poll-photos s =
    let (a, later) = next_of s.coming in
    let heard = told_to s.client a.reads (beside a later s) in
    let noted = take_events heard.incoming heard in
    let same : photos noted ≡ (s.completed_photo, (s.images ++ a.photos, later)) =
      events-photos heard.incoming heard ∙ told_to-photos s.client a.reads (beside a later s) in
    take_images-photos noted.images noted ∙ ap (λ v. (last_of v.1.0 v.0, ([], v.1.1))) same

settled-some :
    (s : Session) (path : FilePath) → s.completed_photo ≡ some path → settled s ≡ some (ok path)
settled-some s path e = ground (arith, e)

-- A pass returns the photo that its first poll completes.
photo_loop-settles :
    (n : ℕ) (s : Session) (path : FilePath)
    → (poll {E = SessionError} s).1.completed_photo ≡ some path
    → (photo_loop n s).0 ≡ ok path
unfolding photo_loop poll
photo_loop-settles zero s path e = cc (settled-some (poll {E = SessionError} s).1 path e)
photo_loop-settles (suc n) s path e = cc (settled-some (poll {E = SessionError} s).1 path e)

-- A later photo would take its place, so none comes with the next poll.
abbrev pub IsLast : List Arrivals → Type 0
IsLast [] = Unit
IsLast (a ∷ later) = a.photos ≡ []

IsLast-none :
    (path : FilePath) (later : List Arrivals)
    → IsLast later
    → last_of ([] ++ (next_of later).0.photos) (some path) ≡ some path
IsLast-none path [] h = refl
IsLast-none path (a ∷ later) h = ap (λ ps. last_of ps (some path)) h

kept :
    (path : FilePath) (later : List Arrivals) (s : Session)
    → IsLast later
    → photos s ≡ (some path, ([], later))
    → (poll {E = SessionError} s).1.completed_photo ≡ some path
kept path later s h e = ap (λ v. v.0) (poll-photos s ∙ ap polled e) ∙ IsLast-none path later h

-- A pass with nothing to return goes on to the next, behind its second poll.
photo_loop-silence :
    (n : ℕ) (f : ℕ) (later : List Arrivals) (s : Session)
    → photo_loop (suc n) (waiting s (silence f ∷ later))
      ≡ photo_loop n (poll {E = SessionError} (waiting (listened f s) later)).1
unfolding photo_loop poll
photo_loop-silence n f later s =
    ap (λ (t : Session). settle_or (settled t) (λ u. photo_loop n (poll {E = SessionError} u).1) t)
      (poll-silence f later s)

-- Times of silence and then a photo, within the polls of `n` passes.
photo_loop-photo :
    (n : ℕ) (frames : List ℕ) (a : Arrivals) (path : FilePath) (later : List Arrivals) (s : Session)
    → length frames ≤ 2 * n
    → last_of a.photos none ≡ some path
    → IsLast later
    → (photo_loop n (waiting s (map silence frames ++ (a ∷ later)))).0 ≡ ok path
photo_loop-photo n [] a path later s h photo last =
    photo_loop-settles n _ path (ap (λ v. v.0) (poll-photos (waiting s (a ∷ later))) ∙ photo)
photo_loop-photo zero (f ∷ frames) a path later s h photo last = absurd (omega arith)
photo_loop-photo (suc n) (f ∷ []) a path later s h photo last =
    let t = waiting (listened f s) (a ∷ later) in
    let saved : photos (poll {E = SessionError} t).1 ≡ (some path, ([], later)) =
      poll-photos t ∙ ap (λ o. (o, ([], later))) photo in
    ap (λ r. r.0) (photo_loop-silence n f (a ∷ later) s)
    ∙ photo_loop-settles n _ path (kept path later _ last saved)
photo_loop-photo (suc n) (f ∷ g ∷ frames) a path later s h photo last =
    let rest = map silence frames ++ (a ∷ later) in
    ap (λ r. r.0)
      (photo_loop-silence n f (silence g ∷ rest) s
        ∙ ap (photo_loop n) (poll-silence g rest (listened f s)))
    ∙ photo_loop-photo n frames a path later (listened g (listened f s)) (omega arith) photo last

-- The wait for a photo, on a connected session without an upgrade in which nothing is queued,
-- returns the path of the photo that the image client saves, when as many polls as two a pass bring
-- nothing before it; of several saved at once it is the last, if no other comes with the next poll.
pub wait_photo-photo :
    (n : ℕ) (frames : List ℕ) (a : Arrivals) (path : FilePath) (later : List Arrivals) (s : Session)
    → is_connected s ≡ true
    → s.ota_running ≡ false
    → length frames ≤ 2 * n
    → last_of a.photos none ≡ some path
    → IsLast later
    → (wait_photo n (waiting s (map silence frames ++ (a ∷ later)))).0 ≡ ok path
unfolding wait_photo require_connected
wait_photo-photo n frames a path later s c o h photo last =
    let t = waiting s (map silence frames ++ (a ∷ later)) in
    let free : require_connected t ≡ (ok tt, t) = ground (arith, c, o) in
    ap (λ r. (and_then (λ u. photo_loop n) r).0) free
    ∙ photo_loop-photo n frames a path later s h photo last
