-- ===== src/Audio/Recorder/Counts.antt =====
-- A recording from the bytes of the channel to the file and the statistics.
use edu_glasses_host.Base.{
  ℕ, ◌+◌, ◌%◌, ◌^◌, ◌≡◌, refl, ap, sym, ◌∙◌, Option, none, some, List, [], ◌∷◌, ◌++◌, map, concat,
  length, length-append, All, All-append, subst, arith,
}
use edu_glasses_host.Base.Bits.{bit_and_mask}
use edu_glasses_host.Base.Bytes.{Bytes}
use edu_glasses_host.Stream.Feed
use edu_glasses_host.Audio.Package
use edu_glasses_host.Audio.Package.{RecordPackage, record_pass}
use edu_glasses_host.Audio.Package.RoundTrip.{
  Sent, IsSendable, IsShort, area, sent_bytes, package_of, feed_pieces-sent_bytes,
}
use edu_glasses_host.Audio.Sink.{Sink, AudioSink, raw_opus, handle_frame}
use edu_glasses_host.Audio.Sink.RoundTrip.{handle_all, raw_file}
use edu_glasses_host.Audio.Recorder.{
  Session, AudioStreamClient, check_sn, lost_with, lost_before, feed_sink, handle_frames,
  handle_package, handle_packages, poll, poll_with,
}

-- `poll` on each read in turn.
unfoldable pub poll_all : List Bytes → AudioStreamClient → AudioStreamClient
poll_all [] c = c
poll_all (input ∷ inputs) c = poll_all inputs (poll input c)

frames_of : List RecordPackage → List Bytes
frames_of [] = []
frames_of (p ∷ ps) = p.frames ++ frames_of ps

abbrev sinks : List Bytes → Option (AudioSink × Sink) → Option (AudioSink × Sink)
sinks [] s = s
sinks (frame ∷ frames) s = sinks frames (feed_sink frame s)

sinks-append :
    (xs ys : List Bytes) (s : Option (AudioSink × Sink))
    → sinks (xs ++ ys) s ≡ sinks ys (sinks xs s)
sinks-append [] ys s = refl
sinks-append (x ∷ xs) ys s = sinks-append xs ys (feed_sink x s)

-- What the frames of some packages leave of a session.
abbrev IsCounted : ℕ → List Bytes → Session → Session → Type 0
IsCounted packages frames c d =
    (d.stats.packages ≡ c.stats.packages + packages)
    × (d.stats.frames ≡ c.stats.frames + length frames)
    × (d.sink ≡ sinks frames c.sink)

handle_frames_lem :
    (frames : List Bytes) (c : Session)
    → let d = handle_frames frames c in
      IsCounted 0 frames c d
      × (d.last_sn ≡ c.last_sn)
      × (d.stats.lost_packages ≡ c.stats.lost_packages)
unfolding handle_frames
handle_frames_lem [] c = ((omega arith, omega arith, refl), refl, refl)
handle_frames_lem (frame ∷ frames) c =
    let ((packages, count, stored), last, lost) = handle_frames_lem frames (record c {
      stats = record c.stats { frames = c.stats.frames + 1 };
      sink = feed_sink frame c.sink;
    }) in
    ((packages, omega (arith, count), stored), last, lost)

handle_package_lem :
    (p : RecordPackage) (c : Session)
    → let d = handle_package p c in
      IsCounted 1 p.frames c d
      × (d.last_sn ≡ some p.sn)
      × (d.stats.lost_packages ≡ c.stats.lost_packages + lost_with c.last_sn p)
unfolding handle_package check_sn
handle_package_lem p c =
    let checked = check_sn p c in
    let ((packages, count, stored), last, lost) =
      handle_frames_lem p.frames (record checked {
        stats = record checked.stats { packages = checked.stats.packages + 1 };
      }) in
    ((omega (arith, packages), count, stored), last, lost)

handle_packages_lem :
    (ps : List RecordPackage) (c : Session)
    → IsCounted (length ps) (frames_of ps) c (handle_packages ps c)
unfolding handle_packages frames_of
handle_packages_lem [] c = (omega arith, omega arith, refl)
handle_packages_lem (p ∷ ps) c =
    let ((packages, count, stored), last, lost) = handle_package_lem p c in
    let (packages', count', stored') = handle_packages_lem ps (handle_package p c) in
    (
      omega (arith, packages, packages'),
      omega (arith, count, count', length-append p.frames (frames_of ps)),
      stored'
          ∙ ap (sinks (frames_of ps)) stored
          ∙ sym (sinks-append p.frames (frames_of ps) c.sink),
    )

-- Each package is numbered right after the one before, if there was one.
abbrev pub InSequence : Option ℕ → List RecordPackage → Type 0
InSequence last [] = Unit
InSequence none (p ∷ ps) = InSequence (some p.sn) ps
InSequence (some last) (p ∷ ps) = (p.sn ≡ (last + p.sections) % 2 ^ 16) × InSequence (some p.sn) ps

lost_before-zero :
    (last sections sn : ℕ) → sn ≡ (last + sections) % 2 ^ 16 → lost_before last sections sn ≡ 0
unfolding lost_before
lost_before-zero last sections sn e = ground (arith, bit_and_mask 16 (last + sections))

lost_with-zero :
    (last : Option ℕ) (p : RecordPackage) (ps : List RecordPackage)
    → InSequence last (p ∷ ps)
    → (lost_with last p ≡ 0) × InSequence (some p.sn) ps
lost_with-zero none p ps h = (refl, h)
lost_with-zero (some last) p ps h = (ground (arith, lost_before-zero last p.sections p.sn h.0), h.1)

handle_packages-InSequence :
    (ps : List RecordPackage) (c : Session)
    → InSequence c.last_sn ps
    → (handle_packages ps c).stats.lost_packages ≡ c.stats.lost_packages
unfolding handle_packages
handle_packages-InSequence [] c h = refl
handle_packages-InSequence (p ∷ ps) c h =
    let (counted, last, lost) = handle_package_lem p c in
    let (none_lost, later) = lost_with-zero c.last_sn p ps h in
    handle_packages-InSequence ps (handle_package p c)
      (subst (λ (l : Option ℕ). InSequence l ps) (sym last) later)
    ∙ omega (arith, lost, none_lost)

sinks-some :
    (frames : List Bytes) (kind : AudioSink) (s : Sink)
    → sinks frames (some (kind, s)) ≡ some (kind, handle_all (handle_frame kind) frames s)
sinks-some [] kind s = refl
sinks-some (frame ∷ frames) kind s = sinks-some frames kind (handle_frame kind frame s)

handle_packages-append :
    (xs ys : List RecordPackage) (c : Session)
    → handle_packages (xs ++ ys) c ≡ handle_packages ys (handle_packages xs c)
unfolding handle_packages
handle_packages-append [] ys c = refl
handle_packages-append (x ∷ xs) ys c = handle_packages-append xs ys (handle_package x c)

-- While a sink is open the reads go through the parser, and the packages through the session.
poll_all-handle_packages :
    (reads : List Bytes) (c : AudioStreamClient) (kind : AudioSink) (s : Sink)
    → c.session.sink ≡ some (kind, s)
    → (poll_all reads c).session
      ≡ handle_packages
          (Feed.feed_all record_pass (Feed.cut Package.max_buffer 4096) c.buf reads).0
          c.session
unfolding poll_all poll Package.feed Feed.feed_all
poll_all-handle_packages [] c kind s e = unfold handle_packages in refl
poll_all-handle_packages (input ∷ inputs) c kind s e =
    let (packages, buf) = Package.feed c.buf input in
    let d = record c { buf = buf; session = handle_packages packages c.session } in
    let opened : poll_with c.session.sink input c ≡ d = ap (λ t. poll_with t input c) e in
    let (counted, framed, stored) = handle_packages_lem packages c.session in
    let later = (Feed.feed_all record_pass (Feed.cut Package.max_buffer 4096) buf inputs).0 in
    ap (λ (t : AudioStreamClient). (poll_all inputs t).session) opened
    ∙ poll_all-handle_packages inputs d kind (handle_all (handle_frame kind) (frames_of packages) s)
        (stored ∙ ap (sinks (frames_of packages)) e ∙ sinks-some (frames_of packages) kind s)
    ∙ sym (handle_packages-append packages later c.session)

abbrev pub sent_frames : List Sent → List Bytes
sent_frames [] = []
sent_frames (p ∷ ps) = p.frames ++ sent_frames ps

frames_of-package_of : (ps : List Sent) → frames_of (map package_of ps) ≡ sent_frames ps
unfolding frames_of
frames_of-package_of [] = refl
frames_of-package_of (p ∷ ps) = ap (λ (t : List Bytes). p.frames ++ t) (frames_of-package_of ps)

sent_frames-IsShort : (ps : List Sent) → All IsSendable ps → All IsShort (sent_frames ps)
sent_frames-IsShort [] h = tt
sent_frames-IsShort (p ∷ ps) h =
    All-append IsShort p.frames (sent_frames ps) h.0.short_frames (sent_frames-IsShort ps h.1)

raw_stored :
    (frames : List Bytes) (s : Sink)
    → All IsShort frames
    → handle_all (handle_frame raw_opus) frames s ≡ record {
      file = s.file ++ area frames;
      frames_decoded = s.frames_decoded + length frames;
      decode_errors = s.decode_errors;
    }
unfolding handle_frame
raw_stored frames s h = let (file, count, errors) = raw_file frames s h in cc (file, count, errors)

length-map : {A B : Type 0} (f : A → B) (xs : List A) → length (map f xs) ≡ length xs
length-map f [] = refl
length-map f (x ∷ xs) = omega (arith, length-map f xs)

-- However the reads cut the bytes of a series of packages that the device numbers without a gap, a
-- recording in progress with the raw sink counts every package and every frame, finds none lost,
-- and appends all the frames, in order, to the file.
pub poll_all-sent_bytes :
    (ps : List Sent) (reads : List Bytes) (c : AudioStreamClient) (s : Sink)
    → All IsSendable ps
    → concat reads ≡ concat (map sent_bytes ps)
    → c.buf ≡ []
    → c.session.sink ≡ some (raw_opus, s)
    → InSequence c.session.last_sn (map package_of ps)
    → let d = (poll_all reads c).session in
      let frames = sent_frames ps in
      (d.stats.packages ≡ c.session.stats.packages + length ps)
      × (d.stats.frames ≡ c.session.stats.frames + length frames)
      × (d.stats.lost_packages ≡ c.session.stats.lost_packages)
      × (d.sink
          ≡ some (
            raw_opus,
            record {
              file = s.file ++ area frames;
              frames_decoded = s.frames_decoded + length frames;
              decode_errors = s.decode_errors;
            },
          ))
poll_all-sent_bytes ps reads c s ok e empty opened numbered =
    let packages = map package_of ps in
    let frames = sent_frames ps in
    let same = frames_of-package_of ps in
    let parsed =
      ap (λ (b : Bytes). (Feed.feed_all record_pass (Feed.cut Package.max_buffer 4096) b reads).0)
        empty
      ∙ ap (λ t. t.0) (feed_pieces-sent_bytes ps reads ok e) in
    let run =
      poll_all-handle_packages reads c raw_opus s opened
      ∙ ap (λ (t : List RecordPackage). handle_packages t c.session) parsed in
    let (counted, framed, stored) = handle_packages_lem packages c.session in
    let unlost = handle_packages-InSequence packages c.session numbered in
    (
      ap (λ t. t.stats.packages) run ∙ omega (arith, counted, length-map package_of ps),
      ap (λ t. t.stats.frames) run ∙ omega (arith, framed, ap length same),
      ap (λ t. t.stats.lost_packages) run ∙ unlost,
      ap (λ t. t.sink) run
          ∙ stored
          ∙ ap (sinks (frames_of packages)) opened
          ∙ ap (λ (t : List Bytes). sinks t (some (raw_opus, s))) same
          ∙ sinks-some frames raw_opus s
          ∙ ap (λ (t : Sink). some (raw_opus, t)) (raw_stored frames s (sent_frames-IsShort ps ok)),
    )
