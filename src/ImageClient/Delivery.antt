-- ===== src/ImageClient/Delivery.antt =====
-- From the bytes on the wire to the files.
use edu_glasses_host.Base.{
  ◌≡◌, refl, ap, sym, ◌∙◌, false, Option, none, some, List, [], ◌∷◌, ◌++◌, append_assoc, map,
  concat, All, All-Unit,
}
use edu_glasses_host.Base.Bytes.{Bytes}
use edu_glasses_host.Stream.{drain}
use edu_glasses_host.Stream.Feed
use edu_glasses_host.Stream.Parses.{drain-eq}
use edu_glasses_host.AirImg
use edu_glasses_host.AirImg.{SubFrame, img_pass}
use edu_glasses_host.AirImg.Scanner.{img_pass-IsScanner}
use edu_glasses_host.AirImg.RoundTrip.{sent_bytes, sub_of, IsSendable, sent-Parses}
use edu_glasses_host.Reassembler.{Reassembler, CompletedImage, feed_subframe}
use edu_glasses_host.Reassembler.Delivery.{run, emit, Photo, image_of, sent_photos, run-sent_photos}
use edu_glasses_host.ImageClient.{Sink, ImageClient, Saved, deliver, handle, poll, poll_all}

module _ {FilePath : Type 0} (default_path : CompletedImage → FilePath) where
  -- The first image takes the name given, if there is one; the others have names of their own.
  abbrev pub named : List CompletedImage → Option FilePath → Saved FilePath
  named [] path = []
  named (image ∷ images) none = (default_path image, image) ∷ named images none
  named (image ∷ images) (some path) = (path, image) ∷ named images none

  handle-run :
      (subs : List SubFrame) (r : Reassembler) (path : Option FilePath)
      → (handle default_path subs (record { reassembler = r; next_photo_path = path })).0
        ≡ named (run subs r).0 path
  unfolding handle run
  handle-run [] r path = refl
  handle-run (sub ∷ subs) r path = go (feed_subframe sub r).0 path (handle-run subs r')
    where
      r' : Reassembler
      r' = (feed_subframe sub r).1

      go :
          (out : Option CompletedImage) (path : Option FilePath)
          → ((p : Option FilePath)
              → (handle default_path subs (record { reassembler = r'; next_photo_path = p })).0
                ≡ named (run subs r').0 p)
          → let (files, s') =
              deliver default_path out (record { reassembler = r'; next_photo_path = path }) in
            files ++ (handle default_path subs s').0 ≡ named (emit out (run subs r').0) path
      go none path ih = ih path
      go (some image) none ih =
          ap (λ (t : Saved FilePath). (default_path image, image) ∷ t) (ih none)
      go (some image) (some given) ih = ap (λ (t : Saved FilePath). (given, image) ∷ t) (ih none)

  abbrev before : Saved FilePath → Saved FilePath × Sink FilePath → Saved FilePath × Sink FilePath
  before files result = (files ++ result.0, result.1)

  handle-append :
      (subs more : List SubFrame) (s : Sink FilePath)
      → let (files, mid) = handle default_path subs s in
        let (later, last) = handle default_path more mid in
        handle default_path (subs ++ more) s ≡ (files ++ later, last)
  unfolding handle
  handle-append [] more s = refl
  handle-append (sub ∷ subs) more s =
      let (image, r) = feed_subframe sub s.reassembler in
      let (files, s') =
        deliver default_path image
          (record { reassembler = r; next_photo_path = s.next_photo_path }) in
      let (files', mid) = handle default_path subs s' in
      let (later, last) = handle default_path more mid in
      ap (before files) (handle-append subs more s')
      ∙ ap (λ (t : Saved FilePath). (t, last)) (sym (append_assoc files files' later))

  poll_all-handle :
      (inputs : List Bytes) (c : ImageClient FilePath)
      → (poll_all default_path inputs c).0
        ≡ (handle default_path (Feed.feed_all img_pass (λ buf. buf) c.buf inputs).0 c.sink).0
  unfolding poll_all poll AirImg.feed Feed.feed_all
  poll_all-handle [] c = unfold handle in refl
  poll_all-handle (input ∷ inputs) c =
      let (subs, buf) = AirImg.feed c.buf input in
      let (files, sink) = handle default_path subs c.sink in
      let rest = (Feed.feed_all img_pass (λ b. b) buf inputs).0 in
      ap (λ (t : Saved FilePath). files ++ t)
        (poll_all-handle inputs (record { buf = buf; sink = sink }))
      ∙ sym (ap (λ t. t.0) (handle-append subs rest c.sink))

  -- A client between two images: nothing in the parser, no image in progress.
  pub record IsIdle (c : ImageClient FilePath) : Type 0 where
    pub no_bytes : c.buf ≡ []
    pub no_image : c.sink.reassembler.collecting ≡ false

  -- However the reads cut the bytes of a series of photos, an idle client saves exactly those
  -- photos, whole and in order; a name set for the next photo goes to the first one alone.
  pub poll_all-sent_photos :
      (photos : List Photo) (reads : List Bytes) (c : ImageClient FilePath)
      → All IsSendable (sent_photos photos)
      → concat reads ≡ concat (map sent_bytes (sent_photos photos))
      → IsIdle c
      → (poll_all default_path reads c).0 ≡ named (map image_of photos) c.sink.next_photo_path
  poll_all-sent_photos photos reads c s e idle =
      let sent = sent_photos photos in
      let stream = ap (λ (t : Bytes). t ++ concat reads) idle.no_bytes ∙ e in
      let subs =
        Feed.feed_all-concat img_pass-IsScanner Feed.anything-IsKept (λ buf h w. refl) reads c.buf
          tt (All-Unit reads) (ap img_pass idle.no_bytes ∙ img_pass-IsScanner.stops)
        ∙ ap (drain img_pass) stream
        ∙ drain-eq img_pass-IsScanner (sent-Parses sent s) in
      poll_all-handle reads c
      ∙ ap (λ t. (handle default_path t.0 c.sink).0) subs
      ∙ handle-run (map sub_of sent) c.sink.reassembler c.sink.next_photo_path
      ∙ ap (λ (t : List CompletedImage). named t c.sink.next_photo_path)
          (run-sent_photos photos c.sink.reassembler idle.no_image).0
