-- ===== src/ImageClient.antt =====
-- `ImageClient` of looktech_glasses_sdk/image_client.py: the bytes of the image channel become
-- saved files. The transport and the file system are outside: a read is an argument of `poll`, and
-- a write is a path with the image written there. The reader thread calls `poll` in a loop.
pub mod Delivery
mod Tests
use edu_glasses_host.Base.{Option, none, some, List, [], ◌∷◌, ◌++◌}
use edu_glasses_host.Base.Bytes.{Bytes}
use edu_glasses_host.AirImg
use edu_glasses_host.AirImg.{SubFrame}
use edu_glasses_host.Reassembler.{Reassembler, CompletedImage, feed_subframe, reset, initial}

-- The parser's buffer is apart, since what a sub-frame does leaves it alone.
pub record Sink (FilePath : Type 0) : Type 0 where
  pub reassembler : Reassembler
  pub next_photo_path : Option FilePath

pub record ImageClient (FilePath : Type 0) : Type 0 where
  pub buf : Bytes
  pub sink : Sink FilePath

abbrev pub Saved : Type 0 → Type 0
Saved FilePath = List (FilePath × CompletedImage)

abbrev pub new_client : {FilePath : Type 0} → ImageClient FilePath
new_client = record { buf = []; sink = record { reassembler = initial; next_photo_path = none } }

unfoldable pub set_next_photo_path :
    {FilePath : Type 0} → Option FilePath → ImageClient FilePath → ImageClient FilePath
set_next_photo_path path c = record c {
  sink = record { reassembler = c.sink.reassembler; next_photo_path = path };
}

-- `ImageClient.close`: the partial image is dropped, the buffer stays.
unfoldable pub close : {FilePath : Type 0} → ImageClient FilePath → ImageClient FilePath
close c = record c {
  sink = record {
    reassembler = reset c.sink.reassembler;
    next_photo_path = c.sink.next_photo_path;
  };
}

-- A path with no name given is made of the output folder, the time, the group and the suffix.
module _ {FilePath : Type 0} (default_path : CompletedImage → FilePath) where
  -- `_save_image`: a given name serves for one image only.
  unfoldable pub save_image :
      CompletedImage → Option FilePath → (FilePath × CompletedImage) × Option FilePath
  save_image image none = ((default_path image, image), none)
  save_image image (some path) = ((path, image), none)

  -- `if image is not None: self._deliver(image)`; the callbacks have no effect on the client.
  unfoldable pub deliver : Option CompletedImage → Sink FilePath → Saved FilePath × Sink FilePath
  unfolding save_image
  deliver none s = ([], s)
  deliver (some image) s =
      let (file, path) = save_image image s.next_photo_path in
      (file ∷ [], record { reassembler = s.reassembler; next_photo_path = path })

  -- The loop of `poll` over the sub-frames of one read.
  unfoldable pub handle : List SubFrame → Sink FilePath → Saved FilePath × Sink FilePath
  unfolding deliver
  handle [] s = ([], s)
  handle (sub ∷ subs) s =
      let (image, r) = feed_subframe sub s.reassembler in
      let (files, s') =
        deliver image (record { reassembler = r; next_photo_path = s.next_photo_path }) in
      let (more, last) = handle subs s' in (files ++ more, last)

  -- `poll`, on the bytes that the transport read.
  unfoldable pub poll : Bytes → ImageClient FilePath → Saved FilePath × ImageClient FilePath
  poll input c =
      let (subs, buf) = AirImg.feed c.buf input in
      let (files, sink) = handle subs c.sink in (files, record { buf = buf; sink = sink })

  unfoldable pub poll_all :
      List Bytes → ImageClient FilePath → Saved FilePath × ImageClient FilePath
  poll_all [] c = ([], c)
  poll_all (input ∷ inputs) c =
      let (files, c') = poll input c in
      let (more, last) = poll_all inputs c' in (files ++ more, last)
