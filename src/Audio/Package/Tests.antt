-- ===== src/Audio/Package/Tests.antt =====
-- Packages on concrete bytes.
use edu_glasses_host.Base.{◌≡◌, refl, List, [], ◌∷◌, map, arith}
use edu_glasses_host.Base.Bytes.{Bytes, to_le}
use edu_glasses_host.Audio.Package.RoundTrip.{
  Sent, IsSendable, package_of, feed_pieces, feed_pieces-sent_bytes,
}

abbrev pair : Sent
pair = record { cmd = 2; sn = 258; reserved = 0; frames = (7 ∷ 8 ∷ []) ∷ (9 ∷ []) ∷ [] }

pair-IsSendable : IsSendable pair
pair-IsSendable = record {
  some_frames = omega arith;
  few_frames = omega arith;
  short_frames = (omega arith, (omega arith, tt));
  sn_fits = omega arith;
}

abbrev pieces : List Bytes
pieces = (0x52 ∷ 2 ∷ 9 ∷ 0 ∷ 2 ∷ []) ∷ (1 ∷ 2 ∷ 0 ∷ 2 ∷ 7 ∷ 8 ∷ []) ∷ (1 ∷ 9 ∷ []) ∷ []

feed_pieces-sent_bytes_example : feed_pieces pieces ≡ (map package_of (pair ∷ []), [])
unfolding to_le
feed_pieces-sent_bytes_example =
    feed_pieces-sent_bytes (pair ∷ []) pieces (pair-IsSendable, tt) refl
