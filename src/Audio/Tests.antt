-- ===== src/Audio/Tests.antt =====
-- A recording on concrete bytes.
use edu_glasses_host.Base.{◌+◌, ◌≡◌, refl, some, true, List, [], ◌∷◌, ◌++◌, length, arith}
use edu_glasses_host.Base.Bytes.{Bytes, to_le}
use edu_glasses_host.Audio.Package.{walk}
use edu_glasses_host.Audio.Package.RoundTrip.{Sent, IsSendable, area}
use edu_glasses_host.Audio.Sink.{new_sink, raw_opus, handle_raw}
use edu_glasses_host.Audio.Sink.RoundTrip.{handle_all, walk-handle_raw}
use edu_glasses_host.Audio.Recorder.{AudioStreamClient, no_session, lost_before}
use edu_glasses_host.Audio.Recorder.Loss.{sn_after, lost_before-sn_after}
use edu_glasses_host.Audio.Recorder.Counts.{poll_all, sent_frames, poll_all-sent_bytes}

abbrev pair : Sent
pair = record { cmd = 2; sn = 258; reserved = 0; frames = (7 ∷ 8 ∷ []) ∷ (9 ∷ []) ∷ [] }

pair-IsSendable : IsSendable pair
pair-IsSendable = record {
  some_frames = omega arith;
  few_frames = omega arith;
  short_frames = (omega arith, (omega arith, tt));
  sn_fits = omega arith;
}

abbrev reads : List Bytes
reads = (0x52 ∷ 2 ∷ 9 ∷ 0 ∷ 2 ∷ []) ∷ (1 ∷ 2 ∷ 0 ∷ 2 ∷ 7 ∷ 8 ∷ []) ∷ (1 ∷ 9 ∷ []) ∷ []

abbrev recording : AudioStreamClient
recording = record {
  buf = [];
  session = record no_session { sink = some (raw_opus, new_sink); last_sn = some 256 };
  recording = true;
}

poll_all-sent_bytes_example :
    let d = (poll_all reads recording).session in
    let frames = sent_frames (pair ∷ []) in
    (d.stats.packages ≡ recording.session.stats.packages + length (pair ∷ []))
    × (d.stats.frames ≡ recording.session.stats.frames + length frames)
    × (d.stats.lost_packages ≡ recording.session.stats.lost_packages)
    × (d.sink
        ≡ some (
          raw_opus,
          record {
            file = new_sink.file ++ area frames;
            frames_decoded = new_sink.frames_decoded + length frames;
            decode_errors = new_sink.decode_errors;
          },
        ))
unfolding to_le
poll_all-sent_bytes_example =
    poll_all-sent_bytes (pair ∷ []) reads recording new_sink (pair-IsSendable, tt) refl refl refl
      (refl, tt)

-- Three packages of eight frames lost, over the wrap of the sequence number.
lost_before-sn_after_example : lost_before 65530 8 (sn_after 65530 8 (3 + 1)) ≡ 3
lost_before-sn_after_example =
    lost_before-sn_after 65530 8 3 (omega arith) (omega arith) (omega arith)

walk-handle_raw_example :
    let t = handle_all handle_raw pair.frames new_sink in
    (walk t.file (length pair.frames) 0 (length t.file) ≡ some pair.frames)
    × (t.frames_decoded ≡ new_sink.frames_decoded + length pair.frames)
walk-handle_raw_example = walk-handle_raw pair.frames new_sink refl (omega arith, (omega arith, tt))
