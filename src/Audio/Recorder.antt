-- ===== src/Audio/Recorder.antt =====
-- `AudioStreamClient` of looktech_glasses_sdk/audio_client.py, as the calls that its user and its
-- reader make: `start`, `poll` on the bytes of a read, `stop`. The transport, the thread and the
-- path of the file are outside.
pub mod Loss
pub mod Counts
use edu_glasses_host.Base.{
  ℕ, ◌+◌, ◌-◌, ◌*◌, ◌/◌, ◌%◌, ◌^◌, max, Bool, true, false, not, Option, none, some, List, [], ◌∷◌,
  ltb, ◌==◌, if◌then◌else◌, bit_and, Result, ok, err,
}
use edu_glasses_host.Base.Bytes.{Bytes}
use edu_glasses_host.Audio.Package
use edu_glasses_host.Audio.Package.{RecordPackage}
use edu_glasses_host.Audio.Sink.{Sink, AudioSink, new_sink, create_sink, handle_frame}

pub record AudioStats : Type 0 where
  pub packages : ℕ
  pub frames : ℕ
  pub lost_packages : ℕ
  pub decode_errors : ℕ
  pub decoded_to_wav : Bool
  pub frames_written : ℕ

abbrev pub no_stats : AudioStats
no_stats = record {
  packages = 0;
  frames = 0;
  lost_packages = 0;
  decode_errors = 0;
  decoded_to_wav = false;
  frames_written = 0;
}

-- What a package changes: the sink in use with its kind, the statistics, the last number.
pub record Session : Type 0 where
  pub sink : Option (AudioSink × Sink)
  pub stats : AudioStats
  pub last_sn : Option ℕ

-- The parser's buffer is apart; `recording` is the source's `is_running`.
pub record AudioStreamClient : Type 0 where
  pub buf : Bytes
  pub session : Session
  pub recording : Bool

abbrev pub no_session : Session
no_session = record { sink = none; stats = no_stats; last_sn = none }

abbrev pub new_client : AudioStreamClient
new_client = record { buf = []; session = no_session; recording = false }

-- `a - b` of Python, cut to 16 bits, for 16-bit numbers.
abbrev pub sub_16 : ℕ → ℕ → ℕ
sub_16 a b = (a + 2 ^ 16 - b) % 2 ^ 16

-- The packages lost before one with number `sn`, when the last number was `last`.
unfoldable pub lost_before : ℕ → ℕ → ℕ → ℕ
lost_before last sections sn =
    let expected = bit_and (last + sections) 0xffff in
    if sn == expected then 0 else max 1 (sub_16 sn expected / sections)

abbrev pub lost_with : Option ℕ → RecordPackage → ℕ
lost_with none p = 0
lost_with (some last) p = if ltb 0 p.sections then lost_before last p.sections p.sn else 0

-- `_check_sn`
unfoldable pub check_sn : RecordPackage → Session → Session
check_sn p c = record c {
  stats = record c.stats { lost_packages = c.stats.lost_packages + lost_with c.last_sn p };
  last_sn = some p.sn;
}

abbrev pub feed_sink : Bytes → Option (AudioSink × Sink) → Option (AudioSink × Sink)
feed_sink frame none = none
feed_sink frame (some (kind, s)) = some (kind, handle_frame kind frame s)

-- The loop of `_handle_package`.
unfoldable pub handle_frames : List Bytes → Session → Session
handle_frames [] c = c
handle_frames (frame ∷ frames) c = handle_frames frames (record c {
  stats = record c.stats { frames = c.stats.frames + 1 };
  sink = feed_sink frame c.sink;
})

unfoldable pub handle_package : RecordPackage → Session → Session
unfolding check_sn handle_frames
handle_package p c =
    let checked = check_sn p c in
    handle_frames p.frames
      (record checked { stats = record checked.stats { packages = checked.stats.packages + 1 } })

unfoldable pub handle_packages : List RecordPackage → Session → Session
unfolding handle_package
handle_packages [] c = c
handle_packages (p ∷ ps) c = handle_packages ps (handle_package p c)

abbrev poll_with : Option (AudioSink × Sink) → Bytes → AudioStreamClient → AudioStreamClient
poll_with none input c = c
poll_with (some sink) input c =
    let (packages, buf) = Package.feed c.buf input in
    record c { buf = buf; session = handle_packages packages c.session }

-- `poll`, on the bytes read: without a sink they are discarded.
unfoldable pub poll : Bytes → AudioStreamClient → AudioStreamClient
poll input c = poll_with c.session.sink input c

pub data StartError : Type 0 where
  already_running : StartError
  transport_failed : StartError

-- `start`: `decoder` is what the loader gives, and `opens` whether the transport opened.
unfoldable pub start :
    Option (Bytes → ℕ → Option Bytes)
    → Bool
    → AudioStreamClient
    → Result StartError (Unit {0}) × AudioStreamClient
unfolding create_sink
start decoder opens c =
    let (kind, decoded) = create_sink decoder in
    let stats = record no_stats { decoded_to_wav = decoded } in
    let begun = record no_session { stats = stats } in
    if c.recording
    then (err already_running, c)
    else if not opens
    then (err transport_failed, record c { buf = []; session = begun })
    else (
      ok tt,
      record {
        buf = [];
        session = record begun { sink = some (kind, new_sink) };
        recording = true;
      },
    )

abbrev pub finish : Option (AudioSink × Sink) → AudioStats → AudioStats
finish none stats = stats
finish (some (kind, s)) stats = record stats {
  decode_errors = s.decode_errors;
  frames_written = s.frames_decoded;
}

-- `stop`: the stats returned stay in the object.
unfoldable pub stop : AudioStreamClient → AudioStats × AudioStreamClient
stop c =
    let stats = finish c.session.sink c.session.stats in
    let ended = record c.session { sink = none; stats = stats } in
    (stats, record c { session = ended; recording = false })
