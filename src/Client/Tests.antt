-- ===== src/Client/Tests.antt =====
-- A request on concrete bytes, at the wrap of the sequence number.
use edu_glasses_host.Base.{◌≡◌, ◌+◌, ◌%◌, ◌^◌, refl, none, ok, err, List, [], ◌∷◌, ◌++◌, arith}
use edu_glasses_host.Base.Bytes.{Bytes, to_le}
use edu_glasses_host.Base.Dict.{lookup}
use edu_glasses_host.Crc16.{crc16, crc_loop, crc_byte}
use edu_glasses_host.Stream.Feed
use edu_glasses_host.Stream.{drain, scan}
use edu_glasses_host.Frame.{Frame, encode_frame, frame_pass, check_length, check_crc}
use edu_glasses_host.Frame.Delivery.{IsSendable, encode_all}
use edu_glasses_host.Base.Int.{pos, negsuc}
use edu_glasses_host.Payload.Reply.{SensorData}
use edu_glasses_host.Client.Commands.{get_sensors}
use edu_glasses_host.Client.Commands.Answers.{get_sensors-answered, request_ok-refused}
use edu_glasses_host.Client.{bad_status, request_ok, GlassesClient, Response, request, timed_out}
use edu_glasses_host.Client.Request.{IsAnswered, request-answered, request-unanswered}

abbrev client : GlassesClient
client = record { seq = 255; pending = []; buf = [] }

abbrev event : Frame
event = record { kind = 32; seq = 9; payload = 1 ∷ 1 ∷ 0 ∷ [] }

abbrev answer : Frame
answer = record { kind = 17; seq = 255; payload = 5 ∷ 0 ∷ 7 ∷ 8 ∷ [] }

abbrev response : Response
response = record { cmd_id = 5; status = 0; content = 7 ∷ 8 ∷ [] }

abbrev wire : Bytes
wire = 165 ∷ 90 ∷ 1 ∷ 16 ∷ 255 ∷ 1 ∷ 0 ∷ 5 ∷ 220 ∷ 99 ∷ []

abbrev reads : List Bytes
reads =
    (165 ∷ 90 ∷ 1 ∷ 32 ∷ 9 ∷ 3 ∷ 0 ∷ 1 ∷ [])
    ∷ (1 ∷ 0 ∷ 42 ∷ 186 ∷ 165 ∷ 90 ∷ 1 ∷ 17 ∷ 255 ∷ 4 ∷ 0 ∷ 5 ∷ 0 ∷ 7 ∷ 8 ∷ 60 ∷ 142 ∷ [])
    ∷ []

abbrev event_read : List Bytes
event_read = (165 ∷ 90 ∷ 1 ∷ 32 ∷ 9 ∷ 3 ∷ 0 ∷ 1 ∷ 1 ∷ 0 ∷ 42 ∷ 186 ∷ []) ∷ []

event-IsSendable : IsSendable event
event-IsSendable = record {
  kind_byte = omega arith;
  seq_byte = omega arith;
  payload_bytes = grind arith;
}

answer-IsSendable : IsSendable answer
answer-IsSendable = record {
  kind_byte = omega arith;
  seq_byte = omega arith;
  payload_bytes = grind arith;
}

client-IsAnswered : IsAnswered client reads (event ∷ []) [] answer
unfolding encode_all encode_frame crc16 crc_loop crc_byte to_le
client-IsAnswered = record {
  no_bytes = refl;
  sendable = (event-IsSendable, (answer-IsSendable, tt));
  stream = refl;
  only = (λ e. cc, (λ e. refl, tt));
  answers = refl;
}

request-answered_example :
    let done = request 5 [] reads client in
    (done.result ≡ ok response)
    × (done.written ≡ wire)
    × (lookup client.seq done.client.pending ≡ none)
    × (done.client.seq ≡ (client.seq + 1) % 2 ^ 8)
unfolding encode_frame crc16 crc_loop crc_byte to_le
request-answered_example =
    request-answered client 5 [] wire reads (event ∷ []) [] answer response refl client-IsAnswered
      refl

-- A damaged frame for the request, an event for nobody, and an unfinished frame.
abbrev noise : List Bytes
noise =
    (165 ∷ 90 ∷ 1 ∷ 17 ∷ 255 ∷ 2 ∷ 0 ∷ 5 ∷ 0 ∷ 1 ∷ 2 ∷ []) ∷ (event_read ++ ((165 ∷ 90 ∷ []) ∷ []))

request-unanswered_example :
    let done = request 5 [] noise client in
    (done.result ≡ err timed_out)
    × (done.written ≡ wire)
    × (lookup client.seq done.client.pending ≡ none)
    × (done.client.seq ≡ (client.seq + 1) % 2 ^ 8)
unfolding encode_frame crc16 crc_loop crc_byte to_le Feed.feed_all Feed.feed drain scan frame_pass
    check_length check_crc Feed.cut
request-unanswered_example = request-unanswered client 5 [] wire noise refl (refl, tt)

abbrev sensors : SensorData
sensors = record { als_raw = 300; battery_temp_c = negsuc 4; btcore_temp_c = pos 41 }

abbrev sensors_answer : Frame
sensors_answer = record { kind = 17; seq = 255; payload = 4 ∷ 0 ∷ 44 ∷ 1 ∷ 251 ∷ 41 ∷ 0 ∷ [] }

abbrev sensors_wire : Bytes
sensors_wire = 165 ∷ 90 ∷ 1 ∷ 16 ∷ 255 ∷ 1 ∷ 0 ∷ 4 ∷ 253 ∷ 115 ∷ []

abbrev sensors_reads : List Bytes
sensors_reads =
    (165 ∷ 90 ∷ 1 ∷ 17 ∷ 255 ∷ 7 ∷ 0 ∷ 4 ∷ 0 ∷ 44 ∷ 1 ∷ 251 ∷ 41 ∷ 0 ∷ 103 ∷ 77 ∷ []) ∷ []

sensors_answer-IsSendable : IsSendable sensors_answer
sensors_answer-IsSendable = record {
  kind_byte = omega arith;
  seq_byte = omega arith;
  payload_bytes = grind arith;
}

sensors-IsAnswered : IsAnswered client sensors_reads [] [] sensors_answer
unfolding encode_all encode_frame crc16 crc_loop crc_byte to_le
sensors-IsAnswered = record {
  no_bytes = refl;
  sendable = (sensors_answer-IsSendable, tt);
  stream = refl;
  only = (λ e. refl, tt);
  answers = refl;
}

get_sensors-answered_example : (get_sensors sensors_reads client).0 ≡ ok sensors
unfolding encode_frame crc16 crc_loop crc_byte to_le
get_sensors-answered_example =
    get_sensors-answered client sensors_wire sensors_reads [] [] sensors_answer sensors refl
      sensors-IsAnswered refl (omega arith) (omega arith) (omega arith)

abbrev busy_answer : Frame
busy_answer = record { kind = 17; seq = 255; payload = 1 ∷ 1 ∷ [] }

abbrev busy_response : Response
busy_response = record { cmd_id = 1; status = 1; content = [] }

abbrev busy_reads : List Bytes
busy_reads = (165 ∷ 90 ∷ 1 ∷ 17 ∷ 255 ∷ 2 ∷ 0 ∷ 1 ∷ 1 ∷ 92 ∷ 130 ∷ []) ∷ []

busy_answer-IsSendable : IsSendable busy_answer
busy_answer-IsSendable = record {
  kind_byte = omega arith;
  seq_byte = omega arith;
  payload_bytes = grind arith;
}

busy-IsAnswered : IsAnswered client busy_reads [] [] busy_answer
unfolding encode_all encode_frame crc16 crc_loop crc_byte to_le
busy-IsAnswered = record {
  no_bytes = refl;
  sendable = (busy_answer-IsSendable, tt);
  stream = refl;
  only = (λ e. refl, tt);
  answers = refl;
}

request_ok-refused_example :
    (request_ok 1 [] busy_reads client).result ≡ err (bad_status busy_response)
unfolding encode_frame crc16 crc_loop crc_byte to_le
request_ok-refused_example =
    request_ok-refused client 1 [] (165 ∷ 90 ∷ 1 ∷ 16 ∷ 255 ∷ 1 ∷ 0 ∷ 1 ∷ 88 ∷ 35 ∷ []) busy_reads
      [] [] busy_answer busy_response refl busy-IsAnswered refl (omega arith)
