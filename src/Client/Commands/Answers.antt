-- ===== src/Client/Commands/Answers.antt =====
-- What the commands return when the device answers.
use edu_glasses_host.Base.{
  ℕ, ◌^◌, ◌<◌, ◌≡◌, ◌≢◌, refl, ap, sym, ◌∙◌, List, [], ◌∷◌, append-nil, ok, err, ◌>>=◌, arith,
}
use edu_glasses_host.Base.Bytes.{Bytes}
use edu_glasses_host.Base.Int.{Fits}
use edu_glasses_host.Frame.{Frame, encode_frame}
use edu_glasses_host.Payload.Reply.{SensorData, parse_sensor_data}
use edu_glasses_host.Payload.Reply.RoundTrip.{sensor_bytes, sensor_data-back}
use edu_glasses_host.Client.{GlassesClient, Response, bad_status, request_ok, check_status}
use edu_glasses_host.Client.Request.{IsAnswered, request-answered}
use edu_glasses_host.Client.Commands.{or_failed, or_bad_reply, get_sensors}

module _ (c : GlassesClient) (cmd_id : ℕ) (args wire : Bytes) (reads : List Bytes)
    (before after : List Frame) (answer : Frame) where
  request_ok-check :
      (response : Response)
      → encode_frame 0x10 c.seq (cmd_id ∷ args) ≡ ok wire
      → IsAnswered c reads before after answer
      → answer.payload ≡ response.cmd_id ∷ response.status ∷ response.content
      → (request_ok cmd_id args reads c).result ≡ check_status response
  unfolding request_ok
  request_ok-check response e h payload =
      let (result, written, table, seq) =
        request-answered c cmd_id args wire reads before after answer response e h payload in
      ap (λ r. r >>= check_status) result

  accepted : (response : Response) → response.status ≡ 0 → check_status response ≡ ok response
  unfolding check_status
  accepted response h = ground (arith, h)

  -- A command that the device refuses, with any status but OK, fails with the response.
  pub request_ok-refused :
      (response : Response)
      → encode_frame 0x10 c.seq (cmd_id ∷ args) ≡ ok wire
      → IsAnswered c reads before after answer
      → answer.payload ≡ response.cmd_id ∷ response.status ∷ response.content
      → response.status ≢ 0
      → (request_ok cmd_id args reads c).result ≡ err (bad_status response)
  unfolding check_status
  request_ok-refused response e h payload refused =
      request_ok-check response e h payload ∙ ground (arith, refused)

-- The sensors' values as the device measured them, negative temperatures included, come out of
-- `get_sensors` when it answers with status OK, whatever frames arrive around the answer.
pub get_sensors-answered :
    (c : GlassesClient) (wire : Bytes) (reads : List Bytes) (before after : List Frame)
    (answer : Frame) (s : SensorData)
    → encode_frame 0x10 c.seq (0x04 ∷ []) ≡ ok wire
    → IsAnswered c reads before after answer
    → answer.payload ≡ 0x04 ∷ 0 ∷ sensor_bytes s
    → s.als_raw < 2 ^ 16
    → Fits (2 ^ 7) s.battery_temp_c
    → Fits (2 ^ 15) s.btcore_temp_c
    → (get_sensors reads c).0 ≡ ok s
unfolding get_sensors
get_sensors-answered c wire reads before after answer s e h payload als battery core =
    let response : Response = record { cmd_id = 0x04; status = 0; content = sensor_bytes s } in
    let done =
      request_ok-check c 0x04 [] wire reads before after answer response e h payload
      ∙ accepted c 0x04 [] wire reads before after answer response refl in
    let parsed : parse_sensor_data (sensor_bytes s) ≡ ok s =
      ap parse_sensor_data (sym (append-nil (sensor_bytes s)))
      ∙ sensor_data-back s [] als battery core in
    ap (λ r. or_failed r >>= (λ t. or_bad_reply (parse_sensor_data t.content))) done
    ∙ ap or_bad_reply parsed
