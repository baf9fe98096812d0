-- ===== src/Payload/Tests.antt =====
-- Payloads on concrete bytes.
use edu_glasses_host.Base.{ℕ, ◌≡◌, ◌↔◌, refl, true, ok, err, [], ◌∷◌, ◌++◌, arith}
use edu_glasses_host.Base.Int.{pos, negsuc}
use edu_glasses_host.Payload.Caps.{caps_to_names}
use edu_glasses_host.Payload.Caps.RoundTrip.{total, caps_to_names-total}
use edu_glasses_host.Payload.Codes.Inputs.{key_action_enum}
use edu_glasses_host.Payload.Codes.Captures.{CaptureKind, CaptureSource, CaptureState}
use edu_glasses_host.Payload.Capture.{DeviceCaptureState, parse_capture_state}
use edu_glasses_host.Payload.Capture.RoundTrip.{
  IsConsistent, capture_bytes, parse_capture_state_iff,
}
use edu_glasses_host.Payload.Event.{GlassesEvent, knob_event, parse_event, empty_payload}
use edu_glasses_host.Payload.Event.RoundTrip.{
  event_bytes, Tells, parse_event-event_bytes, parse_event-Tells,
}
use edu_glasses_host.Payload.Reply.{
  HelloAck, DeviceInfo, SensorData, parse_hello_ack, parse_device_info, parse_sensor_data,
  version_to_string, digits,
}
use edu_glasses_host.Payload.Reply.RoundTrip.{
  hello_ack_bytes, device_info_bytes, sensor_bytes, parse_reply-bytes,
}
use edu_glasses_host.Payload.Reply.Versions.{version_to_string-injective}

abbrev recording : DeviceCaptureState
recording = record {
  photo = record {
    kind = CaptureKind.photo;
    source = CaptureSource.none;
    state = CaptureState.idle;
    error = 0;
  };
  video = record {
    kind = CaptureKind.video;
    source = CaptureSource.app;
    state = CaptureState.recording;
    error = 0;
  };
}

parse_capture_state_iff_example :
    (parse_capture_state (1 ∷ 0 ∷ 0 ∷ 0 ∷ 2 ∷ 2 ∷ 2 ∷ 0 ∷ []) ≡ ok recording)
    ↔ (((1 ∷ 0 ∷ 0 ∷ 0 ∷ 2 ∷ 2 ∷ 2 ∷ 0 ∷ []) ≡ capture_bytes recording) × IsConsistent recording)
parse_capture_state_iff_example =
    parse_capture_state_iff (1 ∷ 0 ∷ 0 ∷ 0 ∷ 2 ∷ 2 ∷ 2 ∷ 0 ∷ []) recording

abbrev turn : GlassesEvent
turn = knob_event 1 (negsuc 2) (pos 5)

parse_event-event_bytes_example : parse_event (event_bytes turn) ≡ ok turn
parse_event-event_bytes_example = parse_event-event_bytes turn (omega arith, omega arith)

parse_event-Tells_example :
    (parse_event [] ≡ err empty_payload)
    × ((e : GlassesEvent) × (parse_event (1 ∷ 2 ∷ []) ≡ ok e) × Tells 1 (2 ∷ []) e)
parse_event-Tells_example = parse_event-Tells 1 (2 ∷ [])

abbrev ack : HelloAck
ack = record { proto_ver = 1; fw_version = 0x0001020300040005; caps = 0xfff }

abbrev info : DeviceInfo
info = record { fw_version = 5; battery_level = 90; charging = true }

abbrev sensors : SensorData
sensors = record { als_raw = 300; battery_temp_c = negsuc 4; btcore_temp_c = pos 41 }

parse_reply-bytes_example :
    (parse_hello_ack (hello_ack_bytes ack ++ (9 ∷ [])) ≡ ok ack)
    × (parse_device_info (device_info_bytes info ++ (9 ∷ [])) ≡ ok info)
    × (parse_sensor_data (sensor_bytes sensors ++ (9 ∷ [])) ≡ ok sensors)
parse_reply-bytes_example =
    parse_reply-bytes ack info sensors (9 ∷ []) (omega arith, omega arith) (omega arith)
      (omega arith, omega arith, omega arith)

-- "1.2.3-4+5"
version_to_string_test :
    version_to_string 0x0001020300040005 ≡ 49 ∷ 46 ∷ 50 ∷ 46 ∷ 51 ∷ 45 ∷ 52 ∷ 43 ∷ 53 ∷ []
unfolding version_to_string digits
version_to_string_test = refl

version_to_string-injective_example : ◌≡◌ {A = ℕ} 0x0001020300040005 0x0001020300040005
version_to_string-injective_example =
    version_to_string-injective 0x0001020300040005 0x0001020300040005 (omega arith) (omega arith)
      refl

caps_to_names-total_example : total (caps_to_names 0x5003) ≡ 0x5003
caps_to_names-total_example = caps_to_names-total 0x5003
