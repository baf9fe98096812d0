-- ===== src/Payload/Reply/RoundTrip.antt =====
-- Replies as docs/PROTOCOL.md §2 and §3 lay them out, read back.
use edu_glasses_host.Base.{
  ◌^◌, ◌<◌, ◌≡◌, ap, ◌∙◌, false, [], ◌∷◌, ◌++◌, length, drop, ltb, not, ◌==◌, ok, arith,
  if◌then◌else◌,
}
use edu_glasses_host.Base.Int.{signed, Fits, unsigned, signed-unsigned, unsigned-lt}
use edu_glasses_host.Base.Bytes.{Bytes, byte_at, le_at, to_le, le-to_le}
use edu_glasses_host.Payload.Reply.{
  HelloAck, DeviceInfo, SensorData, parse_hello_ack, parse_device_info, parse_sensor_data,
}

abbrev pub hello_ack_bytes : HelloAck → Bytes
hello_ack_bytes a = a.proto_ver ∷ (to_le 8 a.fw_version ++ to_le 2 a.caps)

abbrev pub device_info_bytes : DeviceInfo → Bytes
device_info_bytes d = to_le 8 d.fw_version ++ (d.battery_level ∷ (if d.charging then 1 else 0) ∷ [])

abbrev pub sensor_bytes : SensorData → Bytes
sensor_bytes s =
    to_le 2 s.als_raw
    ++ (unsigned (2 ^ 7) s.battery_temp_c ∷ to_le 2 (unsigned (2 ^ 15) s.btcore_temp_c))

hello_ack-back :
    (a : HelloAck) (rest : Bytes)
    → a.fw_version < 2 ^ 64
    → a.caps < 2 ^ 16
    → parse_hello_ack (hello_ack_bytes a ++ rest) ≡ ok a
unfolding parse_hello_ack to_le
hello_ack-back a rest h k =
    let buf = hello_ack_bytes a ++ rest in
    let long : ltb (length buf) 11 ≡ false = ground arith in
    let fw : le_at 8 buf 1 ≡ a.fw_version = le-to_le 8 a.fw_version (to_le 2 a.caps ++ rest) h in
    let caps : le_at 2 buf 9 ≡ a.caps = le-to_le 2 a.caps rest k in cc (long, fw, caps)

pub device_info-back :
    (d : DeviceInfo) (rest : Bytes)
    → d.fw_version < 2 ^ 64
    → parse_device_info (device_info_bytes d ++ rest) ≡ ok d
unfolding parse_device_info to_le
device_info-back d rest h =
    let buf = device_info_bytes d ++ rest in
    let long : ltb (length buf) 10 ≡ false = ground arith in
    let fw : le_at 8 buf 0 ≡ d.fw_version = le-to_le 8 d.fw_version (drop 8 buf) h in
    let charging : not (byte_at buf 9 == 0) ≡ d.charging = ground arith in cc (long, fw, charging)

pub sensor_data-back :
    (s : SensorData) (rest : Bytes)
    → s.als_raw < 2 ^ 16
    → Fits (2 ^ 7) s.battery_temp_c
    → Fits (2 ^ 15) s.btcore_temp_c
    → parse_sensor_data (sensor_bytes s ++ rest) ≡ ok s
unfolding parse_sensor_data to_le
sensor_data-back s rest h k m =
    let buf = sensor_bytes s ++ rest in
    let core = unsigned (2 ^ 15) s.btcore_temp_c in
    let size : core < 256 ^ 2 = omega (arith, unsigned-lt (2 ^ 15) s.btcore_temp_c m) in
    let long : ltb (length buf) 5 ≡ false = ground arith in
    let als : le_at 2 buf 0 ≡ s.als_raw = le-to_le 2 s.als_raw (drop 2 buf) h in
    let battery : signed (2 ^ 7) (byte_at buf 2) ≡ s.battery_temp_c =
      signed-unsigned (2 ^ 7) s.battery_temp_c k in
    let btcore : signed (2 ^ 15) (le_at 2 buf 3) ≡ s.btcore_temp_c =
      ap (signed (2 ^ 15)) (le-to_le 2 core rest size)
      ∙ signed-unsigned (2 ^ 15) s.btcore_temp_c m in
    cc (long, als, battery, btcore)

-- Every reply whose numbers fit their fields is read back, and bytes behind it do not matter.
pub parse_reply-bytes :
    (a : HelloAck) (d : DeviceInfo) (s : SensorData) (rest : Bytes)
    → (a.fw_version < 2 ^ 64) × (a.caps < 2 ^ 16)
    → d.fw_version < 2 ^ 64
    → (s.als_raw < 2 ^ 16) × Fits (2 ^ 7) s.battery_temp_c × Fits (2 ^ 15) s.btcore_temp_c
    → (parse_hello_ack (hello_ack_bytes a ++ rest) ≡ ok a)
      × (parse_device_info (device_info_bytes d ++ rest) ≡ ok d)
      × (parse_sensor_data (sensor_bytes s ++ rest) ≡ ok s)
parse_reply-bytes a d s rest ha hd hs = (
  hello_ack-back a rest ha.0 ha.1,
  device_info-back d rest hd,
  sensor_data-back s rest hs.0 hs.1 hs.2,
)
