-- ===== src/Payload/Reply.antt =====
-- The replies of looktech_glasses_sdk/protocol.py: `HelloAck`, `DeviceInfo`, `SensorData`, and the
-- version in them.
pub mod RoundTrip
pub mod Versions
use edu_glasses_host.Base.{
  ℕ, zero, suc, ◌+◌, ◌*◌, ◌/◌, ◌%◌, ◌^◌, Bool, true, false, not, List, [], ◌∷◌, ◌++◌, ltb, ◌==◌,
  if◌then◌else◌, length, Result, ok, err, ◌>>=◌, ◌>>◌, raise_if, bit_and,
}
use edu_glasses_host.Base.Bits.{shr}
use edu_glasses_host.Base.Int.{ℤ, signed}
use edu_glasses_host.Base.Bytes.{Bytes, byte_at, le_at, le}

-- A text, by its characters.
abbrev pub Text : Type 0
Text = List ℕ

-- `%d`: the decimal digits in front of a text. A number has at most `n` of them for the fuel `n`, and
-- five are enough for 16 bits.
unfoldable pub digits : ℕ → ℕ → Text → Text
digits zero n text = text
digits (suc fuel) n text =
    let longer = digits fuel (n / 10) ((48 + n % 10) ∷ text) in
    if ltb n 10 then (48 + n) ∷ text else longer

abbrev pub decimal : ℕ → Text
decimal n = digits 5 n []

abbrev pub minus : ℕ
minus = 45

abbrev pub plus : ℕ
plus = 43

abbrev pub dot : ℕ
dot = 46

-- `if n: s += …`
abbrev pub suffix : ℕ → ℕ → Text
suffix sign n = if n == 0 then [] else sign ∷ decimal n

unfoldable pub version_to_string : ℕ → Text
unfolding digits
version_to_string packed =
    let major = bit_and (shr packed 48) 0xffff in
    let minor = bit_and (shr packed 40) 0xff in
    let patch = bit_and (shr packed 32) 0xff in
    let pre_release = bit_and (shr packed 16) 0xffff in
    let build = bit_and packed 0xffff in
    (decimal major ++ (dot ∷ (decimal minor ++ (dot ∷ decimal patch))))
    ++ (suffix minus pre_release ++ suffix plus build)

-- The `ValueError` of a reply that is too short.
pub data ReplyError : Type 0 where
  reply_too_short : ℕ → ReplyError

pub record HelloAck : Type 0 where
  pub proto_ver : ℕ
  pub fw_version : ℕ
  pub caps : ℕ

unfoldable pub parse_hello_ack : Bytes → Result ReplyError HelloAck
parse_hello_ack payload = do
  raise_if (ltb (length payload) 11) (reply_too_short (length payload))
  ok (record {
    proto_ver = byte_at payload 0;
    fw_version = le_at 8 payload 1;
    caps = le_at 2 payload 9;
  })

pub record DeviceInfo : Type 0 where
  pub fw_version : ℕ
  pub battery_level : ℕ
  pub charging : Bool

unfoldable pub parse_device_info : Bytes → Result ReplyError DeviceInfo
parse_device_info input = do
  raise_if (ltb (length input) 10) (reply_too_short (length input))
  ok (record {
    fw_version = le_at 8 input 0;
    battery_level = byte_at input 8;
    charging = not (byte_at input 9 == 0);
  })

pub record SensorData : Type 0 where
  pub als_raw : ℕ
  pub battery_temp_c : ℤ
  pub btcore_temp_c : ℤ

unfoldable pub parse_sensor_data : Bytes → Result ReplyError SensorData
parse_sensor_data input = do
  raise_if (ltb (length input) 5) (reply_too_short (length input))
  ok (record {
    als_raw = le_at 2 input 0;
    battery_temp_c = signed (2 ^ 7) (byte_at input 2);
    btcore_temp_c = signed (2 ^ 15) (le_at 2 input 3);
  })
