-- ===== src/Ota/Reply.antt =====
-- The responses of the OTA channel: the dataclasses with a `parse` of looktech_glasses_sdk/ota_client.py.
pub mod RoundTrip
use edu_glasses_host.Base.{
  ℕ, zero, suc, ◌+◌, ◌*◌, List, [], ◌∷◌, ltb, length, drop, Result, ok, err, ◌>>=◌, ◌>>◌, raise_if,
}
use edu_glasses_host.Base.Bytes.{Bytes, byte_at, le_at, le}

-- The `ValueError`s, with the length seen.
pub data OtaReplyError : Type 0 where
  response_short : ℕ → OtaReplyError
  modules_truncated : ℕ → OtaReplyError

pub record DeviceModule : Type 0 where
  pub module_type : ℕ
  pub version : ℕ

pub record OtaDeviceInfo : Type 0 where
  pub sn : ℕ
  pub hw_version : ℕ
  pub fw_version : ℕ
  pub battery : ℕ
  pub modules : List DeviceModule

-- The loop of `OTADeviceInfo.parse`, with the bytes from `off` on.
unfoldable pub read_modules : ℕ → Bytes → List DeviceModule
read_modules zero input = []
read_modules (suc n) input =
    record { module_type = byte_at input 0; version = le_at 8 input 1 }
    ∷ read_modules n (drop 9 input)

unfoldable pub parse_ota_info : Bytes → Result OtaReplyError OtaDeviceInfo
unfolding read_modules
parse_ota_info payload = do
  raise_if (ltb (length payload) 20) (response_short (length payload))
  raise_if (ltb (length payload) (20 + byte_at payload 19 * 9)) (modules_truncated (length payload))
  ok (record {
    sn = le_at 2 payload 0;
    hw_version = le_at 8 payload 2;
    fw_version = le_at 8 payload 10;
    battery = byte_at payload 18;
    modules = read_modules (byte_at payload 19) (drop 20 payload);
  })

pub record CanUpdateResponse : Type 0 where
  pub sn : ℕ
  pub result : ℕ
  pub reason : ℕ

unfoldable pub parse_can_update : Bytes → Result OtaReplyError CanUpdateResponse
parse_can_update payload = do
  raise_if (ltb (length payload) 4) (response_short (length payload))
  ok (record { sn = le_at 2 payload 0; result = byte_at payload 2; reason = byte_at payload 3 })

pub record BlockResponse : Type 0 where
  pub sn : ℕ
  pub result : ℕ
  pub offset : ℕ
  pub size : ℕ

unfoldable pub parse_block_response : Bytes → Result OtaReplyError BlockResponse
parse_block_response payload = do
  raise_if (ltb (length payload) 11) (response_short (length payload))
  ok (record {
    sn = le_at 2 payload 0;
    result = byte_at payload 2;
    offset = le_at 4 payload 3;
    size = le_at 4 payload 7;
  })

pub record AsyncResponse : Type 0 where
  pub sn : ℕ
  pub result : ℕ

unfoldable pub parse_async_response : Bytes → Result OtaReplyError AsyncResponse
parse_async_response payload = do
  raise_if (ltb (length payload) 3) (response_short (length payload))
  ok (record { sn = le_at 2 payload 0; result = byte_at payload 2 })

pub record UpdateResult : Type 0 where
  pub sn : ℕ
  pub result : ℕ
  pub offset : ℕ
  pub size : ℕ
  pub reboot : ℕ

unfoldable pub parse_update_result : Bytes → Result OtaReplyError UpdateResult
parse_update_result payload = do
  raise_if (ltb (length payload) 12) (response_short (length payload))
  ok (record {
    sn = le_at 2 payload 0;
    result = byte_at payload 2;
    offset = le_at 4 payload 3;
    size = le_at 4 payload 7;
    reboot = byte_at payload 11;
  })
