-- ===== src/Ota/Reply/RoundTrip.antt =====
-- The responses as the device packs them, read back.
use edu_glasses_host.Base.{
  suc, ◌+◌, ◌*◌, ◌^◌, ◌<◌, ◌≡◌, refl, false, List, [], ◌∷◌, ◌++◌, length, length-append, drop, All,
  ltb, ok, arith,
}
use edu_glasses_host.Base.Bytes.{Bytes, byte_at, le_at, to_le, le-to_le}
use edu_glasses_host.Ota.Reply.{
  DeviceModule, OtaDeviceInfo, BlockResponse, UpdateResult, read_modules, parse_ota_info,
  parse_block_response, parse_update_result,
}

abbrev pub module_bytes : List DeviceModule → Bytes
module_bytes [] = []
module_bytes (m ∷ ms) = m.module_type ∷ (to_le 8 m.version ++ module_bytes ms)

abbrev pub info_bytes : OtaDeviceInfo → Bytes
info_bytes d =
    to_le 2 d.sn
    ++ (to_le 8 d.hw_version
        ++ (to_le 8 d.fw_version ++ (d.battery ∷ length d.modules ∷ module_bytes d.modules)))

abbrev pub HasVersion : DeviceModule → Type 0
HasVersion m = m.version < 2 ^ 64

-- Its numbers fit their fields.
pub record IsInfo (d : OtaDeviceInfo) : Type 0 where
  pub sn_fits : d.sn < 2 ^ 16
  pub hw_fits : d.hw_version < 2 ^ 64
  pub fw_fits : d.fw_version < 2 ^ 64
  pub modules_fit : All HasVersion d.modules

length-module_bytes : (ms : List DeviceModule) → length (module_bytes ms) ≡ length ms * 9
unfolding to_le
length-module_bytes [] = omega arith
length-module_bytes (m ∷ ms) = omega (arith, length-module_bytes ms)

read_modules-module_bytes :
    (ms : List DeviceModule) (rest : Bytes)
    → All HasVersion ms
    → read_modules (length ms) (module_bytes ms ++ rest) ≡ ms
unfolding read_modules to_le
read_modules-module_bytes [] rest h = refl
read_modules-module_bytes (m ∷ ms) rest h =
    let version = le-to_le 8 m.version (module_bytes ms ++ rest) h.0 in
    cc (version, read_modules-module_bytes ms rest h.1)

-- A device's information whose numbers fit their fields is read back with all its modules, and
-- bytes behind it do not matter.
pub parse_ota_info-info_bytes :
    (d : OtaDeviceInfo) (rest : Bytes) → IsInfo d → parse_ota_info (info_bytes d ++ rest) ≡ ok d
unfolding parse_ota_info to_le
parse_ota_info-info_bytes d rest h =
    let buf = info_bytes d ++ rest in
    let tail = module_bytes d.modules ++ rest in
    let size = length-append (module_bytes d.modules) rest in
    let count = length-module_bytes d.modules in
    let long : ltb (length buf) 20 ≡ false = ground (arith, size) in
    let whole : ltb (length buf) (20 + byte_at buf 19 * 9) ≡ false = ground (arith, size, count) in
    let sn : le_at 2 buf 0 ≡ d.sn = le-to_le 2 d.sn (drop 2 buf) h.sn_fits in
    let hw : le_at 8 buf 2 ≡ d.hw_version = le-to_le 8 d.hw_version (drop 10 buf) h.hw_fits in
    let fw : le_at 8 buf 10 ≡ d.fw_version = le-to_le 8 d.fw_version (drop 18 buf) h.fw_fits in
    let modules : read_modules (byte_at buf 19) (drop 20 buf) ≡ d.modules =
      read_modules-module_bytes d.modules rest h.modules_fit in
    cc (long, whole, sn, hw, fw, modules)

-- The answer to a block and the result of the update are read back when their numbers fit their
-- fields, and bytes behind them do not matter.
pub parse_progress-bytes :
    (b : BlockResponse) (u : UpdateResult) (rest : Bytes)
    → (b.sn < 2 ^ 16) × (b.offset < 2 ^ 32) × (b.size < 2 ^ 32)
    → (u.sn < 2 ^ 16) × (u.offset < 2 ^ 32) × (u.size < 2 ^ 32)
    → (parse_block_response
          (to_le 2 b.sn ++ (b.result ∷ (to_le 4 b.offset ++ (to_le 4 b.size ++ rest))))
        ≡ ok b)
      × (parse_update_result (
            to_le 2 u.sn
            ++ (u.result ∷ (to_le 4 u.offset ++ (to_le 4 u.size ++ (u.reboot ∷ rest)))))
          ≡ ok u)
unfolding parse_block_response parse_update_result to_le
parse_progress-bytes b u rest hb hu =
    let more = u.reboot ∷ rest in
    let long : ltb (suc (suc (suc (suc (suc (suc (suc (suc (suc (suc (suc (length rest))))))))))))
          11
        ≡ false =
      ground arith in
    let longer : ltb
          (suc (suc (suc (suc (suc (suc (suc (suc (suc (suc (suc (suc (length rest))))))))))))) 12
        ≡ false =
      ground arith in
    (
      cc (
        long,
        le-to_le 2 b.sn (b.result ∷ (to_le 4 b.offset ++ (to_le 4 b.size ++ rest))) hb.0,
        le-to_le 4 b.offset (to_le 4 b.size ++ rest) hb.1,
        le-to_le 4 b.size rest hb.2,
      ),
      cc (
        longer,
        le-to_le 2 u.sn (u.result ∷ (to_le 4 u.offset ++ (to_le 4 u.size ++ more))) hu.0,
        le-to_le 4 u.offset (to_le 4 u.size ++ more) hu.1,
        le-to_le 4 u.size more hu.2,
      ),
    )
