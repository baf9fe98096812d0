-- ===== src/Wifi/Codes.antt =====
-- Enumerations of looktech_glasses_sdk/wifi.py: operations, securities and stages of Wi-Fi.
use edu_glasses_host.Base.{ℕ, ◌≡◌, refl, some, List, [], ◌∷◌}
use edu_glasses_host.Payload.Codes.{IntEnum, find}

pub data WifiOperation : Type 0 where
  capabilities : WifiOperation
  scan : WifiOperation
  connect : WifiOperation
  start_media : WifiOperation
  status : WifiOperation
  disconnect : WifiOperation

abbrev pub wifi_operation_code : WifiOperation → ℕ
wifi_operation_code capabilities = 2
wifi_operation_code scan = 3
wifi_operation_code connect = 7
wifi_operation_code start_media = 8
wifi_operation_code status = 9
wifi_operation_code disconnect = 10

abbrev pub wifi_operation_members : List WifiOperation
wifi_operation_members =
    WifiOperation.capabilities ∷ WifiOperation.scan ∷ WifiOperation.connect
    ∷ WifiOperation.start_media ∷ WifiOperation.status ∷ WifiOperation.disconnect ∷ []

pub wifi_operation_own :
    (e : WifiOperation)
    → find wifi_operation_code wifi_operation_members (wifi_operation_code e) ≡ some e
wifi_operation_own capabilities = refl
wifi_operation_own scan = refl
wifi_operation_own connect = refl
wifi_operation_own start_media = refl
wifi_operation_own status = refl
wifi_operation_own disconnect = refl

instance abbrev pub wifi_operation_enum : IntEnum WifiOperation
wifi_operation_enum = record {
  code = wifi_operation_code;
  members = wifi_operation_members;
  own = wifi_operation_own;
}

pub data WifiSecurity : Type 0 where
  unsupported : WifiSecurity
  open_network : WifiSecurity
  wep : WifiSecurity
  wep_shared : WifiSecurity
  wpa : WifiSecurity
  wpa2 : WifiSecurity
  wpa3 : WifiSecurity

abbrev pub wifi_security_code : WifiSecurity → ℕ
wifi_security_code unsupported = 0
wifi_security_code open_network = 1
wifi_security_code wep = 2
wifi_security_code wep_shared = 3
wifi_security_code wpa = 4
wifi_security_code wpa2 = 5
wifi_security_code wpa3 = 6

abbrev pub wifi_security_members : List WifiSecurity
wifi_security_members =
    WifiSecurity.unsupported ∷ WifiSecurity.open_network ∷ WifiSecurity.wep
    ∷ WifiSecurity.wep_shared ∷ WifiSecurity.wpa ∷ WifiSecurity.wpa2 ∷ WifiSecurity.wpa3 ∷ []

pub wifi_security_own :
    (e : WifiSecurity)
    → find wifi_security_code wifi_security_members (wifi_security_code e) ≡ some e
wifi_security_own unsupported = refl
wifi_security_own open_network = refl
wifi_security_own wep = refl
wifi_security_own wep_shared = refl
wifi_security_own wpa = refl
wifi_security_own wpa2 = refl
wifi_security_own wpa3 = refl

instance abbrev pub wifi_security_enum : IntEnum WifiSecurity
wifi_security_enum = record {
  code = wifi_security_code;
  members = wifi_security_members;
  own = wifi_security_own;
}

pub data WifiStage : Type 0 where
  idle : WifiStage
  scanning : WifiStage
  connecting : WifiStage
  dhcp : WifiStage
  connected : WifiStage
  serving : WifiStage
  stopping : WifiStage
  failed : WifiStage

abbrev pub wifi_stage_code : WifiStage → ℕ
wifi_stage_code idle = 0
wifi_stage_code scanning = 1
wifi_stage_code connecting = 2
wifi_stage_code dhcp = 3
wifi_stage_code connected = 5
wifi_stage_code serving = 6
wifi_stage_code stopping = 7
wifi_stage_code failed = 8

abbrev pub wifi_stage_members : List WifiStage
wifi_stage_members =
    WifiStage.idle ∷ WifiStage.scanning ∷ WifiStage.connecting ∷ WifiStage.dhcp
    ∷ WifiStage.connected ∷ WifiStage.serving ∷ WifiStage.stopping ∷ WifiStage.failed ∷ []

pub wifi_stage_own :
    (e : WifiStage) → find wifi_stage_code wifi_stage_members (wifi_stage_code e) ≡ some e
wifi_stage_own idle = refl
wifi_stage_own scanning = refl
wifi_stage_own connecting = refl
wifi_stage_own dhcp = refl
wifi_stage_own connected = refl
wifi_stage_own serving = refl
wifi_stage_own stopping = refl
wifi_stage_own failed = refl

instance abbrev pub wifi_stage_enum : IntEnum WifiStage
wifi_stage_enum = record {
  code = wifi_stage_code;
  members = wifi_stage_members;
  own = wifi_stage_own;
}
