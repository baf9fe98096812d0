-- ===== src/Wifi.antt =====
-- `WifiClient` of looktech_glasses_sdk/wifi.py, on a session.
pub mod Codes
pub mod Reply
pub mod Scan
mod Tests
use edu_glasses_host.Base.{
  ℕ, zero, suc, Bool, true, false, not, ◌&&◌, ◌||◌, Option, none, some, List, [], ◌∷◌, ◌++◌, ltb,
  leb, ◌==◌, if◌then◌else◌, length, Result, ok, err,
}
use edu_glasses_host.Base.Bits.{shl}
use edu_glasses_host.Base.Bytes.{Bytes, to_le}
use edu_glasses_host.Payload.Codes.Commands.{CommandId, command_id_code}
use edu_glasses_host.Session.{SessionError, require, request, wait}
use edu_glasses_host.Session.State.{Session, Op, return, raise, ◌>>=◌, ◌>>◌, raise_if, given, lift}
use Codes.{
  WifiOperation, WifiSecurity, WifiStage, wifi_operation_code, wifi_security_code, wifi_stage_code,
}
use Reply.{
  WifiError, from_session, cursor_stuck, scan_timed_out, bad_credentials, security_unsupported,
  connect_timed_out, media_timed_out, failed, wrong_result, WifiCapabilities, WifiNetwork,
  WifiScanPage, WifiStatus, Outcome, got_capabilities, got_page, got_status, done, read_outcome,
}

abbrev pub cap_wifi : ℕ
cap_wifi = shl 1 5

-- What a caller takes the result for; another would be an `AttributeError`.
abbrev pub as_capabilities : {Text : Type 0} → Outcome Text → Result WifiError WifiCapabilities
as_capabilities (got_capabilities c) = ok c
as_capabilities _ = err wrong_result

abbrev pub as_page : {Text : Type 0} → Outcome Text → Result WifiError (WifiScanPage Text)
as_page (got_page p) = ok p
as_page _ = err wrong_result

abbrev pub as_status : {Text : Type 0} → Outcome Text → Result WifiError (WifiStatus Text)
as_status (got_status s) = ok s
as_status _ = err wrong_result

abbrev pub is_stage : WifiStage → WifiStage → Bool
is_stage a b = wifi_stage_code a == wifi_stage_code b

abbrev pub in_session : {A : Type 0} → Op SessionError A → Op WifiError A
in_session = lift from_session

-- The pause of 0.2 s between two passes of a loop is four polls of 0.05 s.
abbrev pub pause : Op WifiError (Unit {0})
pause = in_session (wait 4)

-- The loops run on the number of passes that end before the deadline; the pass after those is the
-- last.
abbrev pub by_page :
    {Text : Type 0}
    → ℕ
    → List (WifiNetwork Text)
    → WifiScanPage Text
    → (ℕ → List (WifiNetwork Text) → Op WifiError (List (WifiNetwork Text)))
    → Op WifiError (List (WifiNetwork Text))
by_page offset found page again =
    if not page.complete
    then again offset found
    else if not page.has_more
    then return (found ++ page.networks)
    else if leb page.next_offset offset
    then raise cursor_stuck
    else again page.next_offset (found ++ page.networks)

-- The loop of `scan` from an offset, with the networks found so far.
unfoldable pub scan_loop :
    {Text : Type 0}
    → (ℕ → Op WifiError (WifiScanPage Text))
    → ℕ
    → ℕ
    → List (WifiNetwork Text)
    → Op WifiError (List (WifiNetwork Text))
scan_loop fetch zero offset found = do
  page ← fetch offset
  by_page offset found page (λ next more. raise scan_timed_out)
scan_loop fetch (suc n) offset found = do
  page ← fetch offset
  by_page offset found page (λ next more. pause >> scan_loop fetch n next more)

-- A pass of `connect`: the network is there, or it failed, or it is not there yet.
abbrev pub connected_or :
    {Text : Type 0}
    → WifiStatus Text
    → Op WifiError (WifiStatus Text)
    → Op WifiError (WifiStatus Text)
connected_or status again =
    if is_stage status.stage WifiStage.connected || is_stage status.stage WifiStage.serving
    then return status
    else if is_stage status.stage WifiStage.failed
    then raise (failed status.failure)
    else again

unfoldable pub connect_loop :
    {Text : Type 0} → Op WifiError (WifiStatus Text) → ℕ → Op WifiError (WifiStatus Text)
connect_loop poll_status zero = do
  status ← poll_status
  connected_or status (raise connect_timed_out)
connect_loop poll_status (suc n) = do
  status ← poll_status
  connected_or status (pause >> connect_loop poll_status n)

-- A pass of `start_media`.
abbrev pub serving_or :
    {Text : Type 0}
    → (Text → Bool)
    → WifiStatus Text
    → Op WifiError (WifiStatus Text)
    → Op WifiError (WifiStatus Text)
serving_or is_empty status again =
    if is_stage status.stage WifiStage.serving
      && (not (is_empty status.ipv4) && (not (status.port == 0) && not (status.catalog_id == 0)))
    then return status
    else if is_stage status.stage WifiStage.failed
    then raise (failed status.failure)
    else again

unfoldable pub media_loop :
    {Text : Type 0}
    → (Text → Bool)
    → Op WifiError (WifiStatus Text)
    → ℕ
    → Op WifiError (WifiStatus Text)
media_loop is_empty poll_status zero = do
  status ← poll_status
  serving_or is_empty status (raise media_timed_out)
media_loop is_empty poll_status (suc n) = do
  status ← poll_status
  serving_or is_empty status (pause >> media_loop is_empty poll_status n)

abbrev pub has_zero : Bytes → Bool
has_zero [] = false
has_zero (b ∷ rest) = b == 0 || has_zero rest

-- The test of the name and the key in `connect`.
abbrev pub is_bad : Bytes → Bytes → Bool
is_bad name key =
    not (leb 1 (length name) && leb (length name) 32)
    || (ltb 64 (length key) || has_zero (name ++ key))

abbrev pub has_security : WifiSecurity → List WifiSecurity → Bool
has_security s [] = false
has_security s (t ∷ ts) = wifi_security_code s == wifi_security_code t || has_security s ts

module _ {Text : Type 0} (utf8 : Bytes → Option Text) where
  unfoldable pub execute : WifiOperation → Bytes → Op WifiError (Outcome Text)
  execute op args = do
    in_session (require cap_wifi true)
    response ←
        in_session
          (request (command_id_code CommandId.wifi_execute) (wifi_operation_code op ∷ args))
    given (read_outcome utf8 op response.content)

  unfoldable pub get_capabilities : Op WifiError WifiCapabilities
  get_capabilities = do
    outcome ← execute WifiOperation.capabilities []
    given (as_capabilities outcome)

  unfoldable pub get_page : ℕ → Op WifiError (WifiScanPage Text)
  get_page offset = do
    outcome ← execute WifiOperation.scan (to_le 4 offset)
    given (as_page outcome)

  unfoldable pub get_status : Op WifiError (WifiStatus Text)
  get_status = do outcome ← execute WifiOperation.status []; given (as_status outcome)

  unfoldable pub scan : ℕ → Op WifiError (List (WifiNetwork Text))
  scan n = scan_loop get_page n 0 []

  -- `connect`, with the name and the password as UTF-8.
  unfoldable pub connect : Bytes → Bytes → WifiSecurity → ℕ → Op WifiError (WifiStatus Text)
  connect name key security n = do
    raise_if (is_bad name key) bad_credentials
    caps ← get_capabilities
    raise_if (not (has_security security caps.securities)) security_unsupported
    execute WifiOperation.connect
        (wifi_security_code security ∷ length name ∷ length key ∷ (name ++ key))
    connect_loop get_status n

  unfoldable pub start_media : (Text → Bool) → ℕ → Op WifiError (WifiStatus Text)
  start_media is_empty n = do execute WifiOperation.start_media []; media_loop is_empty get_status n

  unfoldable pub disconnect : Op WifiError (Outcome Text)
  disconnect = execute WifiOperation.disconnect []
