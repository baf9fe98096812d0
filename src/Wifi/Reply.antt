-- ===== src/Wifi/Reply.antt =====
-- The response to a Wi-Fi command, as `WifiClient.execute` of looktech_glasses_sdk/wifi.py reads it.
-- `bytes.decode('utf-8')` is a parameter.
pub mod RoundTrip
pub mod Answers
use edu_glasses_host.Base.{
  ℕ, zero, suc, ◌^◌, Bool, true, false, not, ◌&&◌, ◌||◌, Option, none, some, List, [], ◌∷◌, ltb,
  ◌==◌, if◌then◌else◌, length, take, drop, Result, ok, err, ◌>>=◌, ◌>>◌, raise_if, bit_and,
}
use edu_glasses_host.Base.Bits.{shl}
use edu_glasses_host.Base.Int.{ℤ, signed}
use edu_glasses_host.Base.Bytes.{Bytes, byte_at, le_at, le}
use edu_glasses_host.Payload.Codes.{member}
use edu_glasses_host.Session.{SessionError}
use edu_glasses_host.Wifi.Codes.{
  WifiOperation, WifiSecurity, WifiStage, wifi_operation_code, wifi_security_code,
  wifi_security_members, wifi_security_enum, wifi_stage_enum,
}

-- The exceptions of wifi.py; a device's error is `failed`.
pub data WifiError : Type 0 where
  from_session : SessionError → WifiError
  truncated ssid_too_long bad_text operation_mismatch bad_page trailing : WifiError
  not_a_member : ℕ → WifiError
  unexpected_outcome : ℕ → WifiError
  failed : ℕ → WifiError
  cursor_stuck scan_timed_out : WifiError
  bad_credentials security_unsupported connect_timed_out media_timed_out : WifiError
  wrong_result : WifiError

pub record WifiCapabilities : Type 0 where
  pub version : ℕ
  pub securities : List WifiSecurity

pub record WifiNetwork (Text : Type 0) : Type 0 where
  pub ssid : Text
  pub channel : ℕ
  pub rssi_dbm : ℤ
  pub security : WifiSecurity

pub record WifiScanPage (Text : Type 0) : Type 0 where
  pub complete : Bool
  pub next_offset : ℕ
  pub has_more : Bool
  pub networks : List (WifiNetwork Text)

pub record WifiStatus (Text : Type 0) : Type 0 where
  pub stage : WifiStage
  pub failure : ℕ
  pub catalog_id : ℕ
  pub port : ℕ
  pub ipv4 : Text
  pub ssid : Text
  pub security : WifiSecurity

-- What `execute` returns; `done` is `None`.
pub data Outcome (Text : Type 0) : Type 0 where
  got_capabilities : WifiCapabilities → Outcome Text
  got_page : WifiScanPage Text → Outcome Text
  got_status : WifiStatus Text → Outcome Text
  done : Outcome Text

-- `_Reader.unpack`, on the bytes from the offset on: the bytes of the fields, and those behind them.
unfoldable pub unpack : ℕ → Bytes → Result WifiError (Bytes × Bytes)
unpack size input =
    if ltb (length input) size then err truncated else ok (take size input, drop size input)

-- `value.rstrip(b'\0')`
abbrev keep_zero : ℕ → Bytes → Bytes
keep_zero b [] = if b == 0 then [] else b ∷ []
keep_zero b (c ∷ rest) = b ∷ c ∷ rest

unfoldable pub rstrip : Bytes → Bytes
rstrip [] = []
rstrip (b ∷ rest) = keep_zero b (rstrip rest)

-- `?` of `struct`
abbrev pub flag : ℕ → Bool
flag b = not (b == 0)

abbrev pub or_not_a_member : {E : Type 0} → Option E → ℕ → Result WifiError E
or_not_a_member none value = err (not_a_member value)
or_not_a_member (some e) value = ok e

-- The securities that are not UNSUPPORTED and have their bit.
unfoldable pub securities_in : ℕ → List WifiSecurity → List WifiSecurity
securities_in bits [] = []
securities_in bits (s ∷ ss) =
    let rest = securities_in bits ss in
    let code = wifi_security_code s in
    if not (code == 0) && not (bit_and bits (shl 1 code) == 0) then s ∷ rest else rest

-- The test at the end of `execute`.
abbrev pub at_end : {A : Type 0} → A × Bytes → Result WifiError A
at_end (a, []) = ok a
at_end (a, b ∷ input) = err trailing

abbrev pub is_op : WifiOperation → WifiOperation → Bool
is_op a b = wifi_operation_code a == wifi_operation_code b

module _ {Text : Type 0} (utf8 : Bytes → Option Text) where
  abbrev decoded : Option Text → Bytes → Result WifiError (Text × Bytes)
  decoded none rest = err bad_text
  decoded (some t) rest = ok (t, rest)

  -- `_Reader.string`, with the length given.
  unfoldable pub fixed_string : ℕ → Bytes → Result WifiError (Text × Bytes)
  fixed_string size input = do value ← unpack size input; decoded (utf8 (rstrip value.0)) value.1

  -- `_Reader.string`, with the length in front.
  unfoldable pub string : Bytes → Result WifiError (Text × Bytes)
  string input = do
    head ← unpack 1 input
    raise_if (ltb 32 (byte_at head.0 0)) ssid_too_long
    fixed_string (byte_at head.0 0) head.1

  -- One pass of the loop over the networks.
  unfoldable pub read_network : Bytes → Result WifiError (WifiNetwork Text × Bytes)
  read_network input = do
    ssid ← string input
    fields ← unpack 9 ssid.1
    security ← or_not_a_member (member (byte_at fields.0 8)) (byte_at fields.0 8)
    ok (
      record {
        ssid = ssid.0;
        channel = le_at 4 fields.0 0;
        rssi_dbm = signed (2 ^ 31) (le_at 4 fields.0 4);
        security = security;
      },
      fields.1,
    )

  unfoldable pub read_networks : ℕ → Bytes → Result WifiError (List (WifiNetwork Text) × Bytes)
  read_networks zero input = ok ([], input)
  read_networks (suc n) input = do
    network ← read_network input
    rest ← read_networks n network.1
    ok (network.0 ∷ rest.0, rest.1)

  unfoldable pub read_capabilities : Bytes → Result WifiError (Outcome Text × Bytes)
  read_capabilities input = do
    fields ← unpack 5 input
    ok (
      got_capabilities (record {
        version = le_at 4 fields.0 0;
        securities = securities_in (byte_at fields.0 4) wifi_security_members;
      }),
      fields.1,
    )

  unfoldable pub read_page : Bytes → Result WifiError (Outcome Text × Bytes)
  read_page input = do
    fields ← unpack 7 input
    raise_if (ltb 5 (byte_at fields.0 6)) bad_page
    networks ← read_networks (byte_at fields.0 6) fields.1
    ok (
      got_page (record {
        complete = flag (byte_at fields.0 0);
        next_offset = le_at 4 fields.0 1;
        has_more = flag (byte_at fields.0 5);
        networks = networks.0;
      }),
      networks.1,
    )

  unfoldable pub read_status : Bytes → Result WifiError (Outcome Text × Bytes)
  read_status input = do
    fields ← unpack 12 input
    ipv4 ← fixed_string 16 fields.1
    ssid ← string ipv4.1
    security ← unpack 1 ssid.1
    stage ← or_not_a_member (member (byte_at fields.0 0)) (byte_at fields.0 0)
    own ← or_not_a_member (member (byte_at security.0 0)) (byte_at security.0 0)
    ok (
      got_status (record {
        stage = stage;
        failure = byte_at fields.0 1;
        catalog_id = le_at 8 fields.0 2;
        port = le_at 2 fields.0 10;
        ipv4 = ipv4.0;
        ssid = ssid.0;
        security = own;
      }),
      security.1,
    )

  -- The chain of tests on the kind and the operation.
  unfoldable pub read_kind : WifiOperation → ℕ → Bytes → Result WifiError (Outcome Text × Bytes)
  unfolding read_capabilities
  read_kind op kind input =
      if kind == 4
      then unpack 1 input >>= (λ fields. err (failed (byte_at fields.0 0)))
      else if kind == 0 && is_op op WifiOperation.capabilities
      then read_capabilities input
      else if kind == 1 && is_op op WifiOperation.scan
      then read_page input
      else if kind == 2
          && (is_op op WifiOperation.connect
              || (is_op op WifiOperation.status || is_op op WifiOperation.start_media))
      then read_status input
      else if kind == 3
          && (is_op op WifiOperation.connect
              || (is_op op WifiOperation.start_media || is_op op WifiOperation.disconnect))
      then ok (done, input)
      else err (unexpected_outcome kind)

  -- `execute`, behind the request.
  unfoldable pub read_outcome : WifiOperation → Bytes → Result WifiError (Outcome Text)
  read_outcome op input = do
    head ← unpack 2 input
    raise_if (not (byte_at head.0 0 == wifi_operation_code op)) operation_mismatch
    outcome ← read_kind op (byte_at head.0 1) head.1
    at_end outcome
