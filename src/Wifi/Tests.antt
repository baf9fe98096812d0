-- ===== src/Wifi/Tests.antt =====
-- Wi-Fi responses on concrete bytes, and what the theorems say of them.
use edu_glasses_host.Base.{
  ℕ, ◌≡◌, ◌≤◌, ◌↔◌, refl, true, false, Option, List, map, some, ok, [], ◌∷◌, ◌++◌, arith,
}
use edu_glasses_host.Base.Int.{negsuc}
use edu_glasses_host.Base.Bytes.{Bytes}
use edu_glasses_host.Session.State.{Session, Arrivals, new_session}
use edu_glasses_host.Wifi.Codes.{WifiOperation, WifiSecurity, wifi_operation_code}
use edu_glasses_host.Wifi.Reply.{WifiNetwork, WifiScanPage, rstrip, read_outcome}
use edu_glasses_host.Wifi.Reply.Answers.{lists, kind_of, answer_bytes, meant, read_outcome-answer}
use edu_glasses_host.Wifi.Scan.{PageAt, Listed, scan_iff}
use edu_glasses_host.Wifi.{scan}

-- Texts are their own bytes here.
abbrev ascii : Bytes → Option Bytes
ascii input = some input

abbrev encode : Bytes → Bytes
encode t = t

abbrev network : WifiNetwork Bytes
network = record {
  ssid = 104 ∷ 105 ∷ [];
  channel = 2412;
  rssi_dbm = negsuc 54;
  security = WifiSecurity.wpa2;
}

abbrev one_page : WifiScanPage Bytes
one_page = record { complete = true; next_offset = 1; has_more = true; networks = network ∷ [] }

read_outcome-answer_example :
    read_outcome ascii WifiOperation.scan (
      wifi_operation_code WifiOperation.scan
      ∷ kind_of (lists one_page)
      ∷ (answer_bytes ascii encode (λ t. refl) (lists one_page) ++ (9 ∷ [])))
    ≡ meant (lists one_page) (9 ∷ [])
unfolding rstrip
read_outcome-answer_example =
    read_outcome-answer ascii encode (λ t. refl) WifiOperation.scan (lists one_page) (9 ∷ []) refl
      (omega arith, (omega arith, (((omega arith, refl), (omega arith, omega arith)), tt)))

-- The responses with the numbers 1, 2 and 3: a page that is not complete, one with a network and
-- more to come, and the last one.
abbrev not_yet : Bytes
not_yet = 165 ∷ 90 ∷ 1 ∷ 17 ∷ 1 ∷ 11 ∷ 0 ∷ 32 ∷ 0 ∷ 3 ∷ 1 ∷ 0 ∷ 0 ∷ 0 ∷ 0 ∷ 0 ∷ 0 ∷ 0 ∷ 43 ∷ 93 ∷ []

abbrev first_page : Bytes
first_page =
    165 ∷ 90 ∷ 1 ∷ 17 ∷ 2 ∷ 23 ∷ 0 ∷ 32 ∷ 0 ∷ 3 ∷ 1 ∷ 1 ∷ 1 ∷ 0 ∷ 0 ∷ 0 ∷ 1 ∷ 1 ∷ 2 ∷ 104 ∷ 105
    ∷ 108 ∷ 9 ∷ 0 ∷ 0 ∷ 201 ∷ 255 ∷ 255 ∷ 255 ∷ 5 ∷ 222 ∷ 23 ∷ []

abbrev last_page : Bytes
last_page =
    165 ∷ 90 ∷ 1 ∷ 17 ∷ 3 ∷ 11 ∷ 0 ∷ 32 ∷ 0 ∷ 3 ∷ 1 ∷ 1 ∷ 2 ∷ 0 ∷ 0 ∷ 0 ∷ 0 ∷ 0 ∷ 200 ∷ 152 ∷ []

abbrev arrives : Bytes → Arrivals
arrives input = record { reads = input ∷ []; photos = []; frames = 0; lost = false }

-- The poll behind a request, and the five of a pause.
abbrev quiet : List Arrivals
quiet = map arrives ([] ∷ [] ∷ [] ∷ [] ∷ [] ∷ [] ∷ [])

abbrev session : Session
session = record (new_session []) {
  client = some (record { seq = 1; pending = []; buf = [] });
  is_open = true;
  hello_ack = some (record { proto_ver = 1; fw_version = 7; caps = 4095 });
  coming = arrives not_yet ∷ (quiet ++ (arrives first_page ∷ (quiet ++ (arrives last_page ∷ []))));
}

abbrev scanned : Session
scanned = (scan ascii 2 session).1

-- The scan returns the network, after both pauses.
scan_iff_example :
    (scan ascii 2 session ≡ (ok (network ∷ []), scanned))
    ↔ ((k : ℕ) × (k ≤ 2) × Listed (PageAt ascii) k 0 session (network ∷ []) scanned)
scan_iff_example = scan_iff ascii 2 session scanned (network ∷ [])
