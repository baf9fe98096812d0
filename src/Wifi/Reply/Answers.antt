-- ===== src/Wifi/Reply/Answers.antt =====
-- Whole responses to Wi-Fi commands as the device sends them.
use edu_glasses_host.Base.{
  ℕ, ◌^◌, ◌<◌, ◌≤◌, ◌≡◌, refl, ap, sym, ◌∙◌, false, not, ◌==◌, Option, some, [], ◌∷◌, ◌++◌,
  append_assoc, append-nil, length, Result, ok, err, ◌>>=◌, ltb, raise_if, All, ◌⊎◌, arith,
}
use edu_glasses_host.Base.Bytes.{Bytes, byte_at, le_at, le, to_le, le-to_le}
use edu_glasses_host.Payload.Codes.{member}
use edu_glasses_host.Wifi.Codes.{
  WifiOperation, wifi_operation_code, wifi_security_code, wifi_stage_code, wifi_security_enum,
  wifi_stage_enum, wifi_security_own, wifi_stage_own, wifi_security_members,
}
use edu_glasses_host.Wifi.Reply.{
  WifiError, bad_page, operation_mismatch, or_not_a_member, trailing, failed, WifiScanPage,
  WifiStatus, Outcome, got_capabilities, got_page, got_status, done, securities_in,
  read_capabilities, read_page, read_status, read_kind, read_outcome, at_end,
}
use edu_glasses_host.Wifi.Reply.RoundTrip.{
  step, unpack-append, bit, flag-bit, IsText, string_bytes, string-back, fixed_bytes, fixed-back,
  IsNetwork, networks_bytes, read_networks-back,
}

-- What a device can answer: the bits of the securities it supports, a page, a status, an empty
-- success, or an error.
pub data Answer (Text : Type 0) : Type 0 where
  supports : (version bits : ℕ) → Answer Text
  lists : WifiScanPage Text → Answer Text
  reports : WifiStatus Text → Answer Text
  succeeds : Answer Text
  fails : ℕ → Answer Text

abbrev pub kind_of : {Text : Type 0} → Answer Text → ℕ
kind_of (supports version bits) = 0
kind_of (lists p) = 1
kind_of (reports s) = 2
kind_of succeeds = 3
kind_of (fails code) = 4

-- The operations that an answer is for.
abbrev pub IsFor : {Text : Type 0} → WifiOperation → Answer Text → Type 0
IsFor op (supports version bits) = op ≡ WifiOperation.capabilities
IsFor op (lists p) = op ≡ WifiOperation.scan
IsFor op (reports s) =
    (op ≡ WifiOperation.connect) ⊎ ((op ≡ WifiOperation.status) ⊎ (op ≡ WifiOperation.start_media))
IsFor op succeeds =
    (op ≡ WifiOperation.connect)
    ⊎ ((op ≡ WifiOperation.start_media) ⊎ (op ≡ WifiOperation.disconnect))
IsFor op (fails code) = Unit

-- Behind a whole outcome nothing may follow.
abbrev pub whole : {A : Type 0} → A → Bytes → Result WifiError A
whole a [] = ok a
whole a (b ∷ extra) = err trailing

abbrev pub meant : {Text : Type 0} → Answer Text → Bytes → Result WifiError (Outcome Text)
meant (supports version bits) extra =
    whole
      (got_capabilities
        (record { version = version; securities = securities_in bits wifi_security_members }))
      extra
meant (lists p) extra = whole (got_page p) extra
meant (reports s) extra = whole (got_status s) extra
meant succeeds extra = whole done extra
meant (fails code) extra = err (failed code)

module _ {Text : Type 0} (utf8 : Bytes → Option Text) (encode : Text → Bytes)
    (back : (t : Text) → utf8 (encode t) ≡ some t) where
  abbrev pub status_bytes : WifiStatus Text → Bytes
  status_bytes s =
      (wifi_stage_code s.stage ∷ s.failure ∷ (to_le 8 s.catalog_id ++ to_le 2 s.port))
      ++ (fixed_bytes utf8 encode back 16 s.ipv4
          ++ (string_bytes utf8 encode back s.ssid ++ (wifi_security_code s.security ∷ [])))

  abbrev pub page_head : WifiScanPage Text → Bytes
  page_head p =
      bit p.complete ∷ (to_le 4 p.next_offset ++ (bit p.has_more ∷ length p.networks ∷ []))

  abbrev pub answer_bytes : Answer Text → Bytes
  answer_bytes (supports version bits) = to_le 4 version ++ (bits ∷ [])
  answer_bytes (lists p) = page_head p ++ networks_bytes utf8 encode back p.networks
  answer_bytes (reports s) = status_bytes s
  answer_bytes succeeds = []
  answer_bytes (fails code) = code ∷ []

  -- Its numbers and texts fit their fields, and a page has at most five networks.
  abbrev pub IsAnswer : Answer Text → Type 0
  IsAnswer (supports version bits) = version < 2 ^ 32
  IsAnswer (lists p) =
      (p.next_offset < 2 ^ 32)
      × ((length p.networks ≤ 5) × All (IsNetwork utf8 encode back) p.networks)
  IsAnswer (reports s) =
      ((s.catalog_id < 2 ^ 64) × (s.port < 2 ^ 16))
      × (IsText utf8 encode back 16 s.ipv4 × IsText utf8 encode back 32 s.ssid)
  IsAnswer succeeds = Unit
  IsAnswer (fails code) = Unit

  read_page-back :
      (p : WifiScanPage Text) (rest : Bytes)
      → IsAnswer (lists p)
      → read_page utf8 (answer_bytes (lists p) ++ rest) ≡ ok (got_page p, rest)
  unfolding read_page to_le
  read_page-back p rest h =
      let networks = networks_bytes utf8 encode back p.networks in
      let few : ltb 5 (length p.networks) ≡ false = ground (arith, h.1.0) in
      let offset : le_at 4 (page_head p) 1 ≡ p.next_offset = le-to_le 4 p.next_offset _ h.0 in
      ap (read_page utf8) (append_assoc (page_head p) networks rest)
      ∙ step _ (unpack-append 7 (page_head p) (networks ++ rest) refl) (
          step _ (ap (λ c. raise_if c bad_page) few) (
            step _ (read_networks-back utf8 encode back p.networks rest h.1.1)
              (cc (offset, flag-bit p.complete, flag-bit p.has_more))))

  read_status-back :
      (s : WifiStatus Text) (rest : Bytes)
      → IsAnswer (reports s)
      → read_status utf8 (status_bytes s ++ rest) ≡ ok (got_status s, rest)
  unfolding read_status to_le
  read_status-back s rest h =
      let stage = wifi_stage_code s.stage in
      let code = wifi_security_code s.security in
      let fields = stage ∷ s.failure ∷ (to_le 8 s.catalog_id ++ to_le 2 s.port) in
      let ipv4 = fixed_bytes utf8 encode back 16 s.ipv4 in
      let ssid = string_bytes utf8 encode back s.ssid in
      let order : (fields ++ (ipv4 ++ (ssid ++ (code ∷ [])))) ++ rest
          ≡ fields ++ (ipv4 ++ (ssid ++ (code ∷ rest))) =
        append_assoc fields (ipv4 ++ (ssid ++ (code ∷ []))) rest
        ∙ ap (λ t. fields ++ t)
            (append_assoc ipv4 (ssid ++ (code ∷ [])) rest
              ∙ ap (λ t. ipv4 ++ t) (append_assoc ssid (code ∷ []) rest)) in
      let catalog : le_at 8 fields 2 ≡ s.catalog_id = le-to_le 8 s.catalog_id _ h.0.0 in
      let port : le_at 2 fields 10 ≡ s.port =
        ap (le 2) (sym (append-nil (to_le 2 s.port))) ∙ le-to_le 2 s.port [] h.0.1 in
      let own : or_not_a_member (member code) code ≡ ok s.security =
        ap (λ o. or_not_a_member o code) (wifi_security_own s.security) in
      let staged : or_not_a_member (member stage) stage ≡ ok s.stage =
        ap (λ o. or_not_a_member o stage) (wifi_stage_own s.stage) in
      ap (read_status utf8) order
      ∙ step _ (unpack-append 12 fields _ refl) (
          step _ (fixed-back utf8 encode back 16 s.ipv4 _ h.1.0) (
            step _ (string-back utf8 encode back s.ssid _ h.1.1) (
              step _ (unpack-append 1 (code ∷ []) rest refl)
                (step _ staged (step _ own (cc (catalog, port)))))))

  at_end-whole : {A : Type 0} (a : A) (extra : Bytes) → at_end (a, extra) ≡ whole a extra
  at_end-whole a [] = refl
  at_end-whole a (b ∷ extra) = refl

  read_capabilities-back :
      (version bits : ℕ) (rest : Bytes)
      → version < 2 ^ 32
      → read_capabilities utf8 (answer_bytes (supports version bits) ++ rest)
        ≡ ok (
          got_capabilities
              (record { version = version; securities = securities_in bits wifi_security_members }),
          rest,
        )
  unfolding read_capabilities to_le
  read_capabilities-back version bits rest h =
      let own = answer_bytes (supports version bits) in
      let number : le_at 4 own 0 ≡ version = le-to_le 4 version (bits ∷ []) h in
      step _ (unpack-append 5 own rest refl) (cc number)

  read_kind-back :
      (op : WifiOperation) (answer : Answer Text) (extra : Bytes)
      → IsFor op answer
      → IsAnswer answer
      → (read_kind utf8 op (kind_of answer) (answer_bytes answer ++ extra) >>= at_end)
        ≡ meant answer extra
  unfolding read_kind
  read_kind-back op (supports version bits) extra e h =
      let own = answer_bytes (supports version bits) in
      let kind : read_kind utf8 op 0 (own ++ extra) ≡ read_capabilities utf8 (own ++ extra) =
        ground (arith, e) in
      step _ (kind ∙ read_capabilities-back version bits extra h) (at_end-whole _ extra)
  read_kind-back op (lists p) extra e h =
      let kind : read_kind utf8 op 1 (answer_bytes (lists p) ++ extra)
          ≡ read_page utf8 (answer_bytes (lists p) ++ extra) =
        ground (arith, e) in
      step _ (kind ∙ read_page-back p extra h) (at_end-whole (got_page p) extra)
  read_kind-back op (reports s) extra e h =
      let kind : read_kind utf8 op 2 (status_bytes s ++ extra)
          ≡ read_status utf8 (status_bytes s ++ extra) =
        ground (arith, e) in
      step _ (kind ∙ read_status-back s extra h) (at_end-whole (got_status s) extra)
  read_kind-back op succeeds extra e h =
      let kind : read_kind utf8 op 3 extra ≡ ok (done, extra) = ground (arith, e) in
      step _ kind (at_end-whole done extra)
  read_kind-back op (fails code) extra e h =
      let raised : Bytes × Bytes → Result WifiError (Outcome Text × Bytes) =
        λ fields. err (failed (byte_at fields.0 0)) in
      ap (λ t. (t >>= raised) >>= at_end) (unpack-append 1 (code ∷ []) extra refl)

  -- Every answer to a Wi-Fi command comes out of the response that tells it, for an operation it is for; behind a whole
  -- answer, an error apart, anything more is refused.
  pub read_outcome-answer :
      (op : WifiOperation) (answer : Answer Text) (extra : Bytes)
      → IsFor op answer
      → IsAnswer answer
      → read_outcome utf8 op
          (wifi_operation_code op ∷ kind_of answer ∷ (answer_bytes answer ++ extra))
        ≡ meant answer extra
  unfolding read_outcome
  read_outcome-answer op answer extra e h =
      let echoed : raise_if (not (wifi_operation_code op == wifi_operation_code op))
            operation_mismatch
          ≡ ok tt =
        ground arith in
      step _
        (unpack-append 2 (wifi_operation_code op ∷ kind_of answer ∷ [])
          (answer_bytes answer ++ extra) refl)
        (step _ echoed (read_kind-back op answer extra e h))
