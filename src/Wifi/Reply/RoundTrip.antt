-- ===== src/Wifi/Reply/RoundTrip.antt =====
-- Outcomes of Wi-Fi commands as the device sends them.
use edu_glasses_host.Base.{
  ℕ, zero, suc, ◌-◌, ◌^◌, ◌<◌, ◌≤◌, ◌≡◌, refl, ap, ◌∙◌, Bool, true, false, if◌then◌else◌, Option,
  some, List, [], ◌∷◌, ◌++◌, append_assoc, length, length-append, take-append_all, drop-append_all,
  Result, ok, ◌>>=◌, raise_if, ltb, All, arith,
}
use edu_glasses_host.Base.Int.{signed, unsigned, Fits, signed-unsigned, unsigned-lt}
use edu_glasses_host.Base.Bytes.{Bytes, le_at, to_le, le-to_le}
use edu_glasses_host.Payload.Codes.{member}
use edu_glasses_host.Wifi.Codes.{
  wifi_security_code, wifi_security_enum, wifi_stage_enum, wifi_security_own,
}
use edu_glasses_host.Wifi.Reply.{
  WifiError, ssid_too_long, or_not_a_member, WifiNetwork, unpack, rstrip, flag, fixed_string,
  string, read_network, read_networks,
}

-- One step of a chain that goes on.
pub step :
    {A B : Type 0} {m : Result WifiError A} {a : A} (f : A → Result WifiError B)
    {r : Result WifiError B}
    → m ≡ ok a
    → f a ≡ r
    → (m >>= f) ≡ r
step f e h = ap (λ t. t >>= f) e ∙ h

pub unpack-append :
    (size : ℕ) (xs ys : Bytes) → size ≡ length xs → unpack size (xs ++ ys) ≡ ok (xs, ys)
unfolding unpack
unpack-append size xs ys h =
    let long : ltb (length (xs ++ ys)) size ≡ false = ground (arith, h, length-append xs ys) in
    ground (arith, long, h, take-append_all xs ys, drop-append_all xs ys)

abbrev pub zeros : ℕ → Bytes
zeros zero = []
zeros (suc n) = 0 ∷ zeros n

length-zeros : (n : ℕ) → length (zeros n) ≡ n
length-zeros zero = refl
length-zeros (suc n) = omega (arith, length-zeros n)

rstrip-zeros : (n : ℕ) → rstrip (zeros n) ≡ []
unfolding rstrip
rstrip-zeros zero = refl
rstrip-zeros (suc n) = cc (rstrip-zeros n)

rstrip-append-zeros : (xs : Bytes) (n : ℕ) → rstrip (xs ++ zeros n) ≡ rstrip xs
unfolding rstrip
rstrip-append-zeros [] n = rstrip-zeros n
rstrip-append-zeros (x ∷ xs) n = cc (rstrip-append-zeros xs n)

abbrev pub bit : Bool → ℕ
bit b = if b then 1 else 0

pub flag-bit : (b : Bool) → flag (bit b) ≡ b
flag-bit true = refl
flag-bit false = refl

-- What is relied on of UTF-8: a text that is encoded is decoded.
module _ {Text : Type 0} (utf8 : Bytes → Option Text) (encode : Text → Bytes)
    (back : (t : Text) → utf8 (encode t) ≡ some t) where
  -- A text that fits its field and does not end in NUL.
  abbrev pub IsText : ℕ → Text → Type 0
  IsText size t = (length (encode t) ≤ size) × (rstrip (encode t) ≡ encode t)

  abbrev pub string_bytes : Text → Bytes
  string_bytes t = length (encode t) ∷ encode t

  abbrev pub fixed_bytes : ℕ → Text → Bytes
  fixed_bytes size t = encode t ++ zeros (size - length (encode t))

  pub fixed-back :
      (size : ℕ) (t : Text) (rest : Bytes)
      → IsText size t
      → fixed_string utf8 size (fixed_bytes size t ++ rest) ≡ ok (t, rest)
  unfolding fixed_string
  fixed-back size t rest h =
      let pad = zeros (size - length (encode t)) in
      let whole : size ≡ length (encode t ++ pad) =
        omega (arith, h.0, length-append (encode t) pad, length-zeros (size - length (encode t))) in
      let text : utf8 (rstrip (encode t ++ pad)) ≡ some t =
        ap utf8 (rstrip-append-zeros (encode t) (size - length (encode t)) ∙ h.1) ∙ back t in
      step _ (unpack-append size (encode t ++ pad) rest whole) (cc text)

  pub string-back :
      (t : Text) (rest : Bytes) → IsText 32 t → string utf8 (string_bytes t ++ rest) ≡ ok (t, rest)
  unfolding string unpack fixed_string
  string-back t rest h =
      let size = length (encode t) in
      let text : utf8 (rstrip (encode t)) ≡ some t = ap utf8 h.1 ∙ back t in
      let small : ltb 32 size ≡ false = ground (arith, h.0) in
      step _ (unpack-append 1 (size ∷ []) (encode t ++ rest) refl) (
        step _ (ap (λ c. raise_if c ssid_too_long) small)
          (step _ (unpack-append size (encode t) rest refl) (cc text)))

  abbrev pub network_bytes : WifiNetwork Text → Bytes
  network_bytes n =
      string_bytes n.ssid
      ++ (to_le 4 n.channel
          ++ (to_le 4 (unsigned (2 ^ 31) n.rssi_dbm) ++ (wifi_security_code n.security ∷ [])))

  abbrev pub IsNetwork : WifiNetwork Text → Type 0
  IsNetwork n = IsText 32 n.ssid × ((n.channel < 2 ^ 32) × Fits (2 ^ 31) n.rssi_dbm)

  read_network-back :
      (n : WifiNetwork Text) (rest : Bytes)
      → IsNetwork n
      → read_network utf8 (network_bytes n ++ rest) ≡ ok (n, rest)
  unfolding read_network to_le
  read_network-back n rest h =
      let rssi = unsigned (2 ^ 31) n.rssi_dbm in
      let code = wifi_security_code n.security in
      let fields = to_le 4 n.channel ++ (to_le 4 rssi ++ (code ∷ [])) in
      let channel : le_at 4 fields 0 ≡ n.channel = le-to_le 4 n.channel _ h.1.0 in
      let small : rssi < 256 ^ 4 = omega (arith, unsigned-lt (2 ^ 31) n.rssi_dbm h.1.1) in
      let dbm : signed (2 ^ 31) (le_at 4 fields 4) ≡ n.rssi_dbm =
        ap (signed (2 ^ 31)) (le-to_le 4 rssi (code ∷ []) small)
        ∙ signed-unsigned (2 ^ 31) n.rssi_dbm h.1.1 in
      let own : or_not_a_member (member code) code ≡ ok n.security =
        ap (λ o. or_not_a_member o code) (wifi_security_own n.security) in
      ap (λ t. read_network utf8 (length (encode n.ssid) ∷ t))
        (append_assoc (encode n.ssid) fields rest)
      ∙ step _ (string-back n.ssid (fields ++ rest) h.0)
          (step _ (unpack-append 9 fields rest refl) (step _ own (cc (channel, dbm))))

  abbrev pub networks_bytes : List (WifiNetwork Text) → Bytes
  networks_bytes [] = []
  networks_bytes (n ∷ ns) = network_bytes n ++ networks_bytes ns

  pub read_networks-back :
      (ns : List (WifiNetwork Text)) (rest : Bytes)
      → All IsNetwork ns
      → read_networks utf8 (length ns) (networks_bytes ns ++ rest) ≡ ok (ns, rest)
  unfolding read_networks
  read_networks-back [] rest h = refl
  read_networks-back (n ∷ ns) rest h =
      ap (read_networks utf8 (suc (length ns)))
        (append_assoc (network_bytes n) (networks_bytes ns) rest)
      ∙ step _ (read_network-back n (networks_bytes ns ++ rest) h.0)
          (step _ (read_networks-back ns rest h.1) refl)
