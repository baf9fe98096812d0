-- ===== src/Ota/Link/Takes.antt =====
-- How many of the reads to come the requests and the polls take.
use edu_glasses_host.Base.{
  ℕ, zero, suc, ◌+◌, ◌≤◌, ◌≡◌, ◌≢◌, refl, Bool, true, false, Option, none, some, List, [], ◌∷◌,
  ◌++◌, if◌then◌else◌, length, length-append, Result, ok, err, ◌==◌, arith,
}
use edu_glasses_host.Base.Bytes.{Bytes, to_le}
use edu_glasses_host.Ota.Packet
use edu_glasses_host.Ota.Packet.{Packet, PackError}
use edu_glasses_host.Ota.Reply.{
  OtaReplyError, parse_ota_info, parse_can_update, parse_block_response, parse_async_response,
  parse_update_result,
}
use edu_glasses_host.Ota.Link.{
  Link, LinkError, still_sending, async_ok, async_fail, verify_failed, result_failed, advance,
  op_get_info, op_can_update, op_enter_update, op_verify_data, op_update_result, Op, ◌>>=◌,
  and_then, read_until, first_match, or_later, payload_or_timeout, await, reads_of, write_packet,
  request, parsed, given, raise_if, raise, return, get_info, can_update, enter_update, verify_data,
  update_result, poll_verify, poll_update_result,
}

abbrev total : List (List Bytes) → ℕ
total [] = 0
total (own ∷ later) = length own + total later

-- The reads that are still to come.
abbrev pub reads_left : Link → ℕ
reads_left c = length c.left + total c.coming

-- At least `k` reads are taken where it returns, and it does not raise that the passes are over.
abbrev pub After : {A : Type 0} → ℕ → Link → Result LinkError A × Link → Type 0
After k c (ok a, d) = reads_left d + k ≤ reads_left c
After k c (err e, d) = (e ≢ still_sending) × (reads_left d ≤ reads_left c)

abbrev pub Takes : {A : Type 0} → ℕ → Op A → Type 0
Takes k m = (c : Link) → After k c (m c)

pub After-later :
    {A : Type 0} (k n : ℕ) (c d : Link) (r : Result LinkError A × Link)
    → reads_left d + n ≤ reads_left c
    → After k d r
    → After (n + k) c r
After-later k n c d (ok a, b) h t = omega arith
After-later k n c d (err e, b) h t = (t.0, omega arith)

pub and_then-After :
    {A B : Type 0} (k n : ℕ) (c : Link) (f : A → Op B) (r : Result LinkError A × Link)
    → After n c r
    → ((a : A) (d : Link) → reads_left d + n ≤ reads_left c → After k d (f a d))
    → After (n + k) c (and_then f r)
and_then-After k n c f (ok a, d) h t = After-later k n c d (f a d) h (t a d h)
and_then-After k n c f (err e, d) h t = h

pub bind-Takes :
    {A B : Type 0} (k n : ℕ) (m : Op A) (f : A → Op B)
    → Takes n m
    → ((a : A) → Takes k (f a))
    → Takes (n + k) (m >>= f)
bind-Takes k n m f h t c = and_then-After k n c f (m c) (h c) (λ a d _. t a d)

read_until-unread :
    (accept : Packet → Bool) (buf : Bytes) (reads : List Bytes)
    → (length (read_until accept buf reads).unread ≤ length reads)
      × ((p : Packet)
          → (read_until accept buf reads).packet ≡ some p
          → length (read_until accept buf reads).unread + 1 ≤ length reads)
unfolding read_until
read_until-unread accept buf [] = (omega arith, λ p e. absurd (cc e))
read_until-unread accept buf (input ∷ inputs) =
    go (first_match accept (Packet.feed buf input).0) (Packet.feed buf input).1
      (read_until-unread accept (Packet.feed buf input).1 inputs)
  where
    go :
        (found : Option Packet) (kept : Bytes)
        → (length (read_until accept kept inputs).unread ≤ length inputs)
          × ((p : Packet)
              → (read_until accept kept inputs).packet ≡ some p
              → length (read_until accept kept inputs).unread + 1 ≤ length inputs)
        → let reading = or_later found kept inputs (read_until accept kept inputs) in
          (length reading.unread ≤ suc (length inputs))
          × ((p : Packet)
              → reading.packet ≡ some p
              → length reading.unread + 1 ≤ suc (length inputs))
    go none kept (h, k) = (omega arith, λ p e. ground (arith, k p e))
    go (some q) kept h = (omega arith, λ p e. omega arith)

reads_of-length : (c : Link) → length (reads_of c).0 + total (reads_of c).1 ≡ reads_left c
reads_of-length c = go c.coming
  where
    go :
        (coming : List (List Bytes))
        → let d : Link = record c { coming = coming } in
          length (reads_of d).0 + total (reads_of d).1 ≡ reads_left d
    go [] = omega arith
    go (own ∷ later) = omega (arith, length-append c.left own)

pub await-Takes : (accept : Packet → Bool) → Takes 1 (await accept)
unfolding await
await-Takes accept c =
    let h = read_until-unread accept c.buf (reads_of c).0 in
    go (read_until accept c.buf (reads_of c).0).packet
      (read_until accept c.buf (reads_of c).0).unread h.0 h.1
  where
    go :
        (found : Option Packet) (unread : List Bytes)
        → length unread ≤ length (reads_of c).0
        → ((p : Packet) → found ≡ some p → length unread + 1 ≤ length (reads_of c).0)
        → After 1 c (
          payload_or_timeout found,
          record c {
            buf = (read_until accept c.buf (reads_of c).0).kept;
            left = unread;
            coming = (reads_of c).1;
          },
        )
    go none unread h t = (λ e. cc e, omega (arith, reads_of-length c))
    go (some p) unread h t = omega (arith, reads_of-length c, t p refl)

pub if-After :
    {A : Type 0} (k : ℕ) (c : Link) (b : Bool) (m n : Op A)
    → After k c (m c)
    → After k c (n c)
    → After k c ((if b then m else n) c)
if-After k c true m n h t = h
if-After k c false m n h t = t

pub either-After :
    {A : Type 0} (k : ℕ) (c : Link) (b : Bool) (x y : Result LinkError A × Link)
    → After k c x
    → After k c y
    → After k c (if b then x else y)
either-After k c true x y h t = h
either-After k c false x y h t = t

pub After-fewer :
    {A : Type 0} (c : Link) (r : Result LinkError A × Link) → After 1 c r → After 0 c r
After-fewer c (ok a, d) h = omega arith
After-fewer c (err e, d) h = h

pub write_packet-Takes : (r : Result PackError Bytes) → Takes 0 (write_packet r)
write_packet-Takes (ok wire) c = omega arith
write_packet-Takes (err e) c = (λ h. cc h, omega arith)

pub parsed-Takes : {A : Type 0} (r : Result OtaReplyError A) → Takes 0 (parsed r)
parsed-Takes (ok a) c = omega arith
parsed-Takes (err e) c = (λ h. cc h, omega arith)

pub given-Takes :
    {A E : Type 0} (f : E → LinkError) (r : Result E A)
    → ((e : E) → f e ≢ still_sending)
    → Takes 0 (given f r)
given-Takes f (ok a) h c = omega arith
given-Takes f (err e) h c = (h e, omega arith)

pub raise_if-Takes : (b : Bool) (e : LinkError) → e ≢ still_sending → Takes 0 (raise_if b e)
raise_if-Takes true e h c = (h, omega arith)
raise_if-Takes false e h c = omega arith

request-Takes : (opcode : ℕ) (payload : Bytes) (sn : ℕ) → Takes 1 (request opcode payload sn)
unfolding request
request-Takes opcode payload sn = bind-Takes 1 0 _ _ (write_packet-Takes _) (λ _. await-Takes _)

advance-Takes : Takes 0 advance
advance-Takes c = omega arith

-- A request, with its number, and what is made of its payload.
asked-Takes :
    {A : Type 0} (opcode : ℕ) (payload : ℕ → Bytes) (parse : Bytes → Result OtaReplyError A)
    → Takes 1 (advance >>= (λ sn. request opcode (payload sn) sn >>= (λ p. parsed (parse p))))
asked-Takes opcode payload parse =
    bind-Takes 1 0 advance _ advance-Takes (λ sn.
      bind-Takes 0 1 _ _ (request-Takes opcode (payload sn) sn) (λ p. parsed-Takes (parse p)))

verify_data-Takes : Takes 1 verify_data
unfolding verify_data
verify_data-Takes = asked-Takes op_verify_data (to_le 2) parse_async_response

update_result-Takes : Takes 1 update_result
unfolding update_result
update_result-Takes = asked-Takes op_update_result (to_le 2) parse_update_result

pub get_info-Takes : (instant : Bool) → Takes 1 (get_info instant)
unfolding get_info
get_info-Takes instant =
    asked-Takes op_get_info (λ sn. to_le 2 sn ++ ((if instant then 1 else 0) ∷ [])) parse_ota_info

pub can_update-Takes : (header : Bytes) → Takes 1 (can_update header)
unfolding can_update
can_update-Takes header =
    asked-Takes op_can_update (λ sn. to_le 2 sn ++ (to_le 2 (length header) ++ header))
      parse_can_update

pub enter_update-Takes : Takes 1 enter_update
unfolding enter_update
enter_update-Takes = asked-Takes op_enter_update (to_le 2) parse_block_response

pub poll_verify-Takes : (polls : ℕ) → Takes 1 (poll_verify polls)
unfolding poll_verify
poll_verify-Takes zero c = (λ e. cc e, omega arith)
poll_verify-Takes (suc n) c =
    bind-Takes 0 1 verify_data _ verify_data-Takes
      (λ r d. if-After 0 d (r.result == async_ok) (return tt) _ (omega arith) (
        if-After 0 d (r.result == async_fail) (raise verify_failed) (poll_verify n)
          (λ e. cc e, omega arith) (After-fewer d _ (poll_verify-Takes n d))))
      c

pub poll_update_result-Takes : (polls : ℕ) → Takes 1 (poll_update_result polls)
unfolding poll_update_result
poll_update_result-Takes zero c = (λ e. cc e, omega arith)
poll_update_result-Takes (suc n) c =
    bind-Takes 0 1 update_result _ update_result-Takes
      (λ r d. if-After 0 d (r.result == async_ok) (return r) _ (omega arith) (
        if-After 0 d (r.result == async_fail) (raise result_failed) (poll_update_result n)
          (λ e. cc e, omega arith) (After-fewer d _ (poll_update_result-Takes n d))))
      c
