-- ===== src/Ota/Link.antt =====
-- The requests of `OTAClient` in looktech_glasses_sdk/ota_client.py, and the polls of `upgrade`. The
-- transport is what is written and the reads to come: for each request, those before its deadline
-- that bring something. The waits between packets are left out.
pub mod Requests
pub mod Tests
pub mod Takes
pub mod Firmware
use edu_glasses_host.Base.{
  ℕ, zero, suc, ◌+◌, Bool, true, false, not, ◌&&◌, ◌||◌, Option, none, some, List, [], ◌∷◌, ◌++◌,
  leb, ltb, ◌==◌, if◌then◌else◌, length, Result, ok, err,
}
use edu_glasses_host.Base.Bytes.{Bytes, to_le, le_at, le}
use edu_glasses_host.Ota.Packet
use edu_glasses_host.Ota.Packet.{Packet, PackError, pack_packet}
use edu_glasses_host.Ota.Image.{ImageError}
use edu_glasses_host.Ota.Upgrade.{UpgradeError}
use edu_glasses_host.Ota.Reply.{
  OtaReplyError, OtaDeviceInfo, CanUpdateResponse, BlockResponse, AsyncResponse, UpdateResult,
  parse_ota_info, parse_can_update, parse_block_response, parse_async_response, parse_update_result,
}
use edu_glasses_host.Ota.Client.{
  next_sn, Chunk, chunks, last_of, write_chunk, op_send_data, SentBlock, BlockError,
  send_data_block, is_response,
}

abbrev pub op_get_info : ℕ
op_get_info = 0x01

abbrev pub op_can_update : ℕ
op_can_update = 0x02

abbrev pub op_enter_update : ℕ
op_enter_update = 0x03

abbrev pub op_verify_data : ℕ
op_verify_data = 0x05

abbrev pub op_update_result : ℕ
op_update_result = 0x06

abbrev pub async_ok : ℕ
async_ok = 0

abbrev pub async_fail : ℕ
async_fail = 2

-- `left` are reads of the request before that were not needed, which come first.
pub record Link : Type 0 where
  pub sn : ℕ
  pub buf : Bytes
  pub left : List Bytes
  pub coming : List (List Bytes)
  pub written : List Bytes

pub data LinkError : Type 0 where
  not_packed : PackError → LinkError
  timed_out : LinkError
  bad_reply : OtaReplyError → LinkError
  empty_block oversized verify_failed result_failed : LinkError
  still_verifying still_updating : LinkError
  bad_firmware : ImageError → LinkError
  cannot_update : CanUpdateResponse → LinkError
  cannot_enter : ℕ → LinkError
  transfer_failed : UpgradeError → LinkError
  still_sending : LinkError

abbrev pub Op : Type 0 → Type 0
Op A = Link → Result LinkError A × Link

abbrev pub and_then :
    {A B : Type 0} → (A → Op B) → Result LinkError A × Link → Result LinkError B × Link
and_then f (ok a, c) = f a c
and_then f (err e, c) = (err e, c)

infixl 5 ◌>>=◌ ◌>>◌
abbrev pub ◌>>=◌ : {A B : Type 0} → Op A → (A → Op B) → Op B
◌>>=◌ m f c = and_then f (m c)

abbrev pub ◌>>◌ : {A B : Type 0} → Op A → Op B → Op B
m >> k = m >>= λ _. k

abbrev pub raise_if : Bool → LinkError → Op (Unit {0})
raise_if b e c = if b then (err e, c) else (ok tt, c)

abbrev pub given : {A E : Type 0} → (E → LinkError) → Result E A → Op A
given f (ok a) c = (ok a, c)
given f (err e) c = (err (f e), c)

abbrev pub return : {A : Type 0} → A → Op A
return a c = (ok a, c)

abbrev pub raise : {A : Type 0} → LinkError → Op A
raise e c = (err e, c)

-- The first packet that passes the tests; those behind it in the same read are dropped.
abbrev pub first_match : (Packet → Bool) → List Packet → Option Packet
first_match accept [] = none
first_match accept (p ∷ ps) = if accept p then some p else first_match accept ps

pub record Reading : Type 0 where
  pub packet : Option Packet
  pub kept : Bytes
  pub unread : List Bytes

abbrev pub or_later : Option Packet → Bytes → List Bytes → Reading → Reading
or_later none buf inputs later = later
or_later (some p) buf inputs later = record { packet = some p; kept = buf; unread = inputs }

-- The loop of `_request` and of `_read_response`.
unfoldable pub read_until : (Packet → Bool) → Bytes → List Bytes → Reading
read_until accept buf [] = record { packet = none; kept = buf; unread = [] }
read_until accept buf (input ∷ inputs) =
    let (packets, buf') = Packet.feed buf input in
    let later = read_until accept buf' inputs in
    or_later (first_match accept packets) buf' inputs later

abbrev pub payload_or_timeout : Option Packet → Result LinkError Bytes
payload_or_timeout none = err timed_out
payload_or_timeout (some p) = ok p.payload

-- The reads of a request, and those of the requests after it.
abbrev pub reads_of : Link → List Bytes × List (List Bytes)
reads_of c = elim c.coming [ [] ↦ (c.left, []) | own ∷ later ↦ (c.left ++ own, later) ]

-- `_read_response`
unfoldable pub await : (Packet → Bool) → Op Bytes
await accept c =
    let (reads, later) = reads_of c in
    let reading = read_until accept c.buf reads in
    (
      payload_or_timeout reading.packet,
      record c { buf = reading.kept; left = reading.unread; coming = later },
    )

abbrev pub write_packet : Result PackError Bytes → Op (Unit {0})
write_packet (ok wire) c = (ok tt, record c { written = c.written ++ (wire ∷ []) })
write_packet (err e) c = (err (not_packed e), c)

-- The test of a packet in `_request`, with the number expected.
abbrev pub answers : ℕ → ℕ → Packet → Bool
answers opcode sn p = p.opcode == opcode && (leb 2 (length p.payload) && le_at 2 p.payload 0 == sn)

-- `_request`, with the number of the request.
unfoldable pub request : ℕ → Bytes → ℕ → Op Bytes
request opcode payload sn = do write_packet (pack_packet opcode payload); await (answers opcode sn)

-- `_next_sn`
abbrev pub advance : Op ℕ
advance c = (ok (next_sn c.sn), record c { sn = next_sn c.sn })

abbrev pub parsed : {A : Type 0} → Result OtaReplyError A → Op A
parsed (ok a) c = (ok a, c)
parsed (err e) c = (err (bad_reply e), c)

unfoldable pub get_info : Bool → Op OtaDeviceInfo
get_info instant = do
  sn ← advance
  payload ← request op_get_info (to_le 2 sn ++ ((if instant then 1 else 0) ∷ [])) sn
  parsed (parse_ota_info payload)

unfoldable pub can_update : Bytes → Op CanUpdateResponse
can_update header_info = do
  sn ← advance
  payload ← request op_can_update (to_le 2 sn ++ (to_le 2 (length header_info) ++ header_info)) sn
  parsed (parse_can_update payload)

unfoldable pub enter_update : Op BlockResponse
enter_update = do
  sn ← advance
  payload ← request op_enter_update (to_le 2 sn) sn
  parsed (parse_block_response payload)

unfoldable pub verify_data : Op AsyncResponse
verify_data = do
  sn ← advance
  payload ← request op_verify_data (to_le 2 sn) sn
  parsed (parse_async_response payload)

unfoldable pub update_result : Op UpdateResult
update_result = do
  sn ← advance
  payload ← request op_update_result (to_le 2 sn) sn
  parsed (parse_update_result payload)

-- `_poll_verify`, with the passes that start before the deadline.
unfoldable pub poll_verify : ℕ → Op (Unit {0})
poll_verify zero = raise still_verifying
poll_verify (suc n) = verify_data >>= (λ r.
    if r.result == async_ok
    then return tt
    else if r.result == async_fail
    then raise verify_failed
    else poll_verify n)

-- `_poll_update_result`
unfoldable pub poll_update_result : ℕ → Op UpdateResult
poll_update_result zero = raise still_updating
poll_update_result (suc n) = update_result >>= (λ r.
    if r.result == async_ok
    then return r
    else if r.result == async_fail
    then raise result_failed
    else poll_update_result n)

-- The numbers of a block: the last one is kept. The limit that the constructor accepts lets no packet
-- of a block be refused, so all are numbered before the first is written.
abbrev pub to_block : Result BlockError SentBlock → Op SentBlock
to_block (ok block) c = (ok block, record c { sn = block.last_sn })
to_block (err e) c = (err empty_block, c)

module _ (crc32 : Bytes → ℕ) where
  unfoldable pub write_chunks : List Chunk → Op (Unit {0})
  write_chunks [] = return tt
  write_chunks (chunk ∷ rest) = write_packet (write_chunk crc32 chunk) >> write_chunks rest

  -- `send_data`, with the limit that `_write_send_data_packet` tests.
  unfoldable pub send_data : ℕ → ℕ → Bytes → Op BlockResponse
  send_data limit offset input = do
    sn ← advance
    raise_if (ltb limit (length input)) oversized
    write_packet (write_chunk crc32 (record { sn = sn; offset = offset; content = input }))
    payload ←
        await
          (λ p. p.opcode == op_send_data && (leb 2 (length p.payload) && le_at 2 p.payload 0 == sn))
    parsed (parse_block_response payload)

  -- `send_data_block`, where `limit` is `max_send_data_payload`.
  unfoldable pub send_block : ℕ → ℕ → Bytes → Op BlockResponse
  send_block limit offset input = do
    block ← (λ c. to_block (send_data_block limit c.sn offset input) c)
    write_chunks block.written
    payload ← await (is_response block)
    parsed (parse_block_response payload)
