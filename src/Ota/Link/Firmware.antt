-- ===== src/Ota/Link/Firmware.antt =====
-- `upgrade` of looktech_glasses_sdk/ota_client.py over the transport; progress callbacks are left out.
-- `passes` bounds the blocks that are sent and the rounds of sending and verifying, `polls` is the
-- number of polls that start before the deadline.

pub mod Ends
pub mod Outcome
pub mod Tests
use edu_glasses_host.Base.{
  ℕ, zero, suc, Bool, true, false, not, Option, none, some, ◌&&◌, ◌==◌, if◌then◌else◌, Result, ok,
  err,
}
use edu_glasses_host.Base.Bytes.{Bytes}
use edu_glasses_host.Ota.Image.{FirmwareImage, parse_image}
use edu_glasses_host.Ota.Reply.{BlockResponse, UpdateResult}
use edu_glasses_host.Ota.Upgrade.{block_rejected, at_end, next_chunk}
use edu_glasses_host.Ota.Link.{
  Link, LinkError, timed_out, bad_firmware, cannot_update, cannot_enter, transfer_failed,
  still_sending, Op, ◌>>=◌, ◌>>◌, return, raise, raise_if, given, get_info, can_update,
  enter_update, poll_verify, poll_update_result, send_block,
}

abbrev pub is_timeout : LinkError → Bool
is_timeout timed_out = true
is_timeout e = false

-- What an attempt comes to: a block that is accepted is the next one, a rejected block or a timeout
-- is the error to remember, and any other error is raised. `again` are the attempts left.
abbrev pub or_again :
    (Option LinkError → Op BlockResponse)
    → Result LinkError BlockResponse × Link
    → Result LinkError BlockResponse × Link
or_again again (ok r, c) =
    if r.result == 0 then (ok r, c) else again (some (transfer_failed (block_rejected r.result))) c
or_again again (err e, c) = if is_timeout e then again (some e) c else (err e, c)

-- Behind the attempts: the last error is raised, and with no attempt made the block stays.
abbrev pub last_raised : Option LinkError → BlockResponse → Op BlockResponse
last_raised none block = return block
last_raised (some e) block = raise e

module _ (crc32 : Bytes → ℕ) (limit : ℕ) where
  -- The loop of the attempts for a block, with the last error: the block to go on with.
  unfoldable pub send_attempts : ℕ → Option LinkError → BlockResponse → Bytes → Op BlockResponse
  send_attempts zero last block chunk = last_raised last block
  send_attempts (suc left) last block chunk = λ c.
      or_again (λ e. send_attempts left e block chunk) (send_block crc32 limit block.offset chunk c)

module _ (crc32 : Bytes → ℕ) (limit block_retries passes polls : ℕ) (image : FirmwareImage) where
  -- The inner loop.
  unfoldable pub send_blocks : ℕ → BlockResponse → Op (Unit {0})
  send_blocks zero block = raise still_sending
  send_blocks (suc n) block =
      if at_end block
      then return tt
      else given transfer_failed (next_chunk image.content image.file_len block)
        >>= (λ chunk. send_attempts crc32 limit block_retries none block chunk >>= send_blocks n)

  -- The outer loop, until the result asks for no more blocks.
  unfoldable pub rounds : ℕ → BlockResponse → Op UpdateResult
  rounds zero block = raise still_sending
  rounds (suc n) block = do
    send_blocks passes block
    poll_verify polls
    r ← poll_update_result polls
    if r.offset == 0 && r.size == 0
        then return r
        else rounds n (record { sn = r.sn; result = 0; offset = r.offset; size = r.size })

module _ (crc32 : Bytes → ℕ) (limit : ℕ) where
  unfoldable pub upgrade : ℕ → ℕ → ℕ → Bytes → Op UpdateResult
  upgrade block_retries passes polls file = do
    image ← given bad_firmware (parse_image crc32 file)
    get_info false
    can ← can_update image.header_info
    raise_if (not (can.result == 0)) (cannot_update can)
    block ← enter_update
    raise_if (not (block.result == 0)) (cannot_enter block.result)
    rounds crc32 limit block_retries passes polls image passes block
