-- ===== src/Ota/Upgrade.antt =====
-- The transfer loop of `OTAClient.upgrade` in looktech_glasses_sdk/ota_client.py: the device asks for
-- blocks of the file until it asks for none. What each `send_data_block` comes to is a list of
-- attempts, in the order in which they are made; progress callbacks are left out.
pub mod Slices
use edu_glasses_host.Base.{
  ℕ, zero, suc, ◌+◌, Bool, not, ◌&&◌, List, [], ◌∷◌, ltb, ◌==◌, if◌then◌else◌, length, Result, ok,
  err,
}
use edu_glasses_host.Base.Bytes.{Bytes, slice}
use edu_glasses_host.Ota.Reply.{BlockResponse}

pub data Attempt : Type 0 where
  timed_out : Attempt
  answered : BlockResponse → Attempt

pub data UpgradeError : Type 0 where
  invalid_block : ℕ → ℕ → UpgradeError
  short_block : ℕ → ℕ → UpgradeError
  empty_data : UpgradeError
  block_timed_out : UpgradeError
  block_rejected : ℕ → UpgradeError

-- How the loop stands: over, raised, still waiting for the next attempt, or, where no attempt is
-- allowed, going round for ever without sending.
pub data Progress : Type 0 where
  finished : Progress
  raised : UpgradeError → Progress
  waiting : Progress
  spinning : Progress

-- Each call of `send_data_block`, with its offset and bytes.
abbrev pub Sent : Type 0
Sent = List (ℕ × Bytes)

abbrev pub Transfer : Type 0
Transfer = Sent × Progress

abbrev pub at_end : BlockResponse → Bool
at_end block = block.offset == 0 && block.size == 0

abbrev pub send_chunk : BlockResponse → Result UpgradeError Bytes → Transfer → Transfer
send_chunk block (err e) after = ([], raised e)
send_chunk block (ok chunk) (sent, progress) = ((block.offset, chunk) ∷ sent, progress)

-- The block is ready to be sent, and there is no attempt yet.
abbrev pub await_attempt : Result UpgradeError Bytes → Transfer
await_attempt (err e) = ([], raised e)
await_attempt (ok chunk) = ([], waiting)

-- The block is ready to be sent, and no attempt is allowed.
abbrev pub no_attempt : Result UpgradeError Bytes → Transfer
no_attempt (err e) = ([], raised e)
no_attempt (ok chunk) = ([], spinning)

-- Behind a failed attempt, with `left` more: the error is raised, or the block is sent again.
abbrev pub or_raise : ℕ → UpgradeError → Transfer → Transfer
or_raise zero e again = ([], raised e)
or_raise (suc left) e again = again

module _ (content : Bytes) (file_len : ℕ) where
  -- The bytes of a block; none at all is refused by `send_data_block`.
  unfoldable pub next_chunk : BlockResponse → Result UpgradeError Bytes
  next_chunk block =
      let chunk = slice content block.offset (block.offset + block.size) in
      if ltb file_len (block.offset + block.size)
      then err (invalid_block block.offset block.size)
      else if not (length chunk == block.size)
      then err (short_block block.offset block.size)
      else if block.size == 0
      then err empty_data
      else ok chunk

  -- A pass of the loop that sends the block, and what comes after the attempt.
  abbrev pub send_block : BlockResponse → Transfer → Transfer
  send_block block after =
      if at_end block then ([], finished) else send_chunk block (next_chunk block) after

module _ (content : Bytes) (file_len block_retries : ℕ) where
  -- The loop, with `left` attempts for this block.
  unfoldable pub transfer : ℕ → BlockResponse → List Attempt → Transfer
  unfolding next_chunk
  transfer zero block attempts =
      if at_end block then ([], finished) else no_attempt (next_chunk content file_len block)
  transfer (suc left) block [] =
      if at_end block then ([], finished) else await_attempt (next_chunk content file_len block)
  transfer (suc left) block (timed_out ∷ attempts) =
      let again = transfer left block attempts in
      send_block content file_len block (or_raise left block_timed_out again)
  transfer (suc left) block (answered r ∷ attempts) =
      let onward = transfer block_retries r attempts in
      let again = transfer left block attempts in
      send_block content file_len block
        (if r.result == 0 then onward else or_raise left (block_rejected r.result) again)
