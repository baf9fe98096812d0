-- ===== src/Ota/Upgrade/Slices.antt =====
-- What the transfer sends, however the device behaves.
use edu_glasses_host.Base.{
  ℕ, zero, suc, ◌+◌, ◌≤◌, ◌≡◌, refl, ap, sym, ◌∙◌, Bool, true, false, List, [], ◌∷◌, length, All,
  Result, ok, err, if◌then◌else◌, ◌==◌, arith,
}
use edu_glasses_host.Base.Bytes.{Bytes, slice}
use edu_glasses_host.Ota.Reply.{BlockResponse}
use edu_glasses_host.Ota.Upgrade.{
  Attempt, timed_out, answered, UpgradeError, Transfer, at_end, await_attempt, no_attempt, or_raise,
  next_chunk, send_chunk, send_block, transfer,
}

module _ (content : Bytes) (file_len : ℕ) where
  -- The bytes are those of the file at that offset, and within its length.
  abbrev pub IsSlice : ℕ × Bytes → Type 0
  IsSlice (offset, chunk) =
      (offset + length chunk ≤ file_len) × (chunk ≡ slice content offset (offset + length chunk))

  abbrev Slices : Transfer → Type 0
  Slices t = All IsSlice t.0

  next_chunk-IsSlice :
      (block : BlockResponse) (chunk : Bytes)
      → next_chunk content file_len block ≡ ok chunk
      → IsSlice (block.offset, chunk)
  unfolding next_chunk
  next_chunk-IsSlice block chunk h =
      let there : chunk ≡ slice content block.offset (block.offset + block.size) =
        ground (arith, h) in
      let size : length chunk ≡ block.size = ground (arith, h) in
      let fits : block.offset + block.size ≤ file_len = ground (arith, h) in
      (
        omega arith,
        there ∙ ap (λ (n : ℕ). slice content block.offset (block.offset + n)) (sym size),
      )

  send_chunk-Slices :
      (block : BlockResponse) (r : Result UpgradeError Bytes) (after : Transfer)
      → next_chunk content file_len block ≡ r
      → Slices after
      → Slices (send_chunk block r after)
  send_chunk-Slices block (ok chunk) after e h = (next_chunk-IsSlice block chunk e, h)
  send_chunk-Slices block (err x) after e h = tt

  either-Slices : (b : Bool) (x y : Transfer) → Slices x → Slices y → Slices (if b then x else y)
  either-Slices true x y h k = h
  either-Slices false x y h k = k

  send_block-Slices :
      (block : BlockResponse) (after : Transfer)
      → Slices after
      → Slices (send_block content file_len block after)
  send_block-Slices block after h =
      either-Slices (at_end block) _ _ tt
        (send_chunk-Slices block (next_chunk content file_len block) after refl h)

  await_attempt-Slices : (r : Result UpgradeError Bytes) → Slices (await_attempt r)
  await_attempt-Slices (ok chunk) = tt
  await_attempt-Slices (err e) = tt

  no_attempt-Slices : (r : Result UpgradeError Bytes) → Slices (no_attempt r)
  no_attempt-Slices (ok chunk) = tt
  no_attempt-Slices (err e) = tt

  or_raise-Slices :
      (left : ℕ) (e : UpgradeError) (again : Transfer)
      → Slices again
      → Slices (or_raise left e again)
  or_raise-Slices zero e again h = tt
  or_raise-Slices (suc left) e again h = h

  -- Whatever blocks the device asks for, and whether they are answered, rejected or time out, each
  -- block sent is the file's bytes at its offset, within the length of the file.
  pub transfer-IsSlice :
      (block_retries left : ℕ) (block : BlockResponse) (attempts : List Attempt)
      → All IsSlice (transfer content file_len block_retries left block attempts).0
  unfolding transfer
  transfer-IsSlice retries zero block attempts =
      either-Slices (at_end block) _ _ tt (no_attempt-Slices (next_chunk content file_len block))
  transfer-IsSlice retries (suc left) block [] =
      either-Slices (at_end block) _ _ tt (await_attempt-Slices (next_chunk content file_len block))
  transfer-IsSlice retries (suc left) block (timed_out ∷ attempts) =
      send_block-Slices block _
        (or_raise-Slices left _ _ (transfer-IsSlice retries left block attempts))
  transfer-IsSlice retries (suc left) block (answered r ∷ attempts) = send_block-Slices block _ (
      either-Slices (r.result == 0) _ _ (transfer-IsSlice retries retries r attempts)
        (or_raise-Slices left _ _ (transfer-IsSlice retries left block attempts)))
