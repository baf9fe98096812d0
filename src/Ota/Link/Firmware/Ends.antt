-- ===== src/Ota/Link/Firmware/Ends.antt =====
-- Each block and each round of an upgrade takes at least one of the reads to come.
use edu_glasses_host.Base.{
  Option, none, some, ◌≢◌, ℕ, zero, suc, ◌<◌, List, [], ◌∷◌, Result, ok, err, ◌==◌, ◌&&◌, arith,
}
use edu_glasses_host.Base.Bytes.{Bytes}
use edu_glasses_host.Ota.Image.{FirmwareImage}
use edu_glasses_host.Ota.Reply.{BlockResponse, parse_block_response}
use edu_glasses_host.Ota.Client.{
  Chunk, SentBlock, BlockError, send_data_block, write_chunk, is_response,
}
use edu_glasses_host.Ota.Upgrade.{at_end, next_chunk}
use edu_glasses_host.Ota.Link.{
  still_sending, Link, LinkError, Op, to_block, write_chunks, send_block,
}
use edu_glasses_host.Ota.Link.Firmware.{is_timeout, or_again, send_attempts, send_blocks, rounds}
use edu_glasses_host.Ota.Link.Takes.{
  reads_left, After, Takes, After-later, and_then-After, bind-Takes, await-Takes, if-After,
  either-After, After-fewer, write_packet-Takes, parsed-Takes, given-Takes, poll_verify-Takes,
  poll_update_result-Takes,
}

write_chunks-Takes : (crc32 : Bytes → ℕ) (sent : List Chunk) → Takes 0 (write_chunks crc32 sent)
unfolding write_chunks
write_chunks-Takes crc32 [] c = omega arith
write_chunks-Takes crc32 (chunk ∷ rest) c =
    bind-Takes 0 0 _ _ (write_packet-Takes (write_chunk crc32 chunk))
      (λ _. write_chunks-Takes crc32 rest) c

to_block-After : (c : Link) (r : Result BlockError SentBlock) → After 0 c (to_block r c)
to_block-After c (ok block) = omega arith
to_block-After c (err e) = (λ h. cc h, omega arith)

module _ (crc32 : Bytes → ℕ) (limit : ℕ) where
  send_block-Takes : (offset : ℕ) (input : Bytes) → Takes 1 (send_block crc32 limit offset input)
  unfolding send_block
  send_block-Takes offset input =
      bind-Takes 1 0 _ _ (λ c. to_block-After c (send_data_block limit c.sn offset input))
        (λ block. bind-Takes 1 0 _ _ (write_chunks-Takes crc32 block.written) (λ _.
          bind-Takes 0 1 _ _ (await-Takes (is_response block))
            (λ p. parsed-Takes (parse_block_response p))))

  or_again-After :
      (again : Option LinkError → Op BlockResponse) (c : Link)
      (r : Result LinkError BlockResponse × Link)
      → ((e : LinkError) → e ≢ still_sending → Takes 1 (again (some e)))
      → After 1 c r
      → After 1 c (or_again again r)
  or_again-After again c (ok r, d) t h =
      either-After 1 c (r.result == 0) _ _ h
        (After-later 1 0 c d _ (omega arith) (t _ (λ q. cc q) d))
  or_again-After again c (err e, d) t h =
      either-After 1 c (is_timeout e) _ _ (After-later 1 0 c d _ (omega arith) (t e h.0 d)) h

  retries-Takes :
      (left : ℕ) (block : BlockResponse) (chunk : Bytes) (e : LinkError)
      → e ≢ still_sending
      → Takes 1 (send_attempts crc32 limit left (some e) block chunk)
  unfolding send_attempts
  retries-Takes zero block chunk e h c = (h, omega arith)
  retries-Takes (suc left) block chunk e h c =
      or_again-After (λ x. send_attempts crc32 limit left x block chunk) c _
        (retries-Takes left block chunk) (send_block-Takes block.offset chunk c)

  -- Where an attempt is made at all, a read is taken or an error is raised.
  send_attempts-Takes :
      (left : ℕ) (block : BlockResponse) (chunk : Bytes)
      → Takes 1 (send_attempts crc32 limit (suc left) none block chunk)
  unfolding send_attempts
  send_attempts-Takes left block chunk c =
      or_again-After (λ x. send_attempts crc32 limit left x block chunk) c _
        (retries-Takes left block chunk) (send_block-Takes block.offset chunk c)

  module _ (retries passes polls : ℕ) (image : FirmwareImage) where
    pub send_blocks-After :
        (n : ℕ) (block : BlockResponse) (c : Link)
        → reads_left c < n
        → After 0 c (send_blocks crc32 limit (suc retries) passes polls image n block c)
    unfolding send_blocks
    send_blocks-After zero block c h = absurd (omega (arith, h))
    send_blocks-After (suc n) block c h = if-After 0 c (at_end block) _ _ (omega arith) (
        and_then-After 0 0 c _ _
          (given-Takes _ (next_chunk image.content image.file_len block) (λ e q. cc q) c)
          (λ chunk d t. After-fewer d _ (
            and_then-After 0 1 d _ _ (send_attempts-Takes retries block chunk d)
              (λ next e u. send_blocks-After n next e (omega arith)))))

    pub rounds-After :
        (n : ℕ) (block : BlockResponse) (c : Link)
        → reads_left c < n
        → reads_left c < passes
        → After 0 c (rounds crc32 limit (suc retries) passes polls image n block c)
    unfolding rounds
    rounds-After zero block c h k = absurd (omega (arith, h))
    rounds-After (suc n) block c h k =
        and_then-After 0 0 c _ _ (send_blocks-After passes block c k) (λ _ d t. After-fewer d _ (
          and_then-After 0 1 d _ _ (poll_verify-Takes polls d) (λ _ e u. After-fewer e _ (
            and_then-After 0 1 e _ _ (poll_update_result-Takes polls e) (λ r g v.
              if-After 0 g (r.offset == 0 && r.size == 0) _ _ (omega arith)
                (rounds-After n _ g (omega arith) (omega arith)))))))
