-- ===== src/Ota/Link/Firmware/Outcome.antt =====
-- How an upgrade over the transport ends.
use edu_glasses_host.Base.{
  ℕ, zero, suc, ◌<◌, ◌≡◌, ◌≢◌, refl, Bool, true, false, if◌then◌else◌, Result, ok, err, ◌==◌, ◌&&◌,
  not, arith,
}
use edu_glasses_host.Base.Bytes.{Bytes}
use edu_glasses_host.Ota.Image.{FirmwareImage, parse_image}
use edu_glasses_host.Ota.Reply.{BlockResponse, UpdateResult}
use edu_glasses_host.Ota.Link.{
  Link, LinkError, still_sending, bad_firmware, cannot_update, cannot_enter, async_ok, async_fail,
  result_failed, Op, and_then, given, raise_if, raise, return, get_info, can_update, enter_update,
  update_result, poll_verify, poll_update_result,
}
use edu_glasses_host.Ota.Link.Firmware.{send_blocks, rounds, upgrade}
use edu_glasses_host.Ota.Link.Takes.{
  reads_left, After, and_then-After, After-fewer, given-Takes, raise_if-Takes, get_info-Takes,
  can_update-Takes, enter_update-Takes,
}
use edu_glasses_host.Ota.Link.Firmware.Ends.{rounds-After}

-- A result that the device reports as good and that asks for no more blocks.
abbrev pub IsFinal : UpdateResult → Type 0
IsFinal r = (r.result ≡ async_ok) × (r.offset ≡ 0) × (r.size ≡ 0)

-- A final result, or an error of the code.
abbrev pub IsSettled : Result LinkError UpdateResult → Type 0
IsSettled (ok r) = IsFinal r
IsSettled (err e) = e ≢ still_sending

-- What holds of the value, where one is returned.
abbrev Returns : {A : Type 0} → (A → Type 0) → Result LinkError A × Link → Type 0
Returns P (ok a, d) = P a
Returns P (err e, d) = Unit {0}

and_then-Returns :
    {A B : Type 0} (Q : A → Type 0) (P : B → Type 0) (f : A → Op B) (r : Result LinkError A × Link)
    → Returns Q r
    → ((a : A) (d : Link) → Q a → Returns P (f a d))
    → Returns P (and_then f r)
and_then-Returns Q P f (ok a, d) h t = t a d h
and_then-Returns Q P f (err e, d) h t = tt

then-Returns :
    {A B : Type 0} (P : B → Type 0) (f : A → Op B) (r : Result LinkError A × Link)
    → ((a : A) (d : Link) → Returns P (f a d))
    → Returns P (and_then f r)
then-Returns P f (ok a, d) t = t a d
then-Returns P f (err e, d) t = tt

if-Returns :
    {A : Type 0} (P : A → Type 0) (b : Bool) (m n : Op A) (c : Link)
    → (b ≡ true → Returns P (m c))
    → (b ≡ false → Returns P (n c))
    → Returns P ((if b then m else n) c)
if-Returns P true m n c h t = h refl
if-Returns P false m n c h t = t refl

abbrev IsOk : UpdateResult → Type 0
IsOk r = r.result ≡ async_ok

poll_update_result-IsOk : (polls : ℕ) (c : Link) → Returns IsOk (poll_update_result polls c)
unfolding poll_update_result
poll_update_result-IsOk zero c = tt
poll_update_result-IsOk (suc n) c = then-Returns IsOk _ (update_result c) (λ r d.
    if-Returns IsOk (r.result == async_ok) (return r) _ d (λ e. ground (arith, e))
      (λ _.
        if-Returns IsOk (r.result == async_fail) (raise result_failed) (poll_update_result n) d
          (λ _. tt) (λ _. poll_update_result-IsOk n d)))

module _ (crc32 : Bytes → ℕ) (limit : ℕ) where
  rounds-IsFinal :
      (retries passes polls : ℕ) (image : FirmwareImage) (n : ℕ) (block : BlockResponse) (c : Link)
      → Returns IsFinal (rounds crc32 limit retries passes polls image n block c)
  unfolding rounds
  rounds-IsFinal retries passes polls image zero block c = tt
  rounds-IsFinal retries passes polls image (suc n) block c =
      then-Returns IsFinal _ (send_blocks crc32 limit retries passes polls image passes block c)
        (λ _ d. then-Returns IsFinal _ (poll_verify polls d) (λ _ e.
          and_then-Returns IsOk IsFinal _ (poll_update_result polls e)
            (poll_update_result-IsOk polls e)
            (λ r g h.
              if-Returns IsFinal (r.offset == 0 && r.size == 0) (return r) _ g
                (λ q. (h, ground (arith, q), ground (arith, q)))
                (λ _. rounds-IsFinal retries passes polls image n _ g))))

  upgrade-After :
      (retries passes polls : ℕ) (file : Bytes) (c : Link)
      → reads_left c < passes
      → After 0 c (upgrade crc32 limit (suc retries) passes polls file c)
  unfolding upgrade
  upgrade-After retries passes polls file c h =
      and_then-After 0 0 c _ _ (given-Takes _ (parse_image crc32 file) (λ e q. cc q) c)
        (λ image d t. After-fewer d _ (
          and_then-After 0 1 d _ _ (get_info-Takes false d) (λ _ e u. After-fewer e _ (
            and_then-After 0 1 e _ _ (can_update-Takes image.header_info e) (λ can f v.
              and_then-After 0 0 f _ _ (raise_if-Takes (not (can.result == 0)) _ (λ q. cc q) f)
                (λ _ g w. After-fewer g _ (
                  and_then-After 0 1 g _ _ (enter_update-Takes g) (λ block i x.
                    and_then-After 0 0 i _ _
                      (raise_if-Takes (not (block.result == 0)) _ (λ q. cc q) i)
                      (λ _ j y.
                        rounds-After crc32 limit retries passes polls image passes block j
                          (omega arith) (omega arith))))))))))

  upgrade-IsFinal :
      (retries passes polls : ℕ) (file : Bytes) (c : Link)
      → Returns IsFinal (upgrade crc32 limit retries passes polls file c)
  unfolding upgrade
  upgrade-IsFinal retries passes polls file c =
      then-Returns IsFinal _ (given bad_firmware (parse_image crc32 file) c) (λ image d.
        then-Returns IsFinal _ (get_info false d) (λ _ e.
          then-Returns IsFinal _ (can_update image.header_info e) (λ can f.
            then-Returns IsFinal _ (raise_if (not (can.result == 0)) (cannot_update can) f) (λ _ g.
              then-Returns IsFinal _ (enter_update g) (λ block i.
                then-Returns IsFinal _
                  (raise_if (not (block.result == 0)) (cannot_enter block.result) i)
                  (λ _ j. rounds-IsFinal retries passes polls image passes block j))))))

  After-IsSettled :
      (c : Link) (r : Result LinkError UpdateResult × Link)
      → After 0 c r
      → Returns IsFinal r
      → IsSettled r.0
  After-IsSettled c (ok r, d) h t = t
  After-IsSettled c (err e, d) h t = h.0

  -- With one attempt for a block at least, and more passes than reads to come, the upgrade ends,
  -- whatever the file and whatever the device sends: with a result that the device reports as final
  -- and that asks for no more blocks, or with one of the errors of the code, never because it is out
  -- of passes.
  pub upgrade-IsSettled :
      (block_retries passes polls : ℕ) (file : Bytes) (c : Link)
      → 0 < block_retries
      → reads_left c < passes
      → IsSettled (upgrade crc32 limit block_retries passes polls file c).0
  upgrade-IsSettled zero passes polls file c some_retry h = absurd (omega (arith, some_retry))
  upgrade-IsSettled (suc retries) passes polls file c some_retry h =
      After-IsSettled c _ (upgrade-After retries passes polls file c h)
        (upgrade-IsFinal (suc retries) passes polls file c)
