-- ===== src/Stream/Feed.antt =====
-- A parser object: the buffer that it keeps between two calls of `feed`.
use edu_glasses_host.Base.{
  ℕ, ◌-◌, ◌≤◌, ◌≡◌, sym, ◌∙◌, List, [], ◌∷◌, ◌++◌, append_assoc, append-nil, ltb, if◌then◌else◌,
  length, drop, concat, All, All-append, All-drop, arith,
}
use edu_glasses_host.Base.Bytes.{Bytes, IsByte, IsBytes}
use edu_glasses_host.Stream.Loop.{Verdict, wait, drain, IsScanner}
use edu_glasses_host.Stream.Parses.{
  Parses, waits, skips, finds, Parses-waits, drain-Parses, drain-eq, Parses-append,
}

-- The guard against a flood: `if len(buf) > limit: del buf[:len(buf) - keep]`.
unfoldable pub cut : ℕ → ℕ → Bytes → Bytes
cut limit keep buf = if ltb limit (length buf) then drop (length buf - keep) buf else buf

module _ {A : Type 0} (body : Bytes → Verdict A) (trim : Bytes → Bytes) where
  unfoldable pub feed : Bytes → Bytes → List A × Bytes
  unfolding drain
  feed buf input = let (items, rest) = drain body (buf ++ input) in (items, trim rest)

  -- One call of `feed` after another.
  unfoldable pub feed_all : Bytes → List Bytes → List A × Bytes
  feed_all buf [] = ([], buf)
  feed_all buf (input ∷ inputs) =
      let (items, buf') = feed buf input in
      let (more, rest) = feed_all buf' inputs in (items ++ more, rest)

-- What is known of the bytes that arrive, and so of every buffer.
pub record IsKept (P : Bytes → Type 0) : Type 0 where
  pub kept_append : (xs ys : Bytes) → P xs → P ys → P (xs ++ ys)
  pub kept_drop : (n : ℕ) (xs : Bytes) → P xs → P (drop n xs)

pub anything-IsKept : IsKept (λ _. Unit {0})
anything-IsKept = record { kept_append = λ xs ys h k. tt; kept_drop = λ n xs h. tt }

pub IsBytes-IsKept : IsKept IsBytes
IsBytes-IsKept = record { kept_append = All-append IsByte; kept_drop = All-drop IsByte }

module _ {A : Type 0} (body : Bytes → Verdict A) where
  -- The loop never leaves more than `limit` bytes behind.
  abbrev pub IsBounded : (Bytes → Type 0) → ℕ → Type 0
  IsBounded P limit = (buf : Bytes) → P buf → body buf ≡ wait → length buf ≤ limit

  Parses-kept :
      {P : Bytes → Type 0} {buf rest : Bytes} {items : List A}
      → IsKept P
      → P buf
      → Parses body buf items rest
      → P rest
  Parses-kept k h (waits e) = h
  Parses-kept {buf} k h (skips {n} e p) = Parses-kept k (k.kept_drop n buf h) p
  Parses-kept {buf} k h (finds {n} e p) = Parses-kept k (k.kept_drop n buf h) p

  -- What the loop leaves behind, `trim` leaves alone.
  abbrev pub IsIdle : (Bytes → Type 0) → (Bytes → Bytes) → Type 0
  IsIdle P trim = (buf : Bytes) → P buf → body buf ≡ wait → trim buf ≡ buf

module _ {A : Type 0} {body : Bytes → Verdict A} {P : Bytes → Type 0} where
  -- The guard against a flood never cuts.
  pub cut-IsIdle : (limit keep : ℕ) → IsBounded body P limit → IsIdle body P (cut limit keep)
  unfolding cut
  cut-IsIdle limit keep bounded buf h e = ground (arith, bounded buf h e)

module _ {A : Type 0} {body : Bytes → Verdict A} {P : Bytes → Type 0} {trim : Bytes → Bytes}
    (laws : IsScanner body) (kept : IsKept P) (idle : IsIdle body P trim) where
  left_kept : (buf : Bytes) → P buf → P (drain body buf).1
  left_kept buf h = Parses-kept body kept h (drain-Parses laws buf)

  -- `feed` is the bare loop.
  pub feed-drain :
      (buf input : Bytes) → P (buf ++ input) → feed body trim buf input ≡ drain body (buf ++ input)
  unfolding feed
  feed-drain buf input h =
      rw (idle _ (left_kept (buf ++ input) h) (Parses-waits (drain-Parses laws (buf ++ input))))

  feed_all-Parses :
      (inputs : List Bytes) (buf : Bytes)
      → P buf
      → All P inputs
      → body buf ≡ wait
      → let (items, rest) = feed_all body trim buf inputs in
        Parses body (buf ++ concat inputs) items rest
  unfolding feed_all
  feed_all-Parses [] buf h hs e = rw append-nil (waits e)
  feed_all-Parses (input ∷ inputs) buf h (hi, hs) e =
      let whole = kept.kept_append buf input h hi in
      let p = drain-Parses laws (buf ++ input) in
      rw (feed-drain buf input whole, ← append_assoc buf input (concat inputs))
        (Parses-append laws (concat inputs) p
          (feed_all-Parses inputs _ (left_kept (buf ++ input) whole) hs (Parses-waits p)))

  -- How the stream is cut into reads does not matter.
  pub feed_all-concat :
      (inputs : List Bytes) (buf : Bytes)
      → P buf
      → All P inputs
      → body buf ≡ wait
      → feed_all body trim buf inputs ≡ drain body (buf ++ concat inputs)
  feed_all-concat inputs buf h hs e = sym (drain-eq laws (feed_all-Parses inputs buf h hs e))

  -- The same from an empty buffer, against one call of `feed` on the whole stream.
  pub feed_all-feed :
      (inputs : List Bytes)
      → P []
      → All P inputs
      → P (concat inputs)
      → feed_all body trim [] inputs ≡ feed body trim [] (concat inputs)
  feed_all-feed inputs none hs whole =
      feed_all-concat inputs [] none hs laws.stops ∙ sym (feed-drain [] (concat inputs) whole)
