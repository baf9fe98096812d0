-- ===== src/Stream/Loop.antt =====
-- The loop itself, and what a parser's body must satisfy for the loop to be a parser.
use edu_glasses_host.Base.{ℕ, zero, suc, ◌≤◌, ◌<◌, ◌≡◌, ◌≢◌, List, [], ◌∷◌, ◌++◌, length, drop}
use edu_glasses_host.Base.Bytes.{Bytes}

-- One pass: leave the loop, move on, or append an item and move on.
pub data Verdict (A : Type 0) : Type 0 where
  wait : Verdict A
  skip : ℕ → Verdict A
  found : A → ℕ → Verdict A

module _ {A : Type 0} where
  abbrev pub push : A → List A × Bytes → List A × Bytes
  push a (items, rest) = (a ∷ items, rest)

  -- `after` is the loop on the bytes that are left.
  abbrev pub pass : Verdict A → Bytes → (Bytes → List A × Bytes) → List A × Bytes
  pass wait buf after = ([], buf)
  pass (skip n) buf after = after (drop n buf)
  pass (found a n) buf after = push a (after (drop n buf))

  -- The items found and the bytes kept. Each pass takes a byte at least, so a round for each byte
  -- is enough (`scan-Parses`).
  unfoldable pub scan : (Bytes → Verdict A) → ℕ → Bytes → List A × Bytes
  scan body zero buf = ([], buf)
  scan body (suc fuel) buf = pass (body buf) buf (scan body fuel)

  unfoldable pub drain : (Bytes → Verdict A) → Bytes → List A × Bytes
  unfolding scan
  drain body buf = scan body (length buf) buf

  abbrev pub Advances : Bytes → Verdict A → Type 0
  Advances buf wait = Unit
  Advances buf (skip n) = (0 < n) × (n ≤ length buf)
  Advances buf (found a n) = (0 < n) × (n ≤ length buf)

  -- A body that can drive the loop: it stops on no bytes, moves forward and not past the end, and
  -- does not change its mind on bytes that come later.
  pub record IsScanner (body : Bytes → Verdict A) : Type 0 where
    pub stops : body [] ≡ wait
    pub advances : (buf : Bytes) → Advances buf (body buf)
    pub stable : (buf more : Bytes) → body buf ≢ wait → body (buf ++ more) ≡ body buf
