-- ===== src/Stream/Parses.antt =====
-- What the loop computes, as a relation with no fuel: every buffer has exactly one reading.
use edu_glasses_host.Base.{
  ℕ, zero, suc, ◌≤◌, ◌<◌, ◌≡◌, refl, sym, ◌∙◌, subst, List, [], ◌∷◌, ◌++◌, length, drop,
  length-drop, drop-append_left, drop-append_all, arith,
}
use edu_glasses_host.Base.Bytes.{Bytes}
use edu_glasses_host.Stream.Loop.{
  Verdict, wait, skip, found, pass, scan, drain, Advances, IsScanner,
}

module _ {A : Type 0} where
  -- `Parses body buf items rest`: reading `buf` gives `items` and keeps `rest`.
  pub data Parses (body : Bytes → Verdict A) : Bytes → List A → Bytes → Type 0 where
    waits : {buf : Bytes} → body buf ≡ wait → Parses body buf [] buf
    skips :
        {buf : Bytes} {n : ℕ} {items : List A} {rest : Bytes}
        → body buf ≡ skip n
        → Parses body (drop n buf) items rest
        → Parses body buf items rest
    finds :
        {buf : Bytes} {a : A} {n : ℕ} {items : List A} {rest : Bytes}
        → body buf ≡ found a n
        → Parses body (drop n buf) items rest
        → Parses body buf (a ∷ items) rest

module _ {A : Type 0} {body : Bytes → Verdict A} where
  -- The loop has nothing left to do on what it keeps.
  pub Parses-waits :
      {buf rest : Bytes} {items : List A} → Parses body buf items rest → body rest ≡ wait
  Parses-waits (waits e) = e
  Parses-waits (skips e p) = Parses-waits p
  Parses-waits (finds e p) = Parses-waits p

  pub Parses-unique :
      {buf r s : Bytes} {xs ys : List A}
      → Parses body buf xs r
      → Parses body buf ys s
      → (xs ≡ ys) × (r ≡ s)
  Parses-unique (waits e) (waits f) = (refl, refl)
  Parses-unique (waits e) (skips f q) = cc
  Parses-unique (waits e) (finds f q) = cc
  Parses-unique (skips e p) (waits f) = cc
  Parses-unique {buf} {s} {ys} (skips {n} e p) (skips {n = m} {items = js} f q) =
      let same : m ≡ n = cc in
      Parses-unique p (subst (λ (k : ℕ). Parses body (drop k buf) ys s) same q)
  Parses-unique (skips e p) (finds f q) = cc
  Parses-unique (finds e p) (waits f) = cc
  Parses-unique (finds e p) (skips f q) = cc
  Parses-unique {buf} {s} (finds {a} {n} e p) (finds {a = b} {n = m} {items = js} f q) =
      let same : m ≡ n = cc in
      let head : a ≡ b = cc in
      let tail = Parses-unique p (subst (λ (k : ℕ). Parses body (drop k buf) js s) same q) in
      (cc (tail.0), tail.1)

  -- A whole encoded item in front of a stream.
  pub Parses-front :
      {a : A} {items : List A} {left : Bytes} (wire rest : Bytes)
      → body (wire ++ rest) ≡ found a (length wire)
      → Parses body rest items left
      → Parses body (wire ++ rest) (a ∷ items) left
  Parses-front {items} {left} wire rest e p =
      finds e (subst (λ (b : Bytes). Parses body b items left) (sym (drop-append_all wire rest)) p)

module _ {A : Type 0} {body : Bytes → Verdict A} (laws : IsScanner body) where
  shorter :
      (buf : Bytes) (n fuel : ℕ)
      → 0 < n
      → n ≤ length buf
      → length buf ≤ suc fuel
      → length (drop n buf) ≤ fuel
  shorter buf n fuel p q h = omega (arith, length-drop n buf)

  pub scan-Parses :
      (fuel : ℕ) (buf : Bytes)
      → length buf ≤ fuel
      → let (items, rest) = scan body fuel buf in Parses body buf items rest
  unfolding scan
  scan-Parses zero [] h = waits laws.stops
  scan-Parses zero (b ∷ buf) h = absurd (omega arith)
  scan-Parses (suc fuel) buf h = go (body buf) refl (laws.advances buf) (scan-Parses fuel)
    where
      go :
          (v : Verdict A)
          → body buf ≡ v
          → Advances buf v
          → ((left : Bytes)
              → length left ≤ fuel
              → let (items, rest) = scan body fuel left in Parses body left items rest)
          → let (items, rest) = pass v buf (scan body fuel) in Parses body buf items rest
      go wait e a ih = waits e
      go (skip n) e a ih = skips e (ih _ (shorter buf n fuel a.0 a.1 h))
      go (found x n) e a ih = finds e (ih _ (shorter buf n fuel a.0 a.1 h))

  -- The loop with a round for each byte reads the whole buffer.
  pub drain-Parses :
      (buf : Bytes) → let (items, rest) = drain body buf in Parses body buf items rest
  unfolding drain
  drain-Parses buf = scan-Parses (length buf) buf (omega arith)

  pub drain-eq :
      {buf rest : Bytes} {items : List A}
      → Parses body buf items rest
      → drain body buf ≡ (items, rest)
  drain-eq {buf} p = let u = Parses-unique (drain-Parses buf) p in λ i. (u.0 i, u.1 i)

  -- Reading goes on where it stopped.
  pub Parses-append :
      {buf left rest : Bytes} {xs ys : List A} (more : Bytes)
      → Parses body buf xs left
      → Parses body (left ++ more) ys rest
      → Parses body (buf ++ more) (xs ++ ys) rest
  Parses-append more (waits e) q = q
  Parses-append {buf} {rest} {ys} more (skips {n} {items} e p) q =
      skips (laws.stable buf more (λ f. cc) ∙ e) (
        subst (λ (b : Bytes). Parses body b (items ++ ys) rest)
          (sym (drop-append_left buf more n (rw e at (laws.advances buf)).1))
          (Parses-append more p q))
  Parses-append {buf} {rest} {ys} more (finds {n} {items} e p) q =
      finds (laws.stable buf more (λ f. cc) ∙ e) (
        subst (λ (b : Bytes). Parses body b (items ++ ys) rest)
          (sym (drop-append_left buf more n (rw e at (laws.advances buf)).1))
          (Parses-append more p q))
