-- ===== src/Payload/Reply/Versions.antt =====
-- Versions are told by their texts.
use edu_glasses_host.Base.{
  ℕ, zero, suc, ◌+◌, ◌-◌, ◌*◌, ◌/◌, ◌%◌, ◌^◌, ◌<◌, ◌≤◌, ◌≡◌, ◌≢◌, refl, ap, sym, ◌∙◌, subst,
  Bool-cases, inl, inr, [], ◌∷◌, ◌++◌, append_assoc, ltb, All, arith,
}
use edu_glasses_host.Base.Bits.{bit_and_mask}
use edu_glasses_host.Payload.Reply.{
  Text, digits, decimal, dot, minus, plus, suffix, version_to_string,
}

abbrev IsDigit : ℕ → Type 0
IsDigit c = (48 ≤ c) × (c ≤ 57)

-- The number that digits spell, behind a number.
value : ℕ → Text → ℕ
value n [] = n
value n (c ∷ text) = value (n * 10 + (c - 48)) text

digits-IsDigit : (fuel n : ℕ) (text : Text) → All IsDigit text → All IsDigit (digits fuel n text)
unfolding digits
digits-IsDigit zero n text h = h
digits-IsDigit (suc fuel) n text h =
    let longer =
      digits-IsDigit fuel (n / 10) ((48 + n % 10) ∷ text) ((omega arith, omega arith), h) in
    ground (arith, longer, h)

value-digits :
    (fuel n : ℕ) (text : Text) → n < 10 ^ fuel → value 0 (digits fuel n text) ≡ value n text
unfolding digits value
value-digits zero n text h = ap (λ (k : ℕ). value k text) (omega arith)
value-digits (suc fuel) n text h = elim (Bool-cases (ltb n 10)) [
  | inl short ↦
      let last : value (0 * 10 + (48 + n - 48)) text ≡ value n text =
        ap (λ (k : ℕ). value k text) (omega arith) in
      cc (short, last)
  | inr long ↦
      let back : value (n / 10 * 10 + (48 + n % 10 - 48)) text ≡ value n text =
        ap (λ (k : ℕ). value k text) (omega arith) in
      let ih = value-digits fuel (n / 10) ((48 + n % 10) ∷ text) (omega arith) in
      cc (long, ih, back)
]

decimal-IsDigit : (n : ℕ) → All IsDigit (decimal n)
decimal-IsDigit n = digits-IsDigit 5 n [] tt

decimal-injective : (n m : ℕ) → n < 10 ^ 5 → m < 10 ^ 5 → decimal n ≡ decimal m → n ≡ m
unfolding value
decimal-injective n m h k e = sym (value-digits 5 n [] h) ∙ ap (value 0) e ∙ value-digits 5 m [] k

-- A text that goes on with no digit.
abbrev Stops : Text → Type 0
Stops [] = Unit
Stops (c ∷ text) = c < 48

-- Digits are told from what follows them.
digits_split :
    (xs ys r t : Text)
    → All IsDigit xs
    → All IsDigit ys
    → Stops r
    → Stops t
    → xs ++ r ≡ ys ++ t
    → (xs ≡ ys) × (r ≡ t)
digits_split [] [] r t hx hy hr ht e = (refl, e)
digits_split [] (y ∷ ys) [] t hx hy hr ht e = absurd (cc e)
digits_split [] (y ∷ ys) (c ∷ r) t hx hy hr ht e =
    let same : c ≡ y = cc e in absurd (omega (arith, same, hr, hy.0.0))
digits_split (x ∷ xs) [] r [] hx hy hr ht e = absurd (cc e)
digits_split (x ∷ xs) [] r (c ∷ t) hx hy hr ht e =
    let same : x ≡ c = cc e in absurd (omega (arith, same, ht, hx.0.0))
digits_split (x ∷ xs) (y ∷ ys) r t hx hy hr ht e =
    let head : x ≡ y = cc e in
    let tail : xs ++ r ≡ ys ++ t = cc e in
    let (same, rest) = digits_split xs ys r t hx.1 hy.1 hr ht tail in (cc (head, same), rest)

suffix-suc : (sign n : ℕ) → suffix sign (suc n) ≡ sign ∷ decimal (suc n)
suffix-suc sign n = ground arith

suffix-Stops : (sign n : ℕ) (text : Text) → sign < 48 → Stops text → Stops (suffix sign n ++ text)
suffix-Stops sign zero text h k = k
suffix-Stops sign (suc n) text h k = subst (λ t. Stops (t ++ text)) (sym (suffix-suc sign n)) h

plus-Stops : (n : ℕ) → Stops (suffix plus n)
plus-Stops zero = tt
plus-Stops (suc n) = subst Stops (sym (suffix-suc plus n)) (omega arith)

decimals-injective :
    (sign n m : ℕ)
    → n < 10 ^ 5
    → m < 10 ^ 5
    → ◌≡◌ {A = Text} (sign ∷ decimal n) (sign ∷ decimal m)
    → n ≡ m
decimals-injective sign n m h k e =
    let tail : decimal n ≡ decimal m = cc e in decimal-injective n m h k tail

plus-injective : (n m : ℕ) → n < 10 ^ 5 → m < 10 ^ 5 → suffix plus n ≡ suffix plus m → n ≡ m
plus-injective zero zero h k e = refl
plus-injective zero (suc m) h k e = absurd (cc (e, suffix-suc plus m))
plus-injective (suc n) zero h k e = absurd (cc (e, suffix-suc plus n))
plus-injective (suc n) (suc m) h k e =
    decimals-injective plus (suc n) (suc m) h k (sym (suffix-suc plus n) ∙ e ∙ suffix-suc plus m)

-- A build number is not taken for a pre-release.
plus-ne-minus : (n : ℕ) (text : Text) → suffix plus n ≢ minus ∷ text
plus-ne-minus zero text e = absurd (cc e)
plus-ne-minus (suc n) text e =
    let both : plus ∷ decimal (suc n) ≡ minus ∷ text = sym (suffix-suc plus n) ∙ e in
    let same : plus ≡ minus = cc both in absurd (omega (arith, same))

suffixes-injective :
    (d e d' e' : ℕ)
    → d < 10 ^ 5
    → e < 10 ^ 5
    → d' < 10 ^ 5
    → e' < 10 ^ 5
    → suffix minus d ++ suffix plus e ≡ suffix minus d' ++ suffix plus e'
    → (d ≡ d') × (e ≡ e')
suffixes-injective zero e zero e' hd he hd' he' p = (refl, plus-injective e e' he he' p)
suffixes-injective zero e (suc d') e' hd he hd' he' p =
    absurd (plus-ne-minus e _ (p ∙ ap (λ t. t ++ suffix plus e') (suffix-suc minus d')))
suffixes-injective (suc d) e zero e' hd he hd' he' p =
    absurd (plus-ne-minus e' _ (sym p ∙ ap (λ t. t ++ suffix plus e) (suffix-suc minus d)))
suffixes-injective (suc d) e (suc d') e' hd he hd' he' p =
    let whole =
      ap (λ t. t ++ suffix plus e) (sym (suffix-suc minus d))
      ∙ p
      ∙ ap (λ t. t ++ suffix plus e') (suffix-suc minus d') in
    let tail : decimal (suc d) ++ suffix plus e ≡ decimal (suc d') ++ suffix plus e' = cc whole in
    let (same, rest) =
      digits_split (decimal (suc d)) (decimal (suc d')) (suffix plus e) (suffix plus e')
        (decimal-IsDigit (suc d)) (decimal-IsDigit (suc d')) (plus-Stops e) (plus-Stops e') tail in
    (decimal-injective (suc d) (suc d') hd hd' same, plus-injective e e' he he' rest)

text_of : ℕ → ℕ → ℕ → ℕ → ℕ → Text
text_of a b c d e =
    (decimal a ++ (dot ∷ (decimal b ++ (dot ∷ decimal c)))) ++ (suffix minus d ++ suffix plus e)

-- The same, as digits and what follows them.
text_of-split :
    (a b c d e : ℕ)
    → text_of a b c d e
      ≡ decimal a ++ (dot ∷ (decimal b ++ (dot ∷ (decimal c ++ (suffix minus d ++ suffix plus e)))))
unfolding text_of
text_of-split a b c d e =
    let rest = suffix minus d ++ suffix plus e in
    append_assoc (decimal a) (dot ∷ (decimal b ++ (dot ∷ decimal c))) rest
    ∙ ap (λ t. decimal a ++ (dot ∷ t)) (append_assoc (decimal b) (dot ∷ decimal c) rest)

-- A number, a dot and more, told apart.
dotted_split :
    (a a' : ℕ) (r t : Text)
    → a < 10 ^ 5
    → a' < 10 ^ 5
    → decimal a ++ (dot ∷ r) ≡ decimal a' ++ (dot ∷ t)
    → (a ≡ a') × (r ≡ t)
dotted_split a a' r t h k e =
    let (same, rest) =
      digits_split (decimal a) (decimal a') (dot ∷ r) (dot ∷ t) (decimal-IsDigit a)
        (decimal-IsDigit a') (omega arith) (omega arith) e in
    (decimal-injective a a' h k same, cc rest)

-- Five numbers of at most 16 bits.
abbrev Small : ℕ → ℕ → ℕ → ℕ → ℕ → Type 0
Small a b c d e = (a < 2 ^ 16) × (b < 2 ^ 16) × (c < 2 ^ 16) × (d < 2 ^ 16) × (e < 2 ^ 16)

text_of-injective :
    (a b c d e a' b' c' d' e' : ℕ)
    → Small a b c d e
    → Small a' b' c' d' e'
    → text_of a b c d e ≡ text_of a' b' c' d' e'
    → (a ≡ a') × (b ≡ b') × (c ≡ c') × (d ≡ d') × (e ≡ e')
text_of-injective a b c d e a' b' c' d' e' (ha, hb, hc, hd, he) (ka, kb, kc, kd, ke) h =
    let whole = sym (text_of-split a b c d e) ∙ h ∙ text_of-split a' b' c' d' e' in
    let (pa, r1) = dotted_split a a' _ _ (omega arith) (omega arith) whole in
    let (pb, r2) = dotted_split b b' _ _ (omega arith) (omega arith) r1 in
    let (same, r3) =
      digits_split (decimal c) (decimal c') _ _ (decimal-IsDigit c) (decimal-IsDigit c')
        (suffix-Stops minus d (suffix plus e) (omega arith) (plus-Stops e))
        (suffix-Stops minus d' (suffix plus e') (omega arith) (plus-Stops e')) r2 in
    let pc = decimal-injective c c' (omega arith) (omega arith) same in
    let (pd, pe) =
      suffixes-injective d e d' e' (omega arith) (omega arith) (omega arith) (omega arith) r3 in
    (pa, pb, pc, pd, pe)

version_text :
    (v : ℕ)
    → version_to_string v
      ≡ text_of
          (v / 2 ^ 48 % 2 ^ 16)
          (v / 2 ^ 40 % 2 ^ 8)
          (v / 2 ^ 32 % 2 ^ 8)
          (v / 2 ^ 16 % 2 ^ 16)
          (v % 2 ^ 16)
unfolding version_to_string text_of
version_text v = cc (
  bit_and_mask 16 (v / 2 ^ 48),
  bit_and_mask 8 (v / 2 ^ 40),
  bit_and_mask 8 (v / 2 ^ 32),
  bit_and_mask 16 (v / 2 ^ 16),
  bit_and_mask 16 v,
)

-- The characters of a version's text, numbers in decimal, tell the version: 64-bit versions with the
-- same text are the same.
pub version_to_string-injective :
    (v w : ℕ) → v < 2 ^ 64 → w < 2 ^ 64 → version_to_string v ≡ version_to_string w → v ≡ w
version_to_string-injective v w h k e =
    let (a, b, c, d, f) =
      text_of-injective _ _ _ _ _ _ _ _ _ _ (small v) (small w)
        (sym (version_text v) ∙ e ∙ version_text w) in
    omega (arith, a, b, c, d, f)
  where
    small :
        (v : ℕ)
        → Small
            (v / 2 ^ 48 % 2 ^ 16)
            (v / 2 ^ 40 % 2 ^ 8)
            (v / 2 ^ 32 % 2 ^ 8)
            (v / 2 ^ 16 % 2 ^ 16)
            (v % 2 ^ 16)
    small v = (omega arith, omega arith, omega arith, omega arith, omega arith)
