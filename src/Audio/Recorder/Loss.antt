-- ===== src/Audio/Recorder/Loss.antt =====
-- Lost packages, told from the sequence numbers.
use edu_glasses_host.Base.{
  ℕ, ◌+◌, ◌*◌, ◌/◌, ◌%◌, ◌^◌, ◌<◌, ◌≡◌, refl, ap, sym, ◌∙◌, bit_and, suc, zero, arith,
}
use native.Mathlib.Nat.{mul-div_cancel}
use edu_glasses_host.Base.Bits.{bit_and_mask}
use edu_glasses_host.Audio.Recorder.{lost_before, sub_16}

-- The source numbers the frames modulo 2 ^ 16, with `sections` frames in a package.
abbrev pub sn_after : ℕ → ℕ → ℕ → ℕ
sn_after last sections packages = (last + packages * sections) % 2 ^ 16

one_lost :
    (last s gap : ℕ)
    → last < 2 ^ 16
    → gap < 2 ^ 16
    → let sn = (last + s + gap) % 2 ^ 16 in
      let expected = (last + s) % 2 ^ 16 in (sub_16 sn expected ≡ gap) × (sn ≡ expected → gap ≡ 0)
one_lost last s gap h k = (omega arith, λ e. omega arith)

lost_gap :
    (last s k sn : ℕ)
    → 0 < s
    → let expected = bit_and (last + s) 0xffff in
      sub_16 sn expected ≡ k * s
      → (sn ≡ expected → k ≡ 0)
      → (k ≡ 0 → sn ≡ expected)
      → lost_before last s sn ≡ k
unfolding lost_before
lost_gap last s k sn pos gap there back =
    let count : sub_16 sn (bit_and (last + s) 0xffff) / s ≡ k =
      ap (λ (g : ℕ). g / s) gap ∙ mul-div_cancel k pos in
    ground arith

no_gap : (k s : ℕ) → 0 < s → k * s ≡ 0 → k ≡ 0
no_gap zero s pos e = refl
no_gap (suc k) s pos e = absurd (omega arith)

flat : (last s : ℕ) → (last + s + 0 * s) % 2 ^ 16 ≡ (last + s) % 2 ^ 16
flat last s = omega arith

-- Where `k` packages were lost before one that arrives, and fewer frames than a sequence number
-- can count, the number of lost packages found is `k`, also when the numbers wrap around.
pub lost_before-sn_after :
    (last sections k : ℕ)
    → last < 2 ^ 16
    → 0 < sections
    → k * sections < 2 ^ 16
    → lost_before last sections (sn_after last sections (k + 1)) ≡ k
lost_before-sn_after last sections k h pos few =
    let spread : last + (k + 1) * sections ≡ last + sections + k * sections = omega arith in
    let same = ap (λ (t : ℕ). t % 2 ^ 16) spread in
    let mask = bit_and_mask 16 (last + sections) in
    let (gap, none_lost) = one_lost last sections (k * sections) h few in
    lost_gap last sections k (sn_after last sections (k + 1)) pos
      (ap (λ (t : ℕ). sub_16 (sn_after last sections (k + 1)) t) mask
        ∙ ap (λ (t : ℕ). sub_16 t ((last + sections) % 2 ^ 16)) same
        ∙ gap)
      (λ e. no_gap k sections pos (none_lost (sym same ∙ e ∙ mask)))
      (λ e.
        same
        ∙ ap (λ (j : ℕ). (last + sections + j * sections) % 2 ^ 16) e
        ∙ flat last sections
        ∙ sym mask)
