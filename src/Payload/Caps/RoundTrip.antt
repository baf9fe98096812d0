-- ===== src/Payload/Caps/RoundTrip.antt =====
-- The names tell the bitmap.
use edu_glasses_host.Base.{
  ℕ, zero, suc, ◌+◌, ◌*◌, ◌/◌, ◌%◌, ◌^◌, ◌≡◌, refl, ap, ◌∙◌, List, [], ◌∷◌, ◌++◌, ◌==◌,
  if◌then◌else◌, bit_and, ◌<◌, ◌⊎◌, inl, inr, arith,
}
use native.Mathlib.Nat.{pow-suc}
use edu_glasses_host.Base.Bits.{bit_and_mask, bit_and-one, bit_and-double}
use edu_glasses_host.Payload.Caps.{
  Capability, cap_names, names_in, sum_bits, and_not, caps_to_names, unknown_caps, audio_stream,
  photo, sensors, input_events, control, wifi, saved_photo, video, media_catalog, video_config,
  native_input, device_capture_state,
}

-- The bits that a name stands for.
abbrev pub bits_of : Capability → ℕ
bits_of audio_stream = 1
bits_of photo = 2
bits_of sensors = 4
bits_of input_events = 8
bits_of control = 16
bits_of wifi = 32
bits_of saved_photo = 64
bits_of video = 128
bits_of media_catalog = 256
bits_of video_config = 512
bits_of native_input = 1024
bits_of device_capture_state = 2048
bits_of (unknown_caps n) = n

abbrev pub total : List Capability → ℕ
total [] = 0
total (c ∷ cs) = bits_of c + total cs

total-append : (xs ys : List Capability) → total (xs ++ ys) ≡ total xs + total ys
total-append [] ys = omega arith
total-append (x ∷ xs) ys = omega (arith, total-append xs ys)

-- The sum of `n` bits of a number, from the bit `b` upwards.
bits_from : ℕ → ℕ → ℕ → ℕ
bits_from b a zero = 0
bits_from b a (suc n) = bit_and a b + bits_from (2 * b) a n

bits_from-double : (b a n : ℕ) → bits_from (2 * b) a n ≡ 2 * bits_from b (a / 2) n
unfolding bits_from
bits_from-double b a zero = omega arith
bits_from-double b a (suc n) = omega (arith, bit_and-double a b, bits_from-double (2 * b) a n)

low : ℕ → ℕ → ℕ
low a zero = 0
low a (suc n) = a % 2 + 2 * low (a / 2) n

bits_from-low : (a n : ℕ) → bits_from 1 a n ≡ low a n
unfolding bits_from low
bits_from-low a zero = refl
bits_from-low a (suc n) =
    omega (arith, bit_and-one a, bits_from-double 1 a n, bits_from-low (a / 2) n)

twelve_bits : (a : ℕ) → low a 12 ≡ a % 4096
unfolding low
twelve_bits a = omega arith

named_bit :
    (a bit : ℕ) (name : Capability) (rest : List (ℕ × Capability))
    → bits_of name ≡ bit
    → 0 < bit
    → (bit_and a bit ≡ 0) ⊎ (bit_and a bit ≡ bit)
    → total (names_in a ((bit, name) ∷ rest)) ≡ bit_and a bit + total (names_in a rest)
named_bit a bit name rest h p (inl e) = ground (arith, e)
named_bit a bit name rest h p (inr e) = ground (arith, e, h)

one_bit : (k a : ℕ) → (bit_and a (2 ^ k) ≡ 0) ⊎ (bit_and a (2 ^ k) ≡ 2 ^ k)
one_bit zero a = omega (arith, bit_and-one a)
one_bit (suc k) a =
    let twice : 2 ^ suc k ≡ 2 * 2 ^ k = omega (arith, pow-suc 2 k) in
    let same = ap (λ (t : ℕ). bit_and a t) twice in
    elim (one_bit k (a / 2)) [
      | inl e ↦ inl (omega (arith, same, bit_and-double a (2 ^ k), e))
      | inr e ↦ inr (omega (arith, same, bit_and-double a (2 ^ k), e))
    ]

known_bits : (a : ℕ) → total (names_in a cap_names) ≡ bits_from 1 a 12
unfolding bits_from
known_bits a = omega (
  arith,
  named_bit a 1 audio_stream _ refl (omega arith) (one_bit 0 a),
  named_bit a 2 photo _ refl (omega arith) (one_bit 1 a),
  named_bit a 4 sensors _ refl (omega arith) (one_bit 2 a),
  named_bit a 8 input_events _ refl (omega arith) (one_bit 3 a),
  named_bit a 16 control _ refl (omega arith) (one_bit 4 a),
  named_bit a 32 wifi _ refl (omega arith) (one_bit 5 a),
  named_bit a 64 saved_photo _ refl (omega arith) (one_bit 6 a),
  named_bit a 128 video _ refl (omega arith) (one_bit 7 a),
  named_bit a 256 media_catalog _ refl (omega arith) (one_bit 8 a),
  named_bit a 512 video_config _ refl (omega arith) (one_bit 9 a),
  named_bit a 1024 native_input _ refl (omega arith) (one_bit 10 a),
  named_bit a 2048 device_capture_state [] refl (omega arith) (one_bit 11 a),
)

-- Nothing of a bitmap is lost: the bits of the names, with those of the unknown part, sum up to it.
pub caps_to_names-total : (caps : ℕ) → total (caps_to_names caps) ≡ caps
unfolding caps_to_names
caps_to_names-total caps =
    let unknown = and_not caps (sum_bits cap_names) in
    let known = known_bits caps ∙ bits_from-low caps 12 ∙ twelve_bits caps in
    let rest : total (if unknown == 0 then [] else unknown_caps unknown ∷ []) ≡ unknown =
      ground arith in
    omega (
      arith,
      total-append (names_in caps cap_names)
          (if unknown == 0 then [] else unknown_caps unknown ∷ []),
      known,
      rest,
      bit_and_mask 12 caps,
    )
