-- ===== src/Payload/Caps.antt =====
-- The capability bits of looktech_glasses_sdk/protocol.py: `CAP_NAMES` and `caps_to_names`.
pub mod RoundTrip
use edu_glasses_host.Base.{
  ℕ, ◌+◌, ◌-◌, ◌*◌, ◌^◌, Bool, not, List, [], ◌∷◌, ◌++◌, ◌==◌, if◌then◌else◌, bit_and,
}
use edu_glasses_host.Base.Bits.{shl}

pub data Capability : Type 0 where
  audio_stream photo sensors input_events control wifi saved_photo video media_catalog video_config
        native_input device_capture_state :
      Capability
  unknown_caps : ℕ → Capability

-- `CAP_NAMES`, in the order of the bits.
abbrev pub cap_names : List (ℕ × Capability)
cap_names =
    (shl 1 0, audio_stream)
    ∷ (shl 1 1, photo)
    ∷ (shl 1 2, sensors)
    ∷ (shl 1 3, input_events)
    ∷ (shl 1 4, control)
    ∷ (shl 1 5, wifi)
    ∷ (shl 1 6, saved_photo)
    ∷ (shl 1 7, video)
    ∷ (shl 1 8, media_catalog)
    ∷ (shl 1 9, video_config)
    ∷ (shl 1 10, native_input)
    ∷ (shl 1 11, device_capture_state)
    ∷ []

abbrev pub names_in : ℕ → List (ℕ × Capability) → List Capability
names_in caps [] = []
names_in caps ((bit, name) ∷ rest) =
    let names = names_in caps rest in if bit_and caps bit == 0 then names else name ∷ names

abbrev pub sum_bits : List (ℕ × Capability) → ℕ
sum_bits [] = 0
sum_bits ((bit, name) ∷ rest) = bit + sum_bits rest

-- `x & ~mask`: the bits of `x` less those in the mask.
abbrev pub and_not : ℕ → ℕ → ℕ
and_not x mask = x - bit_and x mask

unfoldable pub caps_to_names : ℕ → List Capability
caps_to_names caps =
    let unknown = and_not caps (sum_bits cap_names) in
    names_in caps cap_names ++ (if unknown == 0 then [] else unknown_caps unknown ∷ [])
