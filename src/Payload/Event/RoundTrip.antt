-- ===== src/Payload/Event/RoundTrip.antt =====
-- Events as docs/PROTOCOL.md §4 lays them out, and what is made of any other payload.
use edu_glasses_host.Base.{
  ℕ, ◌^◌, ◌<◌, ◌≤◌, ◌≡◌, refl, ap, ◌∙◌, Bool, true, false, [], ◌∷◌, ◌++◌, length, Result, ok, err,
  arith, if◌then◌else◌, ◌⊎◌, not, ◌==◌,
}
use edu_glasses_host.Base.Int.{ℤ, signed, Fits, unsigned, signed-unsigned, unsigned-lt}
use edu_glasses_host.Base.Bytes.{Bytes, byte_at, to_le, le-to_le}
use edu_glasses_host.Payload.Capture.{DeviceCaptureState, parse_capture_state}
use edu_glasses_host.Payload.Capture.RoundTrip.{
  capture_bytes, IsConsistent, parse_capture_state_iff,
}
use edu_glasses_host.Payload.Event.{
  GlassesEvent, button_event, knob_event, audio_state_event, img_state_event, capture_state_event,
  audio_record_request, unknown_event, empty_payload, or_unknown, event_of, parse_event, i16_at,
}

abbrev pub i16 : ℤ → Bytes
i16 z = to_le 2 (unsigned (2 ^ 15) z)

abbrev pub bit : Bool → ℕ
bit b = if b then 1 else 0

-- The payload that tells an event.
abbrev pub event_bytes : GlassesEvent → Bytes
event_bytes (button_event btn action) = 1 ∷ btn ∷ action ∷ []
event_bytes (knob_event direction x y) = 2 ∷ direction ∷ (i16 x ++ i16 y)
event_bytes (audio_state_event state source error) = 3 ∷ state ∷ source ∷ error ∷ []
event_bytes (img_state_event evt error) = 4 ∷ evt ∷ error ∷ []
event_bytes (capture_state_event s) = 5 ∷ capture_bytes s
event_bytes (audio_record_request start) = 6 ∷ bit start ∷ []
event_bytes (unknown_event id input) = id ∷ input

-- Its numbers fit, a capture state is consistent, and an unknown id is none of the known ones.
abbrev pub IsEvent : GlassesEvent → Type 0
IsEvent (button_event btn action) = Unit
IsEvent (knob_event direction x y) = Fits (2 ^ 15) x × Fits (2 ^ 15) y
IsEvent (audio_state_event state source error) = Unit
IsEvent (img_state_event evt error) = Unit
IsEvent (capture_state_event s) = IsConsistent s
IsEvent (audio_record_request start) = Unit
IsEvent (unknown_event id input) = (id < 1) ⊎ (6 < id)

i16-back : (z : ℤ) (rest : Bytes) → Fits (2 ^ 15) z → i16_at (i16 z ++ rest) 0 ≡ z
i16-back z rest h =
    let size : unsigned (2 ^ 15) z < 256 ^ 2 = omega (arith, unsigned-lt (2 ^ 15) z h) in
    ap (λ (v : ℕ). signed (2 ^ 15) v) (le-to_le 2 (unsigned (2 ^ 15) z) rest size)
    ∙ signed-unsigned (2 ^ 15) z h

-- Every event comes back from the payload that tells it.
pub parse_event-event_bytes : (e : GlassesEvent) → IsEvent e → parse_event (event_bytes e) ≡ ok e
unfolding parse_event event_of to_le
parse_event-event_bytes (button_event btn action) h = refl
parse_event-event_bytes (knob_event direction x y) h =
    cc (i16-back x (i16 y) h.0, i16-back y [] h.1)
parse_event-event_bytes (audio_state_event state source error) h = refl
parse_event-event_bytes (img_state_event evt error) h = refl
parse_event-event_bytes (capture_state_event s) h =
    ap (λ t. ok (or_unknown (capture_bytes s) t))
      ((parse_capture_state_iff (capture_bytes s) s).1 (refl, h))
parse_event-event_bytes (audio_record_request true) h = refl
parse_event-event_bytes (audio_record_request false) h = refl
parse_event-event_bytes (unknown_event id input) h = ground arith

-- What an event tells of a payload: the id, and the whole payload where it is unknown.
abbrev pub Tells : ℕ → Bytes → GlassesEvent → Type 0
Tells id input (button_event btn action) = (id ≡ 1) × (2 ≤ length input)
Tells id input (knob_event direction x y) = (id ≡ 2) × (5 ≤ length input)
Tells id input (audio_state_event state source error) = (id ≡ 3) × (3 ≤ length input)
Tells id input (img_state_event evt error) = (id ≡ 4) × (2 ≤ length input)
Tells id input (capture_state_event s) = (id ≡ 5) × (parse_capture_state input ≡ ok s)
Tells id input (audio_record_request start) = (id ≡ 6) × (input ≡ bit start ∷ [])
Tells id input (unknown_event other raw) = (other ≡ id) × (raw ≡ input)

or_unknown-Tells : (input : Bytes) → Tells 5 input (or_unknown input (parse_capture_state input))
or_unknown-Tells input = go (parse_capture_state input) refl
  where
    go :
        (r : Result _ DeviceCaptureState)
        → parse_capture_state input ≡ r
        → Tells 5 input (or_unknown input r)
    go (ok s) e = (refl, e)
    go (err x) e = (refl, refl)

one_byte :
    (input : Bytes)
    → length input ≡ 1
    → byte_at input 0 ≤ 1
    → input ≡ bit (not (byte_at input 0 == 0)) ∷ []
one_byte [] h k = absurd (omega arith)
one_byte (b ∷ []) h k =
    let same : b ≡ bit (not (b == 0)) = ground arith in ap (λ (t : ℕ). t ∷ []) same
one_byte (b ∷ c ∷ input) h k = absurd (omega arith)

event_of-Tells : (id : ℕ) (input : Bytes) → Tells id input (event_of id input)
unfolding event_of
event_of-Tells id input = ground (arith, or_unknown-Tells input, one_byte input)

-- Only an empty payload is an error. Any other gives an event of its id, read from enough bytes,
-- or an unknown event that keeps the id and all the bytes.
pub parse_event-Tells :
    (id : ℕ) (input : Bytes)
    → (parse_event [] ≡ err empty_payload)
      × ((e : GlassesEvent) × (parse_event (id ∷ input) ≡ ok e) × Tells id input e)
unfolding parse_event
parse_event-Tells id input = (refl, (event_of id input, refl, event_of-Tells id input))
