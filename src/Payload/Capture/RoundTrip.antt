-- ===== src/Payload/Capture/RoundTrip.antt =====
-- A capture state is accepted exactly where it is consistent.
use edu_glasses_host.Base.{
  ℕ, zero, suc, ◌+◌, ◌≡◌, ◌↔◌, refl, ap, sym, ◌∙◌, subst, Bool, true, false, not, Option, none,
  some, [], ◌∷◌, ◌++◌, ◌==◌, length, ok, raise_if, raise_if-ok, bind-eq-ok, arith,
}
use edu_glasses_host.Base.Bytes.{Bytes, byte_at}
use edu_glasses_host.Payload.Codes.{member, member-some}
use edu_glasses_host.Payload.Codes.Captures.{
  CaptureKind, CaptureSource, CaptureState, capture_kind_code, capture_source_code,
  capture_state_code, capture_kind_own, capture_source_own, capture_state_own, capture_kind_enum,
  capture_source_enum, capture_state_enum,
}
use edu_glasses_host.Payload.Capture.{
  DeviceCaptureEntry, DeviceCaptureState, kind_mismatch, idle_mismatch, wrong_size, member_or,
  differ, parse_entry, parse_capture_state,
}

-- The four bytes of an entry.
abbrev pub entry_bytes : DeviceCaptureEntry → Bytes
entry_bytes e =
    capture_kind_code e.kind
    ∷ capture_source_code e.source
    ∷ capture_state_code e.state
    ∷ e.error
    ∷ []

abbrev pub capture_bytes : DeviceCaptureState → Bytes
capture_bytes s = entry_bytes s.photo ++ entry_bytes s.video

-- There is no source exactly when nothing goes on.
pub record IsEntry (kind : CaptureKind) (e : DeviceCaptureEntry) : Type 0 where
  pub is_kind : e.kind ≡ kind
  pub idle_iff : (e.source ≡ CaptureSource.none) ↔ (e.state ≡ CaptureState.idle)

pub record IsConsistent (s : DeviceCaptureState) : Type 0 where
  pub photo_entry : IsEntry CaptureKind.photo s.photo
  pub video_entry : IsEntry CaptureKind.video s.video

kind_injective : (a b : CaptureKind) → (capture_kind_code a == capture_kind_code b) ≡ true → a ≡ b
kind_injective a b h = ground arith

no_source : (a : CaptureSource) → ((capture_source_code a == 0) ≡ true) ↔ (a ≡ CaptureSource.none)
no_source a = (λ h. ground arith, λ h. ground arith)

no_state : (b : CaptureState) → ((capture_state_code b == 0) ≡ true) ↔ (b ≡ CaptureState.idle)
no_state b = (λ h. ground arith, λ h. ground arith)

differ-false : (a b : Bool) → (differ a b ≡ false) ↔ ((a ≡ true) ↔ (b ≡ true))
differ-false true true = (λ h. (λ k. refl, λ k. refl), λ h. refl)
differ-false true false = (λ h. cc, λ h. sym (h.0 refl))
differ-false false true = (λ h. cc, λ h. sym (h.1 refl))
differ-false false false = (λ h. (λ k. k, λ k. k), λ h. refl)

member_or-ok :
    {E : Type 0} (o : Option E) (value : ℕ) (e : E) → member_or o value ≡ ok e → o ≡ some e
member_or-ok none value e h = cc
member_or-ok (some d) value e h = cc

not-false : (b : Bool) → not b ≡ false → b ≡ true
not-false true h = refl
not-false false h = sym h

-- The four bytes at an offset are those of an entry.
abbrev At : Bytes → ℕ → DeviceCaptureEntry → Type 0
At buf i e =
    (byte_at buf i ≡ capture_kind_code e.kind)
    × (byte_at buf (i + 1) ≡ capture_source_code e.source)
    × (byte_at buf (i + 2) ≡ capture_state_code e.state)
    × (byte_at buf (i + 3) ≡ e.error)

parse_entry-IsEntry :
    (buf : Bytes) (i : ℕ) (kind : CaptureKind) (e : DeviceCaptureEntry)
    → parse_entry buf i kind ≡ ok e
    → At buf i e × IsEntry kind e
unfolding parse_entry
parse_entry-IsEntry buf i kind e h =
    let (k, hk, h1) = bind-eq-ok (member_or (member (byte_at buf i)) (byte_at buf i)) _ h in
    let (s, hs, h2) =
      bind-eq-ok (member_or (member (byte_at buf (i + 1))) (byte_at buf (i + 1))) _ h1 in
    let (t, ht, h3) =
      bind-eq-ok (member_or (member (byte_at buf (i + 2))) (byte_at buf (i + 2))) _ h2 in
    let (u, hu, h4) =
      bind-eq-ok (raise_if (not (capture_kind_code k == capture_kind_code kind)) kind_mismatch) _
        h3 in
    let (v, hv, h5) =
      bind-eq-ok
        (raise_if (differ (capture_source_code s == 0) (capture_state_code t == 0)) idle_mismatch) _
        h4 in
    let agree = (differ-false _ _).0 (raise_if-ok _ idle_mismatch v hv) in
    let matches = kind_injective k kind (not-false _ (raise_if-ok _ kind_mismatch u hu)) in
    let found : DeviceCaptureEntry = record {
      kind = k;
      source = s;
      state = t;
      error = byte_at buf (i + 3);
    } in
    let same : found ≡ e = cc in
    subst (λ (d : DeviceCaptureEntry). At buf i d × IsEntry kind d) same
      (
        (
          sym (member-some _ k (member_or-ok _ _ k hk)),
          sym (member-some _ s (member_or-ok _ _ s hs)),
          sym (member-some _ t (member_or-ok _ _ t ht)),
          refl,
        ),
        record {
          is_kind = matches;
          idle_iff = (
            λ n. (no_state t).0 (agree.0 ((no_source s).1 n)),
            λ n. (no_source s).0 (agree.1 ((no_state t).1 n)),
          );
        },
      )

not_same : (k : CaptureKind) → not (capture_kind_code k == capture_kind_code k) ≡ false
not_same k = ground arith

entry_complete :
    (buf : Bytes) (i : ℕ) (kind : CaptureKind) (e : DeviceCaptureEntry)
    → At buf i e
    → IsEntry kind e
    → parse_entry buf i kind ≡ ok e
unfolding parse_entry
entry_complete buf i kind e at valid =
    let k : member (byte_at buf i) ≡ some e.kind =
      ap (λ (v : ℕ). member v) at.0 ∙ capture_kind_own e.kind in
    let s : member (byte_at buf (i + 1)) ≡ some e.source =
      ap (λ (v : ℕ). member v) at.1 ∙ capture_source_own e.source in
    let t : member (byte_at buf (i + 2)) ≡ some e.state =
      ap (λ (v : ℕ). member v) at.2 ∙ capture_state_own e.state in
    let agree : differ (capture_source_code e.source == 0) (capture_state_code e.state == 0)
        ≡ false =
      (differ-false _ _).1 (
        λ n. (no_state e.state).1 (valid.idle_iff.0 ((no_source e.source).0 n)),
        λ n. (no_source e.source).1 (valid.idle_iff.1 ((no_state e.state).0 n)),
      ) in
    let same : not (capture_kind_code e.kind == capture_kind_code kind) ≡ false =
      ap (λ (c : CaptureKind). not (capture_kind_code e.kind == capture_kind_code c))
        (sym valid.is_kind)
      ∙ not_same e.kind in
    cc (k, s, t, same, agree, at.3)

collect : ℕ → ℕ → Bytes → Bytes
collect i zero xs = []
collect i (suc n) xs = byte_at xs i ∷ collect (suc i) n xs

collect-tail : (i n x : ℕ) (xs : Bytes) → collect (suc i) n (x ∷ xs) ≡ collect i n xs
unfolding collect
collect-tail i zero x xs = refl
collect-tail i (suc n) x xs = ap (λ (t : Bytes). byte_at xs i ∷ t) (collect-tail (suc i) n x xs)

collect_all : (xs : Bytes) → collect 0 (length xs) xs ≡ xs
unfolding collect
collect_all [] = refl
collect_all (x ∷ xs) = ap (λ (t : Bytes). x ∷ t) (collect-tail 0 (length xs) x xs ∙ collect_all xs)

eight_bytes :
    (xs : Bytes) (s : DeviceCaptureState)
    → length xs ≡ 8
    → At xs 0 s.photo
    → At xs 4 s.video
    → xs ≡ capture_bytes s
unfolding collect
eight_bytes xs s h p v =
    sym (collect_all xs)
    ∙ ap (λ (n : ℕ). collect 0 n xs) h
    ∙ cc (p.0, p.1, p.2, p.3, v.0, v.1, v.2, v.3)

-- A capture state is read from exactly the eight bytes that hold its photo entry and behind it its
-- video entry, kind, source, state and error each, and only if each has a source exactly when it is
-- not idle; all else is refused. The error is not looked at: an idle entry may have one, where
-- docs/PROTOCOL.md has 0.
pub parse_capture_state_iff :
    (input : Bytes) (s : DeviceCaptureState)
    → (parse_capture_state input ≡ ok s) ↔ ((input ≡ capture_bytes s) × IsConsistent s)
unfolding parse_capture_state
parse_capture_state_iff input s = (
  λ h.
      let (u, hu, h1) =
        bind-eq-ok (raise_if (not (length input == 8)) (wrong_size (length input))) _ h in
      let (p, hp, h2) = bind-eq-ok (parse_entry input 0 CaptureKind.photo) _ h1 in
      let (v, hv, h3) = bind-eq-ok (parse_entry input 4 CaptureKind.video) _ h2 in
      let found : DeviceCaptureState = record { photo = p; video = v } in
      let same : found ≡ s = cc in
      let size : length input ≡ 8 =
        ground (arith, raise_if-ok _ (wrong_size (length input)) u hu) in
      let (at_p, ok_p) = parse_entry-IsEntry input 0 CaptureKind.photo p hp in
      let (at_v, ok_v) = parse_entry-IsEntry input 4 CaptureKind.video v hv in
      subst (λ (d : DeviceCaptureState). (input ≡ capture_bytes d) × IsConsistent d) same
        (eight_bytes input found size at_p at_v, record { photo_entry = ok_p; video_entry = ok_v }),
  λ h.
      let first =
        entry_complete (capture_bytes s) 0 CaptureKind.photo s.photo (refl, refl, refl, refl)
          h.1.photo_entry in
      let second =
        entry_complete (capture_bytes s) 4 CaptureKind.video s.video (refl, refl, refl, refl)
          h.1.video_entry in
      ap parse_capture_state h.0 ∙ cc (first, second),
)
