-- ===== src/Reassembler/Integrity.antt =====
-- An image is returned only when its sub-frames arrived complete and in order.
use edu_glasses_host.Base.{
  ℕ, ◌+◌, ◌≡◌, ◌≢◌, refl, ap, sym, ◌∙◌, subst, true, false, Bool-cases, some, List, [], ◌∷◌, ◌++◌,
  append_assoc, append-nil, map, map-append, length, length-append, concat, inl, inr, ◌==◌, arith,
}
use mathlib.Core.Bool.{false≢true}
use edu_glasses_host.Base.Bytes.{Bytes}
use edu_glasses_host.AirImg.{SubFrame, air_img_head, air_img_body}
use edu_glasses_host.Reassembler.{
  Reassembler, CompletedImage, initial, feed_subframe, on_head, on_body, on_tail, mark_broken,
}
use edu_glasses_host.Reassembler.Delivery.{run}

abbrev chunk_of : SubFrame → Bytes
chunk_of sub = sub.chunk

-- Bodies of group `g`, numbered from `n` on with no gap.
abbrev pub Consecutive : ℕ → ℕ → List SubFrame → Type 0
Consecutive g n [] = Unit
Consecutive g n (sub ∷ subs) =
    (sub.frame_type ≡ air_img_body)
    × (sub.group_id ≡ g)
    × (sub.sequence ≡ n)
    × Consecutive g (n + 1) subs

-- The sub-frames seen end with a head and its bodies, none missing and nothing in between.
pub record IsOpen (seen : List SubFrame) (group format next : ℕ) (chunks : List Bytes)
    : Type 0 where
  pub before : List SubFrame
  pub first : SubFrame
  pub bodies : List SubFrame
  pub splits : seen ≡ before ++ (first ∷ bodies)
  pub is_head : first.frame_type ≡ air_img_head
  pub is_group : first.group_id ≡ group
  pub is_format : first.img_format ≡ format
  pub in_order : Consecutive group (first.sequence + 1) bodies
  pub is_next : next ≡ first.sequence + 1 + length bodies
  pub parts : chunks ≡ map chunk_of bodies

abbrev Inv : List SubFrame → Reassembler → Type 0
Inv seen r =
    r.collecting ≡ true
    → r.broken ≡ false
    → IsOpen seen r.group_id r.img_format r.expected_seq r.chunks

Consecutive-append :
    (bodies : List SubFrame) (g n : ℕ) (sub : SubFrame)
    → Consecutive g n bodies
    → sub.frame_type ≡ air_img_body
    → sub.group_id ≡ g
    → sub.sequence ≡ n + length bodies
    → Consecutive g n (bodies ++ (sub ∷ []))
Consecutive-append [] g n sub c t h s = (t, h, omega arith, tt)
Consecutive-append (b ∷ bodies) g n sub c t h s =
    (c.0, c.1, c.2, Consecutive-append bodies g (n + 1) sub c.3 t h (omega arith))

on_head-Inv :
    (seen : List SubFrame) (sub : SubFrame) (r : Reassembler)
    → sub.frame_type ≡ air_img_head
    → Inv (seen ++ (sub ∷ [])) (on_head sub r).1
unfolding on_head
on_head-Inv seen sub r t c b = record {
  before = seen;
  first = sub;
  bodies = [];
  splits = refl;
  is_head = t;
  is_group = refl;
  is_format = refl;
  in_order = tt;
  is_next = omega arith;
  parts = refl;
}

IsOpen-append :
    (seen : List SubFrame) (sub : SubFrame) (group format next : ℕ) (chunks : List Bytes)
    → IsOpen seen group format next chunks
    → sub.frame_type ≡ air_img_body
    → sub.group_id ≡ group
    → sub.sequence ≡ next
    → IsOpen (seen ++ (sub ∷ [])) group format (next + 1) (chunks ++ (sub.chunk ∷ []))
IsOpen-append seen sub group format next chunks o t g s = record {
  before = o.before;
  first = o.first;
  bodies = o.bodies ++ (sub ∷ []);
  splits =
      ap (λ (l : List SubFrame). l ++ (sub ∷ [])) o.splits
      ∙ append_assoc o.before (o.first ∷ o.bodies) (sub ∷ []);
  is_head = o.is_head;
  is_group = o.is_group;
  is_format = o.is_format;
  in_order =
      Consecutive-append o.bodies group (o.first.sequence + 1) sub o.in_order t g (s ∙ o.is_next);
  is_next = omega (arith, o.is_next, length-append o.bodies (sub ∷ []));
  parts =
      ap (λ (l : List Bytes). l ++ (sub.chunk ∷ [])) o.parts
      ∙ sym (map-append chunk_of o.bodies (sub ∷ []));
}

-- The one branch of `on_body` that leaves a healthy image.
on_body_healthy :
    (sub : SubFrame) (r : Reassembler)
    → let s = (on_body sub r).1 in
      s.collecting ≡ true
      → s.broken ≡ false
      → (r.collecting ≡ true)
        × (r.broken ≡ false)
        × (sub.group_id ≡ r.group_id)
        × (sub.sequence ≡ r.expected_seq)
        × (s.group_id ≡ r.group_id)
        × (s.img_format ≡ r.img_format)
        × (s.expected_seq ≡ r.expected_seq + 1)
        × (s.chunks ≡ r.chunks ++ (sub.chunk ∷ []))
unfolding on_body mark_broken
on_body_healthy sub r c b = ground arith

on_body-Inv :
    (seen : List SubFrame) (sub : SubFrame) (r : Reassembler)
    → Inv seen r
    → sub.frame_type ≡ air_img_body
    → Inv (seen ++ (sub ∷ [])) (on_body sub r).1
on_body-Inv seen sub r inv t c b =
    let (rc, rb, g, s, eg, ef, en, ek) = on_body_healthy sub r c b in
    let o =
      IsOpen-append seen sub r.group_id r.img_format r.expected_seq r.chunks (inv rc rb) t g s in
    rw (eg, ef, en, ek) o

-- A tail, or anything that is no head and no body, leaves no image in progress.
on_tail-Inv :
    (sub : SubFrame) (r : Reassembler)
    → (on_tail sub r).1.collecting ≡ true
    → (on_tail sub r).1.broken ≡ false
    → ⊥
unfolding on_tail mark_broken
on_tail-Inv sub r c b = ground arith

feed_subframe-Inv :
    (seen : List SubFrame) (sub : SubFrame) (r : Reassembler)
    → Inv seen r
    → Inv (seen ++ (sub ∷ [])) (feed_subframe sub r).1
unfolding feed_subframe
feed_subframe-Inv seen sub r inv = elim (Bool-cases (sub.frame_type == air_img_head)) [
  | inl h ↦ rw h (on_head-Inv seen sub r (ground arith))
  | inr h ↦ elim (Bool-cases (sub.frame_type == air_img_body)) [
    | inl b ↦ rw (h, b) (on_body-Inv seen sub r inv (ground arith))
    | inr b ↦ rw (h, b) (λ c k. absurd (on_tail-Inv sub r c k))
  ]
]

run-Inv :
    (subs seen : List SubFrame) (r : Reassembler) → Inv seen r → Inv (seen ++ subs) (run subs r).1
unfolding run
run-Inv [] seen r inv = subst (λ (l : List SubFrame). Inv l r) (sym (append-nil seen)) inv
run-Inv (sub ∷ subs) seen r inv =
    subst (λ (l : List SubFrame). Inv l (run subs (feed_subframe sub r).1).1)
      (append_assoc seen (sub ∷ []) subs)
      (run-Inv subs (seen ++ (sub ∷ [])) (feed_subframe sub r).1 (feed_subframe-Inv seen sub r inv))

-- The one branch of `feed_subframe` that returns an image.
image_inv :
    (sub : SubFrame) (r : Reassembler) (image : CompletedImage)
    → (feed_subframe sub r).0 ≡ some image
    → (r.collecting ≡ true)
      × (r.broken ≡ false)
      × (sub.group_id ≡ r.group_id)
      × (sub.sequence ≡ r.expected_seq)
      × (image.content ≡ concat r.chunks)
      × (image.group_id ≡ r.group_id)
      × (image.img_format ≡ r.img_format)
      × (sub.frame_type ≢ air_img_head)
      × (sub.frame_type ≢ air_img_body)
unfolding feed_subframe on_head on_body on_tail mark_broken
image_inv sub r image e = ground arith

-- What justifies a returned image: the sub-frames so far end with a head, the bodies of its group
-- with consecutive sequence numbers, and the sub-frame that closes the image with the number that
-- comes next; the image is made of exactly those bodies.
pub record IsJustified (seen : List SubFrame) (last : SubFrame) (image : CompletedImage)
    : Type 0 where
  pub before : List SubFrame
  pub first : SubFrame
  pub bodies : List SubFrame
  pub splits : seen ≡ before ++ (first ∷ bodies)
  pub is_head : first.frame_type ≡ air_img_head
  pub in_order : Consecutive first.group_id (first.sequence + 1) bodies
  pub closes :
      (last.group_id ≡ first.group_id)
      × (last.sequence ≡ first.sequence + 1 + length bodies)
      × (last.frame_type ≢ air_img_head)
      × (last.frame_type ≢ air_img_body)
  pub is_image :
      (image.content ≡ concat (map chunk_of bodies))
      × (image.group_id ≡ first.group_id)
      × (image.img_format ≡ first.img_format)

-- Whatever sub-frames a new reassembler has been fed, an image comes back only from a sub-frame
-- that closes one: a head, its bodies in order with none missing, repeated or foreign, and this
-- sub-frame. A damaged image is never delivered.
pub feed_subframe-IsJustified :
    (seen : List SubFrame) (last : SubFrame) (image : CompletedImage)
    → (feed_subframe last (run seen initial).1).0 ≡ some image
    → IsJustified seen last image
feed_subframe-IsJustified seen last image e =
    let r = (run seen initial).1 in
    let (rc, rb, g, s, content, group, format, h, b) = image_inv last r image e in
    let o = run-Inv seen [] initial (λ c k. absurd (false≢true c)) rc rb in
    record {
      before = o.before;
      first = o.first;
      bodies = o.bodies;
      splits = o.splits;
      is_head = o.is_head;
      in_order =
          subst (λ (k : ℕ). Consecutive k (o.first.sequence + 1) o.bodies) (sym o.is_group)
            o.in_order;
      closes = (g ∙ sym o.is_group, s ∙ o.is_next, h, b);
      is_image = (content ∙ ap concat o.parts, group ∙ sym o.is_group, format ∙ sym o.is_format);
    }
