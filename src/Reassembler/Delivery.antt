-- ===== src/Reassembler/Delivery.antt =====
-- A complete image, sub-frame after sub-frame, comes out whole.
use edu_glasses_host.Base.{
  ℕ, ◌+◌, ◌≡◌, refl, ap, sym, ◌∙◌, true, false, Option, none, some, List, [], ◌∷◌, ◌++◌, map,
  append-nil, append_assoc, map-append, concat, if◌then◌else◌, length, subst, arith,
}
use edu_glasses_host.Base.Bytes.{Bytes}
use edu_glasses_host.AirImg.{SubFrame}
use edu_glasses_host.AirImg.RoundTrip.{Sent, head, body, tail, sub_of}
use edu_glasses_host.Reassembler.{
  Reassembler, CompletedImage, feed_subframe, on_head, on_body, on_tail,
}

-- What is emitted when a call returns, and then by the later calls.
abbrev pub emit : Option CompletedImage → List CompletedImage → List CompletedImage
emit none images = images
emit (some image) images = image ∷ images

-- `feed_subframe` on each sub-frame in turn: the images returned, and the object at the end.
unfoldable pub run : List SubFrame → Reassembler → List CompletedImage × Reassembler
run [] r = ([], r)
run (sub ∷ subs) r =
    let (out, r') = feed_subframe sub r in
    let (images, last) = run subs r' in (emit out images, last)

-- An image as the device sends it.
pub record Photo : Type 0 where
  pub group : ℕ
  pub format : ℕ
  pub parts : List Bytes

abbrev pub image_of : Photo → CompletedImage
image_of p = record { content = concat p.parts; group_id = p.group; img_format = p.format }

-- The bodies of a group from sequence number `seq` on, and the tail.
abbrev pub rest_from : ℕ → ℕ → List Bytes → List Sent
rest_from g seq [] = tail g seq ∷ []
rest_from g seq (part ∷ parts) = body g seq part ∷ rest_from g (seq + 1) parts

abbrev pub sent_photo : Photo → List Sent
sent_photo p = head p.group 0 p.format ∷ rest_from p.group 1 p.parts

abbrev pub sent_photos : List Photo → List Sent
sent_photos [] = []
sent_photos (p ∷ ps) = sent_photo p ++ sent_photos ps

concat-snoc : (xss : List Bytes) (xs : Bytes) → concat (xss ++ (xs ∷ [])) ≡ concat xss ++ xs
concat-snoc [] xs = append-nil xs
concat-snoc (ys ∷ xss) xs = ap (λ t. ys ++ t) (concat-snoc xss xs) ∙ sym (append_assoc ys _ xs)

-- One photo, told by its outcome.
pub record IsDelivered (p : Photo) (r : Reassembler) (result : List CompletedImage × Reassembler)
    : Type 0 where
  pub delivered : result.0 ≡ image_of p ∷ []
  pub idle : result.1.collecting ≡ false
  pub completed : result.1.images_completed ≡ r.images_completed + 1
  pub dropped : result.1.images_dropped ≡ r.images_dropped

module _ (sub : SubFrame) (r : Reassembler) (collecting : r.collecting ≡ true)
    (whole : r.broken ≡ false) (group : sub.group_id ≡ r.group_id)
    (next : sub.sequence ≡ r.expected_seq) where
  on_body_next : on_body sub r ≡ (
    none,
    record r { chunks = r.chunks ++ (sub.chunk ∷ []); expected_seq = r.expected_seq + 1 },
  )
  unfolding on_body
  on_body_next = ground arith

  on_tail_next : on_tail sub r ≡ (
    some (record { content = concat r.chunks; group_id = r.group_id; img_format = r.img_format }),
    record r { collecting = false; chunks = []; images_completed = r.images_completed + 1 },
  )
  unfolding on_tail
  on_tail_next = ground arith

run-rest_from :
    (parts : List Bytes) (p : Photo) (r : Reassembler)
    → r.collecting ≡ true
    → r.broken ≡ false
    → r.group_id ≡ p.group
    → r.img_format ≡ p.format
    → p.parts ≡ r.chunks ++ parts
    → IsDelivered p r (run (map sub_of (rest_from p.group r.expected_seq parts)) r)
unfolding run feed_subframe
run-rest_from [] p r c b g f e =
    let chunks : p.parts ≡ r.chunks = e ∙ append-nil r.chunks in
    rw (on_tail_next (sub_of (tail p.group r.expected_seq)) r c b (sym g) refl)
      (record { delivered = cc (chunks, g, f); idle = refl; completed = refl; dropped = refl })
run-rest_from (part ∷ parts) p r c b g f e =
    rw (on_body_next (sub_of (body p.group r.expected_seq part)) r c b (sym g) refl) (
      let rest =
        run-rest_from parts p
          (record r { chunks = r.chunks ++ (part ∷ []); expected_seq = r.expected_seq + 1 }) c b g f
          (e ∙ sym (append_assoc r.chunks (part ∷ []) parts)) in
      record {
        delivered = rest.delivered;
        idle = rest.idle;
        completed = rest.completed;
        dropped = rest.dropped;
      })

-- What a head leaves, whatever was there.
record IsStarted (sub : SubFrame) (r s : Reassembler) : Type 0 where
  collects : s.collecting ≡ true
  is_whole : s.broken ≡ false
  is_group : s.group_id ≡ sub.group_id
  is_format : s.img_format ≡ sub.img_format
  no_chunks : s.chunks ≡ []
  next : s.expected_seq ≡ sub.sequence + 1
  completed_kept : s.images_completed ≡ r.images_completed
  dropped_counted :
      s.images_dropped ≡ (if r.collecting then r.images_dropped + 1 else r.images_dropped)

on_head-IsStarted :
    (sub : SubFrame) (r : Reassembler)
    → ((on_head sub r).0 ≡ none) × IsStarted sub r (on_head sub r).1
unfolding on_head
on_head-IsStarted sub r = (
  refl,
  record {
    collects = refl;
    is_whole = refl;
    is_group = refl;
    is_format = refl;
    no_chunks = refl;
    next = refl;
    completed_kept = ground arith;
    dropped_counted = ground arith;
  },
)

-- From any state, the sub-frames of one image give that image and nothing else; the parser is idle
-- afterwards, one more image is counted as completed, and an image that was in progress before is
-- counted as dropped.
pub run-sent_photo :
    (p : Photo) (r : Reassembler)
    → let result = run (map sub_of (sent_photo p)) r in
      (result.0 ≡ image_of p ∷ [])
      × (result.1.collecting ≡ false)
      × (result.1.images_completed ≡ r.images_completed + 1)
      × (result.1.images_dropped
          ≡ (if r.collecting then r.images_dropped + 1 else r.images_dropped))
unfolding run feed_subframe
run-sent_photo p r =
    let sub = sub_of (head p.group 0 p.format) in
    let s = (on_head sub r).1 in
    let (silent, started) = on_head-IsStarted sub r in
    let parts = ap (λ (cs : List Bytes). cs ++ p.parts) (sym started.no_chunks) in
    let after =
      run-rest_from p.parts p s started.collects started.is_whole started.is_group started.is_format
        parts in
    let result =
      subst (λ (k : ℕ). IsDelivered p s (run (map sub_of (rest_from p.group k p.parts)) s))
        started.next after in
    (
      rw silent result.delivered,
      result.idle,
      result.completed ∙ ap (λ (k : ℕ). k + 1) started.completed_kept,
      result.dropped ∙ started.dropped_counted,
    )

emit-append :
    (out : Option CompletedImage) (xs ys : List CompletedImage)
    → emit out (xs ++ ys) ≡ emit out xs ++ ys
emit-append none xs ys = refl
emit-append (some image) xs ys = refl

abbrev after :
    Option CompletedImage → List CompletedImage × Reassembler → List CompletedImage × Reassembler
after out result = (emit out result.0, result.1)

pub run-append :
    (subs more : List SubFrame) (r : Reassembler)
    → let (images, mid) = run subs r in
      let (later, last) = run more mid in run (subs ++ more) r ≡ (images ++ later, last)
unfolding run
run-append [] more r = refl
run-append (sub ∷ subs) more r =
    let (out, r') = feed_subframe sub r in
    let (images, mid) = run subs r' in
    let (later, last) = run more mid in
    ap (after out) (run-append subs more r')
    ∙ ap (λ (t : List CompletedImage). (t, last)) (emit-append out images later)

-- Photos sent one after the other come out one after the other, and none is counted as dropped.
pub run-sent_photos :
    (ps : List Photo) (r : Reassembler)
    → r.collecting ≡ false
    → let result = run (map sub_of (sent_photos ps)) r in
      (result.0 ≡ map image_of ps)
      × (result.1.collecting ≡ false)
      × (result.1.images_completed ≡ r.images_completed + length ps)
      × (result.1.images_dropped ≡ r.images_dropped)
run-sent_photos [] r h = unfold run in (refl, h, omega arith, refl)
run-sent_photos (p ∷ ps) r h =
    let first = run (map sub_of (sent_photo p)) r in
    let (images, idle, completed, dropped) = run-sent_photo p r in
    let (images', idle', completed', dropped') = run-sent_photos ps first.1 idle in
    let split =
      ap (λ (t : List SubFrame). run t r) (map-append sub_of (sent_photo p) (sent_photos ps))
      ∙ run-append (map sub_of (sent_photo p)) (map sub_of (sent_photos ps)) r in
    (
      ap (λ t. t.0) split ∙ cc (images, images'),
      ap (λ t. t.1.collecting) split ∙ idle',
      ap (λ t. t.1.images_completed) split ∙ omega (arith, completed, completed'),
      ap (λ t. t.1.images_dropped) split ∙ dropped' ∙ dropped ∙ rw h,
    )
