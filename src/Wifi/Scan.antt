-- ===== src/Wifi/Scan.antt =====
-- What `scan` returns, as a relation with no loop.
use edu_glasses_host.Base.{
  ℕ, zero, suc, ◌≤◌, ◌<◌, ◌≡◌, refl, ap, sym, subst, ◌∙◌, Option, true, false, List, [], ◌∷◌, ◌++◌,
  append_assoc, Result, ok, err, ◌⊎◌, inl, inr, ◌↔◌, arith,
}
use edu_glasses_host.Base.Bytes.{Bytes, to_le}
use edu_glasses_host.Session.{SessionError, require, request}
use edu_glasses_host.Client.{Response}
use edu_glasses_host.Session.State.{Session, Op, and_then, ◌>>=◌, ◌>>◌, raise, map_err, given}
use edu_glasses_host.Wifi.Codes.{WifiOperation}
use edu_glasses_host.Wifi.Reply.{
  WifiError, from_session, Outcome, got_page, read_outcome, cursor_stuck, scan_timed_out,
  WifiNetwork, WifiScanPage,
}
use edu_glasses_host.Wifi.{
  cap_wifi, as_page, in_session, execute, by_page, scan_loop, pause, scan, get_page,
}

-- `Listed k offset s networks t`: from the offset on and after `k` pauses the pages list the
-- networks, where `page_at offset s page t` says that the page is what the device answers. A page
-- that is not complete is asked for again; the offset of the next is larger.
module _ {Text : Type 0} (page_at : ℕ → Session → WifiScanPage Text → Session → Type 0) where
  pub data Listed : ℕ → ℕ → Session → List (WifiNetwork Text) → Session → Type 0 where
    ends :
        {offset : ℕ} {s t : Session} {page : WifiScanPage Text}
        → page_at offset s page t
        → page.complete ≡ true
        → page.has_more ≡ false
        → Listed 0 offset s page.networks t
    continues :
        {k offset : ℕ} {s s' u t : Session} {page : WifiScanPage Text}
        {networks : List (WifiNetwork Text)}
        → page_at offset s page s'
        → page.complete ≡ true
        → page.has_more ≡ true
        → offset < page.next_offset
        → pause s' ≡ (ok tt, u)
        → Listed k page.next_offset u networks t
        → Listed (suc k) offset s (page.networks ++ networks) t
    repeats :
        {k offset : ℕ} {s s' u t : Session} {page : WifiScanPage Text}
        {networks : List (WifiNetwork Text)}
        → page_at offset s page s'
        → page.complete ≡ false
        → pause s' ≡ (ok tt, u)
        → Listed k offset u networks t
        → Listed (suc k) offset s networks t

Listed-map :
    {Text : Type 0} {at to : ℕ → Session → WifiScanPage Text → Session → Type 0} {k offset : ℕ}
    {s t : Session} {networks : List (WifiNetwork Text)}
    → ((o : ℕ) (a : Session) (page : WifiScanPage Text) (b : Session)
        → at o a page b
        → to o a page b)
    → Listed at k offset s networks t
    → Listed to k offset s networks t
Listed-map f (ends e c m) = ends (f _ _ _ _ e) c m
Listed-map f (continues e c m l p r) = continues (f _ _ _ _ e) c m l p (Listed-map f r)
Listed-map f (repeats e c p r) = repeats (f _ _ _ _ e) c p (Listed-map f r)

-- A chain that returns is two calls that return.
bind-returns :
    {E A B : Type 0} (m : Op E A) (f : A → Op E B) (s : Session) {b : B} {t : Session}
    → (m >>= f) s ≡ (ok b, t)
    → (a : A) × (u : Session) × (m s ≡ (ok a, u)) × (f a u ≡ (ok b, t))
bind-returns {E} {A} {B} m f s {b} {t} h = go (m s) h refl
  where
    go :
        (r : Result E A × Session)
        → and_then f r ≡ (ok b, t)
        → m s ≡ r
        → (a : A) × (u : Session) × (m s ≡ (ok a, u)) × (f a u ≡ (ok b, t))
    go (ok a, u) e k = (a, u, k, e)
    go (err x, u) e k = absurd (cc e)

bind-ok :
    {E A B : Type 0} (m : Op E A) (f : A → Op E B) (s : Session) {a : A} {u : Session}
    → m s ≡ (ok a, u)
    → (m >>= f) s ≡ f a u
bind-ok m f s e = ap (and_then f) e

in_session-ok :
    {A : Type 0} (m : Op SessionError A) (s : Session) {a : A} {t : Session}
    → m s ≡ (ok a, t)
    → in_session m s ≡ (ok a, t)
in_session-ok {A} m s e =
    ap (λ (r : Result SessionError A × Session). (map_err from_session r.0, r.1)) e

given-returns :
    {E A : Type 0} (r : Result E A) (s : Session) {a : A} {t : Session}
    → given r s ≡ (ok a, t)
    → (r ≡ ok a) × (s ≡ t)
given-returns (ok x) s h = (ap (λ r. r.0) h, ap (λ r. r.1) h)
given-returns (err x) s h = absurd (cc h)

in_session-returns :
    {A : Type 0} (m : Op SessionError A) (s : Session) {a : A} {t : Session}
    → in_session m s ≡ (ok a, t)
    → m s ≡ (ok a, t)
in_session-returns {A} m s {a} {t} h = go (m s) h
  where
    go :
        (r : Result SessionError A × Session)
        → ◌≡◌ {A = Result WifiError A × Session} (map_err from_session r.0, r.1) (ok a, t)
        → r ≡ (ok a, t)
    go (ok x, u) e = cc e
    go (err x, u) e = absurd (cc e)

as_page-returns :
    {Text : Type 0} (o : Outcome Text) (page : WifiScanPage Text)
    → as_page o ≡ ok page
    → o ≡ got_page page
as_page-returns o page h = ground (arith, h)

-- The device's answer to a request for the page from an offset on: WIFI_EXECUTE (0x20) with the
-- operation 3 and the offset in four bytes, on a session that has the capability, is answered with
-- bytes that are a page.
module _ {Text : Type 0} (utf8 : Bytes → Option Text) where
  pub record PageAt (offset : ℕ) (s : Session) (page : WifiScanPage Text) (t : Session)
      : Type 0 where
    pub ready : Session
    pub answer : Response
    pub allowed : require cap_wifi true s ≡ (ok tt, ready)
    pub answered : request 0x20 (3 ∷ to_le 4 offset) ready ≡ (ok answer, t)
    pub is_page : read_outcome utf8 WifiOperation.scan answer.content ≡ ok (got_page page)

  get_page-PageAt :
      (offset : ℕ) (s : Session) (page : WifiScanPage Text) (t : Session)
      → get_page utf8 offset s ≡ (ok page, t)
      → PageAt offset s page t
  unfolding get_page execute
  get_page-PageAt offset s page t h =
      let (outcome, u, executed, paged) =
        bind-returns (execute utf8 WifiOperation.scan (to_le 4 offset)) _ s h in
      let (done, ready, allowed, asked) =
        bind-returns (in_session (require cap_wifi true)) _ s executed in
      let (answer, v, answered, read) =
        bind-returns (in_session (request 0x20 (3 ∷ to_le 4 offset))) _ ready asked in
      let (is_outcome, same) =
        given-returns (read_outcome utf8 WifiOperation.scan answer.content) v read in
      let (is_page, end) = given-returns (as_page outcome) u paged in
      record {
        ready = ready;
        answer = answer;
        allowed = in_session-returns (require cap_wifi true) s allowed;
        answered =
            in_session-returns (request 0x20 (3 ∷ to_le 4 offset)) ready answered
            ∙ ap (λ (x : Session). (ok answer, x)) (same ∙ end);
        is_page = is_outcome ∙ ap (λ o. ok o) (as_page-returns outcome page is_page);
      }

  PageAt-get_page :
      (offset : ℕ) (s : Session) (page : WifiScanPage Text) (t : Session)
      → PageAt offset s page t
      → get_page utf8 offset s ≡ (ok page, t)
  unfolding get_page execute
  PageAt-get_page offset s page t p =
      let executed : execute utf8 WifiOperation.scan (to_le 4 offset) s ≡ (ok (got_page page), t) =
        bind-ok (in_session (require cap_wifi true)) _ s
          (in_session-ok (require cap_wifi true) s p.allowed)
        ∙ bind-ok (in_session (request 0x20 (3 ∷ to_le 4 offset))) _ p.ready
            (in_session-ok (request 0x20 (3 ∷ to_le 4 offset)) p.ready p.answered)
        ∙ ap (λ r. given r t) p.is_page in
      bind-ok (execute utf8 WifiOperation.scan (to_le 4 offset)) _ s executed

-- The four ways of a pass.
by_page-cases :
    {Text : Type 0} (offset : ℕ) (found : List (WifiNetwork Text)) (page : WifiScanPage Text)
    (again : ℕ → List (WifiNetwork Text) → Op WifiError (List (WifiNetwork Text))) (s : Session)
    → ((page.complete ≡ false) × (by_page offset found page again s ≡ again offset found s))
      ⊎ (((page.complete ≡ true)
            × ((page.has_more ≡ false)
                × (by_page offset found page again s ≡ (ok (found ++ page.networks), s))))
          ⊎ (((page.complete ≡ true)
                × ((page.has_more ≡ true)
                    × ((offset < page.next_offset)
                        × (by_page offset found page again s
                            ≡ again page.next_offset (found ++ page.networks) s))))
              ⊎ (by_page offset found page again s ≡ (err cursor_stuck, s))))
by_page-cases offset found page again s = ground arith

module _ {Text : Type 0} (fetch : ℕ → Op WifiError (WifiScanPage Text)) where
  -- The page that `fetch` returns.
  abbrev pub Fetched : ℕ → Session → WifiScanPage Text → Session → Type 0
  Fetched offset s page t = fetch offset s ≡ (ok page, t)

  -- What follows a pass with `n` passes left.
  abbrev later : ℕ → ℕ → List (WifiNetwork Text) → Op WifiError (List (WifiNetwork Text))
  later zero offset found = raise scan_timed_out
  later (suc n) offset found = pause >> scan_loop fetch n offset found

  abbrev pass :
      ℕ → ℕ → List (WifiNetwork Text) → WifiScanPage Text → Op WifiError (List (WifiNetwork Text))
  pass n offset found page = by_page offset found page (later n)

  scan_loop-pass :
      (n offset : ℕ) (found : List (WifiNetwork Text)) (s : Session)
      → scan_loop fetch n offset found s ≡ and_then (pass n offset found) (fetch offset s)
  unfolding scan_loop
  scan_loop-pass zero offset found s = refl
  scan_loop-pass (suc n) offset found s = refl

  -- A pass that got its page, which is followed by a pause and the loop from elsewhere.
  goes_on :
      (n next : ℕ) (found more : List (WifiNetwork Text)) {offset : ℕ} {page : WifiScanPage Text}
      {s s' u : Session}
      → fetch offset s ≡ (ok page, s')
      → by_page offset found page (later (suc n)) s' ≡ later (suc n) next more s'
      → pause s' ≡ (ok tt, u)
      → scan_loop fetch (suc n) offset found s ≡ scan_loop fetch n next more u
  goes_on n next found more {offset} {s} e way p =
      scan_loop-pass (suc n) offset found s
      ∙ ap (and_then (pass (suc n) offset found)) e
      ∙ way
      ∙ ap (and_then (λ _. scan_loop fetch n next more)) p

  Listed-scan_loop :
      {k offset : ℕ} {s t : Session} {networks : List (WifiNetwork Text)} (n : ℕ)
      (found : List (WifiNetwork Text))
      → Listed Fetched k offset s networks t
      → k ≤ n
      → scan_loop fetch n offset found s ≡ (ok (found ++ networks), t)
  Listed-scan_loop {offset} {s} {t} n found (ends {page} e c m) h =
      scan_loop-pass n offset found s ∙ ap (and_then (pass n offset found)) e ∙ ground (arith, c, m)
  Listed-scan_loop zero found (continues e c m l p r) h = absurd (omega arith)
  Listed-scan_loop {offset} {t} (suc n) found (continues {page} {networks = rest} e c m l p r) h =
      goes_on n page.next_offset found (found ++ page.networks) e (ground (arith, c, m, l)) p
      ∙ Listed-scan_loop n (found ++ page.networks) r (omega arith)
      ∙ ap (λ ns. (ok ns, t)) (append_assoc found page.networks rest)
  Listed-scan_loop zero found (repeats e c p r) h = absurd (omega arith)
  Listed-scan_loop {offset} (suc n) found (repeats e c p r) h =
      goes_on n offset found found e (ground (arith, c)) p
      ∙ Listed-scan_loop n found r (omega arith)

  -- Some listing within `n` pauses.
  abbrev Lists :
      ℕ → ℕ → List (WifiNetwork Text) → Session → List (WifiNetwork Text) → Session → Type 0
  Lists n offset found s all t =
      (k : ℕ) × (networks : List (WifiNetwork Text)) × ((k ≤ n) × (all ≡ found ++ networks))
      × Listed Fetched k offset s networks t

  -- The same behind a pause.
  abbrev After :
      ℕ → ℕ → List (WifiNetwork Text) → Session → List (WifiNetwork Text) → Session → Type 0
  After n next more s all t =
      (u : Session) × (k : ℕ) × (networks : List (WifiNetwork Text)) × (((suc k ≤ n)
          × (all ≡ more ++ networks))
        × ((pause s ≡ (ok tt, u)) × Listed Fetched k next u networks t))

  abbrev Resumes : ℕ → Type 0
  Resumes n =
      (next : ℕ) (more : List (WifiNetwork Text)) (s : Session) (all : List (WifiNetwork Text))
      (t : Session)
      → later n next more s ≡ (ok all, t)
      → After n next more s all t

  zero_le : (n : ℕ) → 0 ≤ n
  zero_le n = omega arith

  pass-Lists :
      (n : ℕ)
      → Resumes n
      → (offset : ℕ) (found : List (WifiNetwork Text)) (s : Session) (all : List (WifiNetwork Text))
        (t : Session) (r : Result WifiError (WifiScanPage Text) × Session)
      → fetch offset s ≡ r
      → and_then (pass n offset found) r ≡ (ok all, t)
      → Lists n offset found s all t
  pass-Lists n ih offset found s all t (err x, s') e h = absurd (cc h)
  pass-Lists n ih offset found s all t (ok page, s') e h =
      elim (by_page-cases offset found page (later n) s') [
        | inl again ↦
            let (u, k, networks, ((small, same), (p, r))) =
              ih offset found s' all t (sym again.1 ∙ h) in
            (suc k, networks, (small, same), repeats e again.0 p r)
        | inr (inl last) ↦
            let both : (ok (found ++ page.networks), s') ≡ (ok all, t) = sym (last.1.1) ∙ h in
            let whole : all ≡ found ++ page.networks = cc both in
            let end : s' ≡ t = ap (λ r. r.1) both in
            (
              0,
              page.networks,
              (zero_le n, whole),
              ends (e ∙ ap (λ (x : Session). (ok page, x)) end) last.0 last.1.0,
            )
        | inr (inr (inl more)) ↦
            let (u, k, networks, ((small, same), (p, r))) =
              ih page.next_offset (found ++ page.networks) s' all t (sym (more.1.1.1) ∙ h) in
            (
              suc k,
              page.networks ++ networks,
              (small, same ∙ append_assoc found page.networks networks),
              continues e more.0 more.1.0 more.1.1.0 p r,
            )
        | inr (inr (inr stuck)) ↦ absurd (cc (stuck, h))
      ]

  pause-After :
      (n next : ℕ) (more : List (WifiNetwork Text)) (s : Session) (all : List (WifiNetwork Text))
      (t : Session) (r : Result WifiError (Unit {0}) × Session)
      → Resumes n
      → pause s ≡ r
      → and_then (λ _. scan_loop fetch n next more) r ≡ (ok all, t)
      → After (suc n) next more s all t
  pause-After n next more s all t (err x, u) ih e h = absurd (cc h)
  pause-After n next more s all t (ok v, u) ih e h =
      let (k, networks, (small, same), r) =
        pass-Lists n ih next more u all t (fetch next u) refl
          (sym (scan_loop-pass n next more u) ∙ h) in
      (u, k, networks, ((omega (arith, small), same), (e, r)))

  later-Resumes : (n : ℕ) → Resumes n
  later-Resumes zero next more s all t h = absurd (cc h)
  later-Resumes (suc n) next more s all t h =
      pause-After n next more s all t (pause s) (later-Resumes n) refl h

  scan_loop-Lists :
      (n offset : ℕ) (found : List (WifiNetwork Text)) (s : Session) (all : List (WifiNetwork Text))
      (t : Session)
      → scan_loop fetch n offset found s ≡ (ok all, t)
      → Lists n offset found s all t
  scan_loop-Lists n offset found s all t h =
      pass-Lists n (later-Resumes n) offset found s all t (fetch offset s) refl
        (sym (scan_loop-pass n offset found s) ∙ h)

-- A scan with a deadline of `n` pauses returns a list exactly where the pages, as the device answers
-- the requests from offset 0 on, list it within `n` pauses: incomplete pages asked for again, the
-- networks of the complete ones in order, each offset larger than the one before, until a page has
-- no more.
pub scan_iff :
    {Text : Type 0} (utf8 : Bytes → Option Text) (n : ℕ) (s t : Session)
    (all : List (WifiNetwork Text))
    → (scan utf8 n s ≡ (ok all, t)) ↔ ((k : ℕ) × (k ≤ n) × Listed (PageAt utf8) k 0 s all t)
unfolding scan
scan_iff utf8 n s t all = (
  λ h.
      let (k, networks, (small, same), r) = scan_loop-Lists (get_page utf8) n 0 [] s all t h in
      let listed = Listed-map (get_page-PageAt utf8) r in
      (k, small, subst (λ ns. Listed (PageAt utf8) k 0 s ns t) (sym same) listed),
  λ (k, small, r).
      Listed-scan_loop (get_page utf8) n [] (Listed-map (PageAt-get_page utf8) r) small,
)
