-- ===== src/Session/Triple.antt =====
-- What a method of the session does, as a condition before it, one after it returns, and one after
-- it raises.
use edu_glasses_host.Base.{◌≡◌, Bool, true, false, refl, if◌then◌else◌, Result, ok, err}
use edu_glasses_host.Session.State.{
  Session, Op, and_then, ◌>>=◌, return, get, modify, raise_if, given, handled, on_error,
}

abbrev pub Post :
    {E A : Type 0} → (A → Session → Type 0) → (Session → Type 0) → Result E A × Session → Type 0
Post Q R (ok a, s) = Q a s
Post Q R (err e, s) = R s

pub record Triple {E A : Type 0} (P : Session → Type 0) (m : Op E A) (Q : A → Session → Type 0)
    (R : Session → Type 0) : Type 0 where
  pub runs : (s : Session) → P s → Post Q R (m s)

module _ {E A B : Type 0} {P R : Session → Type 0} {Q : A → Session → Type 0}
    {T : B → Session → Type 0} where
  pub Triple-bind :
      {m : Op E A} {f : A → Op E B}
      → Triple P m Q R
      → ((a : A) → Triple (Q a) (f a) T R)
      → Triple P (m >>= f) T R
  Triple-bind {m} {f} h k = record { runs = λ s p. go (m s) (h.runs s p) }
    where
      go : (r : Result E A × Session) → Post Q R r → Post T R (and_then f r)
      go (ok a, s) q = (k a).runs s q
      go (err e, s) q = q

module _ {E : Type 0} {P R : Session → Type 0} where
  -- A test that raises lets its condition be used behind it.
  pub Triple-raise_if :
      (c : Bool) (e : E)
      → ((s : Session) → P s → R s)
      → Triple P (raise_if c e) (λ _ s. P s × (c ≡ false)) R
  Triple-raise_if c e h = record { runs = go c }
    where
      go : (c : Bool) (s : Session) → P s → Post (λ _ s. P s × (c ≡ false)) R (raise_if c e s)
      go true s p = h s p
      go false s p = (p, refl)

  pub Triple-guard :
      (c : Bool) (e : E)
      → ((s : Session) → P s → c ≡ true → R s)
      → Triple P (raise_if c e) (λ _ s. P s × (c ≡ false)) R
  Triple-guard c e h = record { runs = go c h }
    where
      go :
          (c : Bool)
          → ((s : Session) → P s → c ≡ true → R s)
          → (s : Session) → P s
          → Post (λ _ s. P s × (c ≡ false)) R (raise_if c e s)
      go true h s p = h s p refl
      go false h s p = (p, refl)

  pub Triple-modify :
      {Q : Session → Type 0} {f : Session → Session}
      → ((s : Session) → P s → Q (f s))
      → Triple P (modify {E = E} f) (λ _. Q) R
  Triple-modify h = record { runs = h }

module _ {E A : Type 0} {P R : Session → Type 0} {Q : A → Session → Type 0} where
  pub Triple-return : (a : A) → ((s : Session) → P s → Q a s) → Triple P (return {E = E} a) Q R
  Triple-return a h = record { runs = h }

  pub Triple-given :
      (r : Result E A)
      → ((a : A) (s : Session) → P s → r ≡ ok a → Q a s)
      → ((s : Session) → P s → R s)
      → Triple P (given r) Q R
  Triple-given r h k = record { runs = go r h }
    where
      go :
          (r : Result E A)
          → ((a : A) (s : Session) → P s → r ≡ ok a → Q a s)
          → (s : Session) → P s
          → Post Q R (given r s)
      go (ok a) h s p = h a s p refl
      go (err e) h s p = k s p

  pub Triple-either :
      (m k : Op E A) (c : Session → Bool)
      → Triple P m Q R
      → Triple P k Q R
      → Triple P (λ s. if c s then m s else k s) Q R
  Triple-either m k c h l = record { runs = λ s p. go (c s) s p }
    where
      go : (b : Bool) (s : Session) → P s → Post Q R (if b then m s else k s)
      go true s p = h.runs s p
      go false s p = l.runs s p

  -- A handler makes another condition of the one after the exception.
  pub Triple-on_error :
      {S : Session → Type 0} {m : Op E A} (f : E → Session → Session)
      → Triple P m Q S
      → ((e : E) (s : Session) → S s → R (f e s))
      → Triple P (on_error m f) Q R
  Triple-on_error {S} {m} f h k = record { runs = λ s p. go (m s) (h.runs s p) }
    where
      go : (r : Result E A × Session) → Post Q S r → Post Q R (handled f r)
      go (ok a, s) q = q
      go (err e, s) q = k e s q

  -- The condition before may say more, the one after less.
  pub Triple-weaken :
      {P' : Session → Type 0} {Q' : A → Session → Type 0} {m : Op E A}
      → ((s : Session) → P' s → P s)
      → Triple P m Q R
      → ((a : A) (s : Session) → Q a s → Q' a s)
      → Triple P' m Q' R
  Triple-weaken {P'} {Q'} {m} before h after = record {
    runs = λ s p. go (m s) (h.runs s (before s p));
  }
    where
      go : (r : Result E A × Session) → Post Q R r → Post Q' R r
      go (ok a, s) q = after a s q
      go (err e, s) q = q

module _ {E A : Type 0} {P R S : Session → Type 0} {Q : A → Session → Type 0} {m : Op E A} where
  pub Triple-raises : ((s : Session) → R s → S s) → Triple P m Q R → Triple P m Q S
  Triple-raises k h = record { runs = λ s p. go (m s) (h.runs s p) }
    where
      go : (r : Result E A × Session) → Post Q R r → Post Q S r
      go (ok a, s) q = q
      go (err e, s) q = k s q

module _ {E A : Type 0} {P R : Session → Type 0} where
  -- Where both conditions are one, it holds of the session after the call.
  pub Triple-after : {m : Op E A} (s : Session) → Triple P m (λ _. R) R → P s → R (m s).1
  Triple-after {m} s h p = go (m s) (h.runs s p)
    where
      go : (r : Result E A × Session) → Post (λ _. R) R r → R r.1
      go (ok a, t) q = q
      go (err e, t) q = q

module _ {E B : Type 0} {P R : Session → Type 0} {T : B → Session → Type 0} where
  -- What is read from the session is what it is.
  pub Triple-get :
      {f : Session → Op E B}
      → ((t : Session) → Triple (λ s. P s × (s ≡ t)) (f t) T R)
      → Triple P (get >>= f) T R
  Triple-get h = record { runs = λ s p. (h s).runs s (p, refl) }
