-- ===== src/Session/Yields.antt =====
-- What a method returns or raises, whatever the session.
use edu_glasses_host.Base.{◌≡◌, refl, Bool, true, false, if◌then◌else◌, Result, ok, err}
use edu_glasses_host.Session.State.{
  Session, Op, and_then, ◌>>=◌, ◌>>◌, return, raise, get, modify, raise_if, given, lift, map_err,
}

abbrev pub By : {E A : Type 0} → (A → Type 0) → (E → Type 0) → Result E A → Type 0
By P R (ok a) = P a
By P R (err e) = R e

pub record Yields {E A : Type 0} (m : Op E A) (P : A → Type 0) (R : E → Type 0) : Type 0 where
  pub yields : (s : Session) → By P R (m s).0

module _ {E A B : Type 0} {R : E → Type 0} {P : A → Type 0} {Q : B → Type 0} where
  pub Yields-bind :
      {m : Op E A} {f : A → Op E B}
      → Yields m P R
      → ((a : A) → P a → Yields (f a) Q R)
      → Yields (m >>= f) Q R
  Yields-bind {m} {f} h k = record { yields = λ s. go (m s) (h.yields s) }
    where
      go : (r : Result E A × Session) → By P R r.0 → By Q R (and_then f r).0
      go (ok a, s) p = (k a p).yields s
      go (err e, s) p = p

module _ {E A : Type 0} {R : E → Type 0} {P : A → Type 0} where
  pub Yields-return : (a : A) → P a → Yields (return a) P R
  Yields-return a p = record { yields = λ s. p }

  pub Yields-raise : (e : E) → R e → Yields (raise e) P R
  Yields-raise e r = record { yields = λ s. r }

  pub Yields-given :
      (r : Result E A) → ((a : A) → r ≡ ok a → P a) → ((e : E) → R e) → Yields (given r) P R
  Yields-given (ok a) h k = record { yields = λ s. h a refl }
  Yields-given (err e) h k = record { yields = λ s. k e }

  pub Yields-if :
      (c : Bool) {m k : Op E A}
      → (c ≡ true → Yields m P R)
      → (c ≡ false → Yields k P R)
      → Yields (if c then m else k) P R
  Yields-if true h k = h refl
  Yields-if false h k = k refl

module _ {E : Type 0} {R : E → Type 0} where
  pub Yields-raise_if : (c : Bool) (e : E) → R e → Yields (raise_if c e) (λ _. c ≡ false) R
  Yields-raise_if true e r = record { yields = λ s. r }
  Yields-raise_if false e r = record { yields = λ s. refl }

module _ {E B : Type 0} {R : E → Type 0} {Q : B → Type 0} where
  pub Yields-get :
      {f : Session → Op E B} → ((t : Session) → Yields (f t) Q R) → Yields (get >>= f) Q R
  Yields-get h = record { yields = λ s. (h s).yields s }

  pub Yields-modify :
      {g : Session → Session} {m : Op E B} → Yields m Q R → Yields (modify g >> m) Q R
  Yields-modify {g} h = record { yields = λ s. h.yields (g s) }

module _ {E : Type 0} {R : E → Type 0} {P : Unit {0} → Type 0} where
  pub Yields-test : (c : Bool) (e : E) → R e → (c ≡ false → P tt) → Yields (raise_if c e) P R
  Yields-test true e r h = record { yields = λ s. r }
  Yields-test false e r h = record { yields = λ s. h refl }

-- A method of which nothing is known, with exceptions of which nothing is asked.
pub Yields-lift :
    {E F A : Type 0} (f : E → F) (m : Op E A) (R : F → Type 0)
    → ((e : E) → R (f e))
    → Yields (lift f m) (λ _. Unit {0}) R
Yields-lift {E} {A} f m R h = record { yields = λ s. go (m s).0 }
  where
    go : (r : Result E A) → By (λ _. Unit {0}) R (map_err f r)
    go (ok a) = tt
    go (err e) = h e
