-- ===== src/Payload/Codes.antt =====
-- `IntEnum`: a class of named numbers, and the name of a number that may be outside the class.
pub mod Commands
pub mod Controls
pub mod Inputs
pub mod Captures
use edu_glasses_host.Base.{
  ℕ, ◌≡◌, refl, ap, sym, ◌∙◌, Bool, true, false, Bool-cases, inl, inr, Option, none, some,
  Option-cases, List, [], ◌∷◌, ◌==◌, if◌then◌else◌, arith,
}

module _ {E : Type 0} where
  -- `cls(value)`: the first member with that value; `ValueError` is `none`.
  abbrev pub find : (E → ℕ) → List E → ℕ → Option E
  find code [] value = none
  find code (e ∷ es) value = if code e == value then some e else find code es value

  pub find-some :
      (code : E → ℕ) (es : List E) (value : ℕ) (e : E)
      → find code es value ≡ some e
      → code e ≡ value
  find-some code [] value e h = cc
  find-some code (d ∷ es) value e h = elim (Bool-cases (code d == value)) [
    | inl same ↦ ground (arith, h, same)
    | inr other ↦ find-some code es value e (ground (arith, h, other))
  ]

-- Each member is found by its value.
pub record IntEnum (E : Type 0) : Type 0 where
  pub code : E → ℕ
  pub members : List E
  pub own : (e : E) → find code members (code e) ≡ some e

module _ {E : Type 0} ⦃k : IntEnum E⦄ where
  abbrev pub member : ℕ → Option E
  member = find k.code k.members

  pub member-some : (value : ℕ) (e : E) → member value ≡ some e → k.code e ≡ value
  member-some = find-some k.code k.members

-- What `enum_name` returns: the name of a member, or `UNKNOWN` with the number.
pub data Name (E : Type 0) : Type 0 where
  known : E → Name E
  unknown : ℕ → Name E

abbrev name_of : {E : Type 0} → Option E → ℕ → Name E
name_of none value = unknown value
name_of (some e) value = known e

module _ {E : Type 0} ⦃k : IntEnum E⦄ where
  unfoldable pub enum_name : ℕ → Name E
  enum_name value = name_of (member value) value

  abbrev pub number : Name E → ℕ
  number (known e) = k.code e
  number (unknown value) = value

module _ {E : Type 0} (k : IntEnum E) where
  pub enum_name-number : (value : ℕ) → number ⦃k = k⦄ (enum_name ⦃k = k⦄ value) ≡ value
  unfolding enum_name
  enum_name-number value = go (member ⦃k = k⦄ value) refl
    where
      go : (o : Option E) → member ⦃k = k⦄ value ≡ o → number ⦃k = k⦄ (name_of o value) ≡ value
      go none e = refl
      go (some m) e = member-some ⦃k = k⦄ value m e

  -- The name shows the number: numbers with the same name are the same, and each member's number
  -- has the member's name.
  pub enum_name_unique :
      (v w : ℕ) (e : E)
      → enum_name ⦃k = k⦄ v ≡ enum_name ⦃k = k⦄ w
      → (v ≡ w) × (enum_name ⦃k = k⦄ (k.code e) ≡ known e)
  unfolding enum_name
  enum_name_unique v w e same = (
    sym (enum_name-number v) ∙ ap (number ⦃k = k⦄) same ∙ enum_name-number w,
    ap (λ (o : Option E). name_of o (k.code e)) (k.own e),
  )
