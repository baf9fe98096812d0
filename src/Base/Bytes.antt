-- ===== src/Base/Bytes.antt =====
-- Byte strings, and the parts of Python's `struct` and `int.from_bytes` that the SDK uses.
use Prim.Native.Nat.{ℕ, zero, suc, ◌+◌, ◌-◌, ◌*◌, ◌/◌, ◌%◌, ◌^◌, ◌<◌, ◌≤◌}
use mathlib.Core.Path.{◌≡◌, refl, ap, ◌∙◌}
use mathlib.Core.List.{List, [], ◌∷◌, ◌++◌}
use native.Mathlib.Nat.{pow-suc}
use native.Mathlib.Omega.{arith}
use edu_glasses_host.Base.Lists.{
  length, get_or, take, drop, All, length-drop, take-append_left, drop-append_left,
}

abbrev pub Bytes : Type 0
Bytes = List ℕ

abbrev pub IsByte : ℕ → Type 0
IsByte b = b < 256

abbrev pub IsBytes : Bytes → Type 0
IsBytes = All IsByte

-- `buf[i]`, where the caller has checked that the index is in range.
abbrev pub byte_at : Bytes → ℕ → ℕ
byte_at xs i = get_or xs i 0

-- `buf[i:j]`
abbrev pub slice : Bytes → ℕ → ℕ → Bytes
slice xs i j = take (j - i) (drop i xs)

-- The little-endian number in the first `w` bytes.
unfoldable pub le : ℕ → Bytes → ℕ
le zero xs = 0
le (suc w) [] = 0
le (suc w) (b ∷ xs) = b + 256 * le w xs

-- `struct.unpack_from` of one unsigned field of `w` bytes at an offset in range.
abbrev pub le_at : ℕ → Bytes → ℕ → ℕ
le_at w xs i = le w (drop i xs)

-- `struct.pack` of one unsigned field of `w` bytes, for a value that fits.
unfoldable pub to_le : ℕ → ℕ → Bytes
to_le zero v = []
to_le (suc w) v = (v % 256) ∷ to_le w (v / 256)

pub length-to_le : (w v : ℕ) → length (to_le w v) ≡ w
unfolding to_le
length-to_le zero v = refl
length-to_le (suc w) v = omega (arith, length-to_le w (v / 256))

pub to_le-IsBytes : (w v : ℕ) → IsBytes (to_le w v)
unfolding to_le
to_le-IsBytes zero v = tt
to_le-IsBytes (suc w) v = (omega arith, to_le-IsBytes w (v / 256))

-- A field that fits its width is read back, whatever follows it.
pub le-to_le : (w v : ℕ) (rest : Bytes) → v < 256 ^ w → le w (to_le w v ++ rest) ≡ v
unfolding le to_le
le-to_le zero v rest h = omega arith
le-to_le (suc w) v rest h =
    let small : v / 256 < 256 ^ w = omega (arith, pow-suc 256 w) in
    omega (arith, le-to_le w (v / 256) rest small)

-- What an unsigned field of `w` bytes can hold.
pub le-lt : (w : ℕ) (xs : Bytes) → IsBytes xs → le w xs < 256 ^ w
unfolding le
le-lt zero xs h = omega arith
le-lt (suc w) [] h = omega (arith, pow-suc 256 w, le-lt w [] tt)
le-lt (suc w) (b ∷ xs) h = omega (arith, pow-suc 256 w, le-lt w xs h.1)

-- Reads within the first part of a buffer do not see what is appended.
pub slice-append_left :
    (xs ys : Bytes) (i j : ℕ) → i ≤ j → j ≤ length xs → slice (xs ++ ys) i j ≡ slice xs i j
slice-append_left xs ys i j h k =
    ap (take (j - i)) (drop-append_left xs ys i (omega arith))
    ∙ take-append_left (drop i xs) ys (j - i) (omega (arith, length-drop i xs))

pub le-append_left : (w : ℕ) (xs ys : Bytes) → w ≤ length xs → le w (xs ++ ys) ≡ le w xs
unfolding le
le-append_left zero xs ys h = refl
le-append_left (suc w) [] ys h = absurd (omega arith)
le-append_left (suc w) (b ∷ xs) ys h = omega (arith, le-append_left w xs ys (omega arith))

pub le_at-append_left :
    (w : ℕ) (xs ys : Bytes) (i : ℕ) → i + w ≤ length xs → le_at w (xs ++ ys) i ≡ le_at w xs i
le_at-append_left w xs ys i h =
    ap (le w) (drop-append_left xs ys i (omega arith))
    ∙ le-append_left w (drop i xs) ys (omega (arith, length-drop i xs))
