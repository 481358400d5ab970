-- ===== src/Common/Strings.antt =====
-- Python's `str` methods that the program calls: `lower`, `strip`, `startswith`, and `split` at the
-- first separator. A text is a native `String`; what is lowered is the list of its code points.
use Prim.Native.Nat.{ℕ, zero, suc, ◌+◌}
use Prim.Native.Char.{code}
use Prim.Native.String.{String}
use mathlib.Core.Path.{◌≡◌, refl}
use mathlib.Core.Bool.{Bool, true, false, ◌&&◌, ◌||◌}
use mathlib.Core.Option.{Option, none, some}
use mathlib.Core.List.{List, [], ◌∷◌, map}
use native.Mathlib.Omega.{arith}
use aurum_platform.Common.Tests.{if◌then◌else◌, leb, ◌==◌, ==-refl, eq_of_==}
pub use Prim.Native.String.{String}
pub use text.Mathlib.Text.{◌==◌ as str_eq}
pub use text.Mathlib.TextEquality.{eq_iff}
pub use text.Mathlib.TextPositions.{eq_refl}

-- `s + t`, which computes on a literal `s` beside a variable `t`.
infixr 65 ◌<>◌
abbrev pub ◌<>◌ : String → String → String
String.[] <> t = t
(String.◌∷◌ c s) <> t = String.◌∷◌ c (s <> t)

abbrev pub codes : String → List ℕ
codes String.[] = []
codes (String.◌∷◌ c s) = code c ∷ codes s

-- The Kelvin sign is the one character outside ASCII whose lower case is an ASCII letter. Other
-- characters outside ASCII are left alone, which no comparison with an ASCII word can tell.
unfoldable pub lower_code : ℕ → ℕ
lower_code c = if leb b'A' c && leb c b'Z' then c + 32 else if c == 0x212a then b'k' else c

-- The code points of `s.lower()`.
unfoldable pub lower : String → List ℕ
unfolding lower_code
lower s = map lower_code (codes s)

unfoldable pub same_codes : List ℕ → List ℕ → Bool
same_codes [] [] = true
same_codes (x ∷ xs) (y ∷ ys) = x == y && same_codes xs ys
same_codes _ _ = false

pub same_codes_refl : (xs : List ℕ) → same_codes xs xs ≡ true
unfolding same_codes
same_codes_refl [] = refl
same_codes_refl (x ∷ xs) = ground (arith, ==-refl x, same_codes_refl xs)

pub same_codes_eq : (xs ys : List ℕ) → same_codes xs ys ≡ true → xs ≡ ys
unfolding same_codes
same_codes_eq [] [] h = refl
same_codes_eq [] (y ∷ ys) h = ground arith
same_codes_eq (x ∷ xs) [] h = ground arith
same_codes_eq (x ∷ xs) (y ∷ ys) h = ground (arith, eq_of_== x y, same_codes_eq xs ys)

-- `xs.startswith(p)`
unfoldable pub starts_with_codes : List ℕ → List ℕ → Bool
starts_with_codes xs [] = true
starts_with_codes [] (p ∷ ps) = false
starts_with_codes (x ∷ xs) (p ∷ ps) = x == p && starts_with_codes xs ps

-- The characters that `str.strip` removes.
unfoldable pub is_space : ℕ → Bool
is_space c =
    leb 9 c && leb c 13
    || leb 28 c && leb c 32
    || c == 133
    || c == 160
    || c == 0x1680
    || leb 0x2000 c && leb c 0x200a
    || leb 0x2028 c && leb c 0x2029
    || c == 0x202f
    || c == 0x205f
    || c == 0x3000

unfoldable pub strip_left : String → String
unfolding is_space
strip_left String.[] = ""
strip_left (String.◌∷◌ c s) =
    let rest = strip_left s in if is_space (code c) then rest else String.◌∷◌ c s

unfoldable pub strip_right : String → String
unfolding is_space
strip_right String.[] = ""
strip_right (String.◌∷◌ c s) =
    let rest = strip_right s in
    if is_space (code c) && str_eq rest "" then "" else String.◌∷◌ c rest

-- `s.strip()`
unfoldable pub strip : String → String
unfolding strip_left strip_right
strip s = strip_right (strip_left s)

-- `s.split(sep, 1)[0]` and, where `sep` occurs, `s.split(sep, 1)[1]`, for a separator of one
-- character.
unfoldable pub before : ℕ → String → String
before sep String.[] = ""
before sep (String.◌∷◌ c s) =
    let rest = before sep s in if code c == sep then "" else String.◌∷◌ c rest

unfoldable pub after : ℕ → String → String
after sep String.[] = ""
after sep (String.◌∷◌ c s) = let rest = after sep s in if code c == sep then s else rest

-- `if not s` for a text, and for a text or `None`
unfoldable pub is_empty : String → Bool
is_empty s = str_eq s ""

unfoldable pub is_blank : Option String → Bool
unfolding is_empty
is_blank none = true
is_blank (some s) = is_empty s

-- `a or b` on texts that may be `None`
unfoldable pub or_text : Option String → Option String → Option String
unfolding is_blank
or_text a b = if is_blank a then b else a

-- `s[:n]`
unfoldable pub clip : ℕ → String → String
clip zero s = ""
clip (suc n) String.[] = ""
clip (suc n) (String.◌∷◌ c s) = String.◌∷◌ c (clip n s)

-- `a or b` for a text or `None`, and a text
unfoldable pub text_or : Option String → String → String
unfolding is_empty
text_or none b = b
text_or (some s) b = if is_empty s then b else s
