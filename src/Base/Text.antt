-- ===== src/Base/Text.antt =====
-- The operations of Go's package `strings` that the program uses, on texts of Unicode characters.
-- Letter case is that of ASCII, with the characters outside it that have an ASCII letter for their
-- lower case (the Kelvin sign and U+0130) or fold into one (the Kelvin sign and the long s). The driver
-- names, markers and hosts that the program compares with are ASCII.
use Prim.Native.Nat.{ℕ}
use Prim.Native.Char.{Char, code}
use Prim.Native.String.{String}
use mathlib.Core.Path.{◌≡◌, refl, ap}
use mathlib.Core.Bool.{Bool, true, false, ◌&&◌, ◌||◌}
use native.Mathlib.Omega.{arith}
pub use text.Mathlib.Text.{◌==◌}
pub use text.Mathlib.TextEquality.{eq_iff}
pub use text.Mathlib.TextPositions.{eq_refl}
pub use Prim.Native.String.{◌++◌ as ◌+++◌}
use mime_crypt.Base.Tests.{leb, nat_eq, if◌then◌else◌}

-- unicode.IsSpace
unfoldable pub is_space : ℕ → Bool
is_space c =
    (leb 9 c && leb c 13)
    || nat_eq c 32
    || nat_eq c 0x85
    || nat_eq c 0xa0
    || nat_eq c 0x1680
    || (leb 0x2000 c && leb c 0x200a)
    || nat_eq c 0x2028
    || nat_eq c 0x2029
    || nat_eq c 0x202f
    || nat_eq c 0x205f
    || nat_eq c 0x3000

unfoldable pub is_empty : String → Bool
is_empty String.[] = true
is_empty (String.◌∷◌ c s) = false

-- strings.TrimSpace, from the left and from the right
unfoldable pub trim_left : String → String
trim_left String.[] = String.[]
trim_left (String.◌∷◌ c s) = if is_space (code c) then trim_left s else String.◌∷◌ c s

unfoldable pub trim_right : String → String
trim_right String.[] = String.[]
trim_right (String.◌∷◌ c s) =
    let rest = trim_right s in
    if is_empty rest && is_space (code c) then String.[] else String.◌∷◌ c rest

unfoldable pub trim_space : String → String
unfolding trim_left trim_right is_empty is_space
trim_space s = trim_left (trim_right s)

-- strings.TrimSpace(s) == ""
unfoldable pub is_blank : String → Bool
unfolding trim_space
is_blank s = is_empty (trim_space s)

replace_char : Char → String → String → Char
replace_char c (String.◌∷◌ u us) (String.◌∷◌ l ls) =
    if nat_eq (code c) (code u) then l else replace_char c us ls
replace_char c _ _ = c

map_chars : String → String → String → String
map_chars us ls String.[] = String.[]
map_chars us ls (String.◌∷◌ c s) = String.◌∷◌ (replace_char c us ls) (map_chars us ls s)

-- strings.ToLower; outside ASCII, the Kelvin sign and U+0130 become the ASCII letters k and i.
unfoldable pub to_lower : String → String
unfolding map_chars replace_char
to_lower = map_chars "ABCDEFGHIJKLMNOPQRSTUVWXYZKİ" "abcdefghijklmnopqrstuvwxyzki"

-- strings.EqualFold
unfoldable pub equal_fold : String → String → Bool
unfolding to_lower
equal_fold s t =
    map_chars "ABCDEFGHIJKLMNOPQRSTUVWXYZKſ" "abcdefghijklmnopqrstuvwxyzks" s
    == map_chars "ABCDEFGHIJKLMNOPQRSTUVWXYZKſ" "abcdefghijklmnopqrstuvwxyzks" t

trim_left-trim_left : (s : String) → trim_left (trim_left s) ≡ trim_left s
unfolding trim_left
trim_left-trim_left String.[] = refl
trim_left-trim_left (String.◌∷◌ c s) = ground (arith, trim_left-trim_left s)

trim_right-trim_right : (s : String) → trim_right (trim_right s) ≡ trim_right s
unfolding trim_right is_empty
trim_right-trim_right String.[] = refl
trim_right-trim_right (String.◌∷◌ c s) = ground (arith, trim_right-trim_right s)

is_empty-eq : (s : String) → is_empty s ≡ true → s ≡ String.[]
unfolding is_empty
is_empty-eq String.[] h = refl
is_empty-eq (String.◌∷◌ c s) h = cc

trim_right-trim_left : (s : String) → trim_right (trim_left s) ≡ trim_left (trim_right s)
unfolding trim_left trim_right is_empty
trim_right-trim_left String.[] = refl
trim_right-trim_left (String.◌∷◌ c s) =
    ground (arith, trim_right-trim_left s, is_empty-eq (trim_right s))

-- Trimming a trimmed text changes nothing.
pub trim_space-trim_space : (s : String) → trim_space (trim_space s) ≡ trim_space s
trim_space-trim_space s =
    unfold trim_space in
    cc (
      trim_right-trim_left (trim_right s),
      trim_right-trim_right s,
      trim_left-trim_left (trim_right s),
    )

pub is_blank-trim_space : (s : String) → is_blank (trim_space s) ≡ is_blank s
unfolding is_blank
is_blank-trim_space s = ap is_empty (trim_space-trim_space s)
