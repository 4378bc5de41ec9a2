-- ===== src/Base/Text.antt =====
-- Go's `strings.TrimSpace` on valid UTF-8 text, which is what `String` holds.
use Prim.Native.Char.{Char, code}
use Prim.Native.Nat.{ℕ, zero, suc}
use Prim.Native.String.{String}
use mathlib.Core.Path.{◌≡◌, refl}
use mathlib.Core.Bool.{Bool, true, false, ◌&&◌, ◌||◌}
use gantry_core.Base.Tests.{leb, ◌==◌, if◌then◌else◌}

-- `unicode.IsSpace`.
unfoldable pub is_space : ℕ → Bool
is_space c =
    leb 0x09 c && leb c 0x0d
    || c == 0x20
    || c == 0x85
    || c == 0xa0
    || c == 0x1680
    || leb 0x2000 c && leb c 0x200a
    || c == 0x2028
    || c == 0x2029
    || c == 0x202f
    || c == 0x205f
    || c == 0x3000

unfoldable pub trim_left : String → String
trim_left String.[] = ""
trim_left (String.◌∷◌ c s) =
    let rest = trim_left s in if is_space (code c) then rest else String.◌∷◌ c s

-- Keeps a character if something kept follows, or if it is no space.
unfoldable pub keep_right : Char → String → String
keep_right c String.[] = if is_space (code c) then "" else String.◌∷◌ c ""
keep_right c (String.◌∷◌ d s) = String.◌∷◌ c (String.◌∷◌ d s)

unfoldable pub trim_right : String → String
unfolding keep_right
trim_right String.[] = ""
trim_right (String.◌∷◌ c s) = keep_right c (trim_right s)

unfoldable pub trim_space : String → String
unfolding trim_left trim_right is_space
trim_space s = trim_left (trim_right s)

-- The text without its first characters.
unfoldable pub drop_chars : ℕ → String → String
drop_chars zero s = s
drop_chars (suc n) String.[] = ""
drop_chars (suc n) (String.◌∷◌ c s) = drop_chars n s

-- `strings.Cut` at a character: what is before it, what is after it, and whether it is there.
unfoldable pub cut_at : ℕ → String → String × String × Bool
cut_at sep String.[] = ("", "", false)
cut_at sep (String.◌∷◌ c s) =
    let (front, back, found) = cut_at sep s in
    if code c == sep then ("", s, true) else (String.◌∷◌ c front, back, found)

-- `strings.TrimRight(s, "/")`
unfoldable pub keep_path : Char → String → String
keep_path c String.[] = if code c == 0x2f then "" else String.◌∷◌ c ""
keep_path c (String.◌∷◌ d s) = String.◌∷◌ c (String.◌∷◌ d s)

unfoldable pub trim_slashes : String → String
unfolding keep_path
trim_slashes String.[] = ""
trim_slashes (String.◌∷◌ c s) = keep_path c (trim_slashes s)

trim_space_test : trim_space " \t a b  " ≡ "a b"
unfolding trim_space
trim_space_test = refl
