-- ===== src/Base/Pattern.antt =====
-- Go's `regexp.MatchString` for an anchored expression, as the automaton that reads the text once.
use Prim.Native.Char.{code}
use Prim.Native.Nat.{ℕ}
use Prim.Native.String.{String}
use mathlib.Core.Bool.{Bool, true, false, ◌&&◌, ◌||◌}
use gantry_core.Base.Tests.{leb, ◌==◌, if◌then◌else◌}

-- Where a match stands: `inside` and `dotted` are the ends it may have.
pub data Match : Type 0 where
  start inside after_dot dotted refused : Match

unfoldable pub scan : (Match → ℕ → Match) → Match → String → Match
scan step m String.[] = m
scan step m (String.◌∷◌ c s) = scan step (step m (code c)) s

abbrev pub is_lower : ℕ → Bool
is_lower c = leb 0x61 c && leb c 0x7a

abbrev pub is_digit : ℕ → Bool
is_digit c = leb 0x30 c && leb c 0x39

-- `[a-z0-9-]`
abbrev pub is_word : ℕ → Bool
is_word c = is_lower c || is_digit c || c == 0x2d

unfoldable pub word_step : Match → ℕ → Match
word_step start c = if is_lower c then inside else refused
word_step inside c = if is_word c then inside else refused
word_step _ c = refused

unfoldable pub id_step : Match → ℕ → Match
id_step start c = if is_lower c then inside else refused
id_step inside c = if c == 0x2e then after_dot else if is_word c then inside else refused
id_step after_dot c = if is_lower c then dotted else refused
id_step dotted c = if c == 0x2e then after_dot else if is_word c then dotted else refused
id_step refused c = refused

unfoldable pub scope_step : Match → ℕ → Match
scope_step start c = if is_lower c then inside else refused
scope_step inside c =
    if c == 0x3a then start else if is_word c || c == 0x2e then inside else refused
scope_step _ c = refused

abbrev pub is_inside : Match → Bool
is_inside inside = true
is_inside _ = false

abbrev pub is_dotted : Match → Bool
is_dotted dotted = true
is_dotted _ = false
