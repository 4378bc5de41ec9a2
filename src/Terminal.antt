-- ===== src/Terminal.antt =====
-- Metadata and scrollback of terminal sessions (terminal/terminal.go). The scrollback is the list of
-- its bytes, and `strings.ToValidUTF8` on bytes is a parameter.
pub mod Scrollback
mod Tests
use gantry_core.Base.{
  ℕ, zero, suc, ◌+◌, ◌-◌, ◌/◌, Bool, true, ◌&&◌, ◌||◌, not, if◌then◌else◌, ltb, leb, ◌==◌, String,
  List, [], ◌∷◌, ◌++◌, str_eq, length,
}
use gantry_core.Base.Int.{ℤ, pos, negsuc, leb_ℤ}
use gantry_core.Base.Text.{trim_space}
use gantry_core.Base.Result.{Result, ok, err}
use Prim.Native.Char.{code}
use Prim.Native.String

pub record Session : Type 0 where
  pub id : String
  pub title : String
  pub cwd : String
  pub state : String
  pub created_at : ℤ
  pub updated_at : ℤ
  pub closed_at : ℤ
  pub scrollback : List ℕ

pub data TerminalError : Type 0 where
  session_invalid session_limit_reached : TerminalError

abbrev pub default_title : String
default_title = "Terminal"

abbrev pub default_state : String
default_state = "disconnected"

abbrev pub max_title_bytes : ℕ
max_title_bytes = 200

abbrev pub max_cwd_bytes : ℕ
max_cwd_bytes = 4096

abbrev pub default_scrollback_limit : ℕ
default_scrollback_limit = 262144

abbrev pub default_session_limit : ℕ
default_session_limit = 16

abbrev rune_width : ℕ → ℕ
rune_width c = if ltb c 0x80 then 1 else if ltb c 0x800 then 2 else if ltb c 0x10000 then 3 else 4

-- `len` of a string counts the bytes of its UTF-8.
unfoldable pub byte_length : String → ℕ
byte_length String.[] = 0
byte_length (String.◌∷◌ c s) = rune_width (code c) + byte_length s

abbrev between : ℕ → ℕ → ℕ → Bool
between a b c = leb a c && leb c b

abbrev id_char : ℕ → Bool
id_char c =
    c == 0x2d || c == 0x5f || between 0x30 0x39 c || between 0x61 0x7a c || between 0x41 0x5a c

unfoldable pub id_chars : String → Bool
id_chars String.[] = true
id_chars (String.◌∷◌ c s) = id_char (code c) && id_chars s

-- `ValidID`
unfoldable pub valid_id : String → Bool
unfolding byte_length id_chars
valid_id id = not (str_eq id "" || ltb 128 (byte_length id)) && id_chars id

-- `Normalize`
unfoldable pub normalize : Session → Result TerminalError Session
unfolding valid_id byte_length trim_space
normalize s =
    if not (valid_id (trim_space s.id))
      || ltb max_title_bytes (byte_length s.title)
      || ltb max_cwd_bytes (byte_length s.cwd)
    then err session_invalid
    else ok (record s {
      id = trim_space s.id;
      title = if str_eq (trim_space s.title) "" then default_title else s.title;
      state = if str_eq s.state "" then default_state else s.state;
    })

-- `if limit <= 0`
abbrev pub limit_or : ℕ → ℤ → ℕ
limit_or default (negsuc n) = default
limit_or default (pos n) = if n == 0 then default else n

-- `utf8.RuneStart`: `b&0xC0 != 0x80`, on a byte
abbrev pub rune_start : ℕ → Bool
rune_start b = not (b / 64 == 2)

-- `combined[n:]`
unfoldable pub drop : ℕ → List ℕ → List ℕ
drop zero bytes = bytes
drop (suc n) [] = []
drop (suc n) (b ∷ bytes) = drop n bytes

-- The loop at the end of `AppendScrollback`.
unfoldable pub from_rune : List ℕ → List ℕ
from_rune [] = []
from_rune (b ∷ bytes) = let rest = from_rune bytes in if rune_start b then b ∷ bytes else rest

unfoldable pub tail_of : List ℕ → ℕ → List ℕ
unfolding drop from_rune
tail_of combined limit =
    if leb (length combined) limit
    then combined
    else from_rune (drop (length combined - limit) combined)

-- `CheckCapacity`
unfoldable pub check_capacity : Bool → ℤ → ℤ → Result TerminalError (Unit {0})
check_capacity there count limit =
    if not there && leb_ℤ (pos (limit_or default_session_limit limit)) count
    then err session_limit_reached
    else ok tt

module _ (to_valid_utf8 : List ℕ → List ℕ) where
  -- `AppendScrollback`
  unfoldable pub append_scrollback : List ℕ → List ℕ → ℤ → List ℕ
  unfolding tail_of
  append_scrollback existing p limit =
      tail_of (existing ++ to_valid_utf8 p) (limit_or default_scrollback_limit limit)

  -- `NormalizeOutput`
  unfoldable pub normalize_output : List ℕ → List ℕ
  normalize_output p = to_valid_utf8 p
