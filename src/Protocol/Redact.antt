-- ===== src/Protocol/Redact.antt =====
-- Redaction of JSON values by JSON pointers (protocol/protocol.go).
use Prim.Native.Char.{Char, code}
use Prim.Native.String.{String, ◌++◌ as append_str}
use gantry_core.Base.{
  ℕ, zero, suc, ◌≡◌, ◌+◌, ◌-◌, ◌*◌, leb, ◌==◌, Bool, true, false, ◌&&◌, if◌then◌else◌, Option, none,
  some, List, [], ◌∷◌, str_eq,
}
use gantry_core.Base.Pattern.{is_digit}
use gantry_core.Base.Result.{Result, ok, err, ◌>>=◌}

-- What `json.Unmarshal` makes of a text, with a number as its text.
mutual
  pub data Json : Type 0 where
    null : Json
    boolean : Bool → Json
    number : String → Json
    text : String → Json
    array : Elems → Json
    object : Props → Json

  pub data Elems : Type 0 where
    no_elem : Elems
    elem : Json → Elems → Elems

  pub data Props : Type 0 where
    no_prop : Props
    prop : String → Json → Props → Props

-- encoding/json, as the code uses it.
pub record JsonCodec : Type 0 where
  pub marshal : Json → Option String
  pub unmarshal : String → Option Json

-- A value is written, and is read again as it was: what encoding/json documents of each value that is
-- made of objects, arrays, texts, numbers and truth values.
pub record WritesBack (c : JsonCodec) (v : Json) : Type 0 where
  pub as_text : String
  pub written : c.marshal v ≡ some as_text
  pub read : c.unmarshal as_text ≡ some v

pub data RedactError : Type 0 where
  pointer_invalid json_invalid : RedactError

-- `strings.Split(s, "/")`, with the piece that has been read so far in front.
abbrev push_front : Char → List String → List String
push_front c [] = String.◌∷◌ c "" ∷ []
push_front c (part ∷ parts) = String.◌∷◌ c part ∷ parts

unfoldable pub split_slash : String → List String
split_slash String.[] = "" ∷ []
split_slash (String.◌∷◌ c s) =
    let rest = split_slash s in if code c == 0x2f then "" ∷ rest else push_front c rest

-- `strings.ReplaceAll` of a tilde and the character `digit`.
unfoldable pub replace_all : ℕ → String → String → String
replace_all digit by String.[] = ""
replace_all digit by (String.◌∷◌ c String.[]) = String.◌∷◌ c ""
replace_all digit by (String.◌∷◌ c (String.◌∷◌ d s)) = elim (code c == 0x7e && code d == digit) [
  | true ↦ append_str by (replace_all digit by s)
  | false ↦ String.◌∷◌ c (replace_all digit by (String.◌∷◌ d s))
]

unfoldable pub unescape_all : List String → List String
unfolding replace_all
unescape_all [] = []
unescape_all (p ∷ ps) = replace_all 0x30 "~" (replace_all 0x31 "/" p) ∷ unescape_all ps

-- `pointerParts`
unfoldable pub pointer_parts : String → Result RedactError (List String)
unfolding unescape_all split_slash
pointer_parts String.[] = ok []
pointer_parts (String.◌∷◌ c s) =
    if code c == 0x2f then ok (unescape_all (split_slash s)) else err pointer_invalid

-- The value of decimal digits, if there are any and no other characters.
unfoldable pub digits_from : ℕ → String → Option ℕ
digits_from n String.[] = some n
digits_from n (String.◌∷◌ c s) =
    let rest = digits_from (n * 10 + (code c - 0x30)) s in if is_digit (code c) then rest else none

unfoldable pub digits : String → Option ℕ
unfolding digits_from
digits String.[] = none
digits (String.◌∷◌ c s) = digits_from 0 (String.◌∷◌ c s)

abbrev at_most : ℕ → Option ℕ → Option ℕ
at_most top none = none
at_most top (some n) = if leb n top then some n else none

-- `strconv.Atoi` where its result is not negative.
unfoldable pub atoi_index : String → Option ℕ
unfolding digits
atoi_index String.[] = none
atoi_index (String.◌∷◌ c s) =
    if code c == 0x2b
    then at_most 9223372036854775807 (digits s)
    else if code c == 0x2d
    then at_most 0 (digits s)
    else at_most 9223372036854775807 (digits (String.◌∷◌ c s))

-- `object[name]`, changed where it exists.
unfoldable pub update_prop : String → (Json → Json) → Props → Props
update_prop name f no_prop = no_prop
update_prop name f (prop k v ps) =
    let rest = update_prop name f ps in if str_eq k name then prop k (f v) ps else prop k v rest

-- `array[index]`, changed where it exists.
unfoldable pub update_elem : ℕ → (Json → Json) → Elems → Elems
update_elem n f no_elem = no_elem
update_elem zero f (elem v vs) = elem (f v) vs
update_elem (suc n) f (elem v vs) = elem v (update_elem n f vs)

unfoldable pub update_at : Option ℕ → (Json → Json) → Elems → Elems
unfolding update_elem
update_at none f vs = vs
update_at (some n) f vs = update_elem n f vs

unfoldable pub change : String → (Json → Json) → Json → Json
unfolding update_prop update_at atoi_index
change part f (object ps) = object (update_prop part f ps)
change part f (array vs) = array (update_at (atoi_index part) f vs)
change part f v = v

-- What `redactAt` makes of the value below the parts that are left.
unfoldable pub redact_below : List String → Json → Json
unfolding change
redact_below [] v = text "[redacted]"
redact_below (part ∷ parts) v = change part (redact_below parts) v

-- `redactAt`, which changes its tree in place.
unfoldable pub redact_at : List String → Json → Json
unfolding redact_below
redact_at [] v = v
redact_at (part ∷ parts) v = redact_below (part ∷ parts) v

-- The loop over the pointers.
unfoldable pub redact_all : List String → Json → Result RedactError Json
unfolding redact_at pointer_parts
redact_all [] v = ok v
redact_all (p ∷ ps) v = pointer_parts p >>= λ parts. redact_all ps (redact_at parts v)

abbrev pub found {ℓ} : {A : Type ℓ} → Option A → Result RedactError A
found none = err json_invalid
found (some a) = ok a

-- `Redact`, on a clone that is written and read again.
unfoldable pub redact : JsonCodec → Json → List String → Result RedactError Json
unfolding redact_all
redact codec value pointers = do
  body ← found (codec.marshal value)
  clone ← found (codec.unmarshal body)
  redact_all pointers clone
