-- ===== src/Client/Address.antt =====
-- The origin of a client and the addresses of its calls (client/client.go: New, endpoint).
use text.Mathlib.Text.{starts_with}
use Prim.Native.String.{◌++◌ as append_str, len}
use gantry_core.Base.{
  ℕ, suc, zero, Bool, true, false, ◌&&◌, ◌||◌, not, if◌then◌else◌, String, Option, none, some, [],
  ◌∷◌, str_eq, Assoc,
}
use gantry_core.Base.Int.{ℤ, pos, negsuc}
use gantry_core.Base.Result.{Result, ok, err, ◌>>=◌, ◌>>◌, guard}

-- `url.URL` as far as `New` looks at it.
pub record Origin : Type 0 where
  pub scheme : String
  pub host : String
  pub has_user : Bool
  pub raw_query : String
  pub fragment : String
  pub path : String

-- `url.Parse`, `url.PathEscape`, `Values.Encode`, and `URL.String` of an origin with a path and a query.
pub record UrlParts : Type 0 where
  pub parse_url : String → Option Origin
  pub path_escape : String → String
  pub encode_query : Assoc String → String
  pub render : Origin → String → String → String

pub data AddressError : Type 0 where
  origin_invalid path_unexpected values_missing : AddressError
  value_unknown : String → AddressError

-- `strings.TrimRight(s, "/")`
unfoldable pub keep_left : String → String → String
keep_left first rest = if str_eq first "/" && str_eq rest "" then "" else append_str first rest

unfoldable pub trim_slash : String → String
unfolding keep_left
trim_slash String.[] = ""
trim_slash (String.◌∷◌ c s) = keep_left (String.◌∷◌ c "") (trim_slash s)

unfoldable pub origin_of : Option Origin → Result AddressError Origin
origin_of none = err origin_invalid
origin_of (some u) =
    guard
      (not (
        not (str_eq u.scheme "http") && not (str_eq u.scheme "https")
        || str_eq u.host ""
        || u.has_user
        || not (str_eq u.raw_query "")
        || not (str_eq u.fragment "")))
      origin_invalid
    >> guard (str_eq u.path "") path_unexpected
    >> ok u

-- The checks of `New`.
unfoldable pub check_origin : UrlParts → String → Result AddressError Origin
unfolding origin_of trim_slash
check_origin u base_url = origin_of (u.parse_url (trim_slash base_url))

-- `attempts < 1`, and a limit that is not positive
unfoldable pub at_least : ℕ → ℤ → ℕ
at_least default (negsuc n) = default
at_least default (pos zero) = default
at_least default (pos (suc n)) = suc n

-- `strings.Contains`
unfoldable pub contains : String → String → Bool
contains part String.[] = str_eq part ""
contains part (String.◌∷◌ c s) = starts_with (String.◌∷◌ c s) part || contains part s

-- The characters of a text after its first one.
unfoldable pub count_rest : String → ℕ
count_rest String.[] = 0
count_rest (String.◌∷◌ c s) = len s

-- `strings.ReplaceAll` of a text that is not empty. The first number is of the characters to skip.
unfoldable pub replace_every : String → String → ℕ → String → String
unfolding count_rest
replace_every old new n String.[] = ""
replace_every old new (suc n) (String.◌∷◌ c s) = replace_every old new n s
replace_every old new zero (String.◌∷◌ c s) = elim (starts_with (String.◌∷◌ c s) old) [
  | true ↦ append_str new (replace_every old new (count_rest old) s)
  | false ↦ String.◌∷◌ c (replace_every old new zero s)
]

abbrev marker : String → String
marker name = append_str "{" (append_str name "}")

-- The loop over the values, in some order of their names.
unfoldable pub fill_values : UrlParts → Assoc String → String → Result AddressError String
unfolding contains replace_every
fill_values u [] path = ok path
fill_values u ((name, value) ∷ values) path =
    guard (contains (marker name) path) (value_unknown name)
    >> fill_values u values (replace_every (marker name) (u.path_escape value) zero path)

-- `endpoint`
unfoldable pub endpoint :
    UrlParts → Origin → String → Assoc String → Assoc String → Result AddressError String
unfolding fill_values contains
endpoint u base pattern values query = do
  path ← fill_values u values pattern
  _ ← guard (not (contains "{" path)) values_missing
  ok (u.render base path (u.encode_query query))
