-- ===== src/Automation/Address.antt =====
-- The address of an operation (automation/automation.go). net/url is a parameter.
use Prim.Native.Char.{Char, code}
use Prim.Native.String.{String, count, ◌++◌ as append_str}
use text.Mathlib.Text.{starts_with}
use gantry_core.Base.{
  ◌==◌, ◌≡◌, refl, Bool, true, false, ◌&&◌, ◌||◌, not, if◌then◌else◌, Option, none, some, List, [],
  ◌∷◌, str_eq, length,
}
use gantry_core.Base.Result.{Result, ok, ◌>>=◌, ◌>>◌, guard}
use gantry_core.Base.Text.{cut_at, trim_slashes, drop_chars}
use gantry_core.Cluster.Identity.{Url}

-- `url.PathEscape`, `url.Parse`, and an address with query parameters added to its own.
pub record UrlTools : Type 0 where
  pub path_escape : String → String
  pub parse_url : String → Option Url
  pub with_query : String → List (String × String) → String

pub data AddressError : Type 0 where
  arguments_wrong address_invalid query_invalid : AddressError

-- Where the search for `\{[^{}]+\}` stands: the name that has been read since the last open brace.
abbrev push_char : Char → Option String → Option String
push_char c none = none
push_char c (some name) = some (append_str name (String.◌∷◌ c ""))

abbrev named : Option String → List String → List String
named none vars = vars
named (some name) vars =
    if str_eq name "" then vars else append_str "{" (append_str name "}") ∷ vars

-- `pathVar.FindAllString`
unfoldable pub find_vars : Option String → String → List String
find_vars open_name String.[] = []
find_vars open_name (String.◌∷◌ c s) = elim (code c == 0x7b) [
  | true ↦ find_vars (some "") s
  | false ↦ elim (code c == 0x7d) [
    | true ↦ named open_name (find_vars none s)
    | false ↦ find_vars (push_char c open_name) s
  ]
]

-- `strings.Replace(path, old, new, 1)`
unfoldable pub replace_first : String → String → String → String
unfolding drop_chars
replace_first old new String.[] = ""
replace_first old new (String.◌∷◌ c s) =
    let rest = replace_first old new s in
    if starts_with (String.◌∷◌ c s) old
    then append_str new (drop_chars (count old) (String.◌∷◌ c s))
    else String.◌∷◌ c rest

-- The loop over the variables.
unfoldable pub fill_path : UrlTools → String → List String → List String → String
unfolding replace_first
fill_path u path (v ∷ vars) (a ∷ args) =
    fill_path u (replace_first v (u.path_escape a) path) vars args
fill_path u path _ _ = path

-- The loop over the queries.
unfoldable pub add_queries : List String → Result AddressError (List (String × String))
unfolding cut_at
add_queries [] = ok []
add_queries (item ∷ items) =
    let (key, value, found) = cut_at 0x3d item in
    guard (found && not (str_eq key "")) query_invalid
    >> (add_queries items >>= λ rest. ok ((key, value) ∷ rest))

unfoldable pub is_absolute : Option Url → Bool
is_absolute none = false
is_absolute (some u) = not (str_eq u.scheme "" || str_eq u.host "")

-- `routeURL`
unfoldable pub route_url :
    UrlTools → String → String → List String → List String → Result AddressError String
unfolding find_vars fill_path is_absolute add_queries trim_slashes
route_url u base path args queries =
    let vars = find_vars none path in
    let address = append_str (trim_slashes base) (fill_path u path vars args) in
    guard (length args == length vars) arguments_wrong
    >> guard (is_absolute (u.parse_url address)) address_invalid
    >> (add_queries queries >>= λ pairs. ok (u.with_query address pairs))

vars_test : find_vars none "/a/{id}/b/{}{x{name}" ≡ "{id}" ∷ "{name}" ∷ []
unfolding find_vars
vars_test = refl
