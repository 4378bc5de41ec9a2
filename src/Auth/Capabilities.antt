-- ===== src/Auth/Capabilities.antt =====
-- Capabilities of accounts and tidied lists of strings (auth/accounts.go).
pub mod Laws
use gantry_core.Base.{
  Bool, false, ◌||◌, String, Option, none, some, List, [], ◌∷◌, str_eq, has, if◌then◌else◌,
}
use gantry_core.Base.Text.{trim_space}
use gantry_core.Base.Sort.{sort_by, str_leb}
use gantry_core.Auth.Accounts.{Account, Role}

-- `set[c] = true`, for a map whose keys are listed.
unfoldable pub add : String → List String → List String
add c set = if has c set then set else c ∷ set

-- The loop over one role's capabilities; `none` is the return of everything.
unfoldable pub gather_role : List String → List String → Option (List String)
unfolding add
gather_role [] set = some set
gather_role (c ∷ cs) set =
    let rest = gather_role cs (add c set) in if str_eq c "*" then none else rest

unfoldable pub gather_roles : String → List Role → List String → Option (List String)
unfolding gather_role
gather_roles id [] set = some set
gather_roles id (r ∷ rs) set =
    elim (if str_eq r.id id then gather_role r.capabilities set else some set) [
      | none ↦ none
      | some set' ↦ gather_roles id rs set'
    ]

unfoldable pub gather : List String → List Role → List String → Option (List String)
unfolding gather_roles
gather [] roles set = some set
gather (id ∷ ids) roles set = elim (gather_roles id roles set) [
  | none ↦ none
  | some set' ↦ gather ids roles set'
]

-- `EffectiveCapabilities`. Go's random order of a map's keys is gone after the sort.
unfoldable pub effective_capabilities : Account → List Role → List String
unfolding gather
effective_capabilities account roles =
    if account.enabled
    then (elim (gather account.roles roles []) [ none ↦ "*" ∷ [] | some set ↦ sort_by str_leb set ])
    else []

-- `HasCapability`
unfoldable pub has_capability : List String → String → Bool
has_capability [] key = false
has_capability (c ∷ cs) key = str_eq c "*" || str_eq c key || has_capability cs key

-- The loop of `DedupeStrings`: `out` in reverse, which is also what `seen` holds.
unfoldable pub dedupe_from : List String → List String → List String
dedupe_from [] out = out
dedupe_from (v ∷ vs) out =
    dedupe_from vs (let t = trim_space v in if str_eq t "" || has t out then out else t ∷ out)

-- `DedupeStrings`
unfoldable pub dedupe_strings : List String → List String
unfolding dedupe_from
dedupe_strings vs = sort_by str_leb (dedupe_from vs [])
