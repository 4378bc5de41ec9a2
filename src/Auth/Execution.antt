-- ===== src/Auth/Execution.antt =====
-- Authenticated actors, executions, and the authorization of an operation (auth/execution.go, with
-- the boundaries of operation/operation.go).
pub mod Permitted
use gantry_core.Base.{
  Bool, false, ◌&&◌, ◌||◌, not, String, Option, none, some, List, [], ◌∷◌, str_eq, has,
  if◌then◌else◌, length, ◌==◌,
}
use gantry_core.Base.Result.{Result, ok, err, ◌>>◌, guard}

pub record Actor : Type 0 where
  pub kind : String
  pub project : String
  pub installation : String
  pub subject : String
  pub account_id : String
  pub capabilities : List String
  pub token_scopes : List String

pub record Execution : Type 0 where
  pub mode : String
  pub project : String
  pub installation : String
  pub target_node : String
  pub actor : Actor

pub record Authorization : Type 0 where
  pub boundary : String
  pub capability : String
  pub token_scopes : List String

pub data ActorError : Type 0 where
  identity_missing human_account human_scopes token_authority service_authority : ActorError
  kind_invalid mode_invalid : String → ActorError
  scope_missing not_local target_unexpected target_missing : ActorError
  authentication_required session_required capability_denied token_denied : ActorError
  human_or_token_required service_required cluster_node_required boundary_unsupported : ActorError

abbrev pub is_empty : List String → Bool
is_empty xs = length xs == 0

-- `Actor.Validate`
unfoldable pub validate_actor : Actor → Result ActorError (Unit {0})
validate_actor a =
    if str_eq a.project "" || str_eq a.installation "" || str_eq a.subject ""
    then err identity_missing
    else if str_eq a.kind "human"
    then (if str_eq a.account_id ""
        then err human_account
        else if not (is_empty a.token_scopes)
        then err human_scopes
        else ok tt)
    else if str_eq a.kind "api-token"
    then (if not (str_eq a.account_id "")
          || not (is_empty a.capabilities)
          || is_empty a.token_scopes
        then err token_authority
        else ok tt)
    else if str_eq a.kind "service" || str_eq a.kind "cluster-node"
    then (if not (str_eq a.account_id "")
          || not (is_empty a.capabilities)
          || not (is_empty a.token_scopes)
        then err service_authority
        else ok tt)
    else err (kind_invalid a.kind)

-- `Execution.Validate`
unfoldable pub validate_execution : Execution → Result ActorError (Unit {0})
unfolding validate_actor
validate_execution e =
    validate_actor e.actor
    >> guard (not (str_eq e.project "" || str_eq e.installation "")) scope_missing
    >> guard (str_eq e.project e.actor.project && str_eq e.installation e.actor.installation)
        not_local
    >> (if str_eq e.mode "local" || str_eq e.mode "remote"
        then (if str_eq e.target_node "" then ok tt else err target_unexpected)
        else if str_eq e.mode "cluster"
        then (if str_eq e.target_node "" || not (str_eq e.actor.kind "cluster-node")
            then err target_missing
            else ok tt)
        else err (mode_invalid e.mode))

-- `contains`: Go's search of a sorted copy finds a value exactly when it is there.
unfoldable pub contains : List String → String → Bool
contains values want = has want values

-- `containsAny`
unfoldable pub contains_any : List String → List String → Bool
unfolding contains
contains_any have [] = false
contains_any have (r ∷ rs) = contains have r || contains_any have rs

-- `case operation.Capability`
unfoldable pub authorize_capability : Authorization → Actor → Result ActorError (Unit {0})
unfolding contains contains_any
authorize_capability c a =
    if str_eq a.kind "human"
    then guard (contains a.capabilities c.capability) capability_denied
    else if str_eq a.kind "api-token"
    then guard (contains_any a.token_scopes c.token_scopes) token_denied
    else err human_or_token_required

-- `switch contract.Authorization.Boundary`
unfoldable pub authorize_boundary : Authorization → Actor → Result ActorError (Unit {0})
unfolding authorize_capability
authorize_boundary c a =
    if str_eq c.boundary "session"
    then guard (str_eq a.kind "human") session_required
    else if str_eq c.boundary "capability"
    then authorize_capability c a
    else if str_eq c.boundary "service"
    then guard (str_eq a.kind "service") service_required
    else if str_eq c.boundary "cluster-node"
    then guard (str_eq a.kind "cluster-node") cluster_node_required
    else err boundary_unsupported

-- `Authorize`
unfoldable pub authorize : Authorization → Option Actor → Result ActorError (Unit {0})
unfolding authorize_boundary validate_actor
authorize c actor = if str_eq c.boundary "public" then ok tt else elim actor [
  | none ↦ err authentication_required
  | some a ↦ validate_actor a >> authorize_boundary c a
]
