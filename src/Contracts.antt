-- ===== src/Contracts.antt =====
-- Operation contracts and their validation (operation/operation.go).
pub mod Registry
pub mod Tests
use Prim.Native.Char.{code}
use text.Mathlib.Text.{starts_with}
use gantry_core.Base.{
  Bool, true, false, ◌&&◌, ◌||◌, not, ◌==◌, if◌then◌else◌, String, Option, none, some, List, [],
  ◌∷◌, ◌++◌, str_eq, has, is_some,
}
use gantry_core.Base.Int.{ℤ, pos, eq_ℤ}
use gantry_core.Base.Pattern.{scan, start, word_step, id_step, scope_step, is_inside, is_dotted}
use gantry_core.Base.Result.{Result, err, ◌>>◌, guard}
use gantry_core.Auth.Execution.{Authorization}

pub record Route : Type 0 where
  pub method : String
  pub path : String

pub record Cli : Type 0 where
  pub resource : String
  pub verb : String
  pub implemented : Bool

pub record Schemas : Type 0 where
  pub input : String
  pub output : String

pub record Audit : Type 0 where
  pub event : String
  pub required : Bool

pub record Idempotency : Type 0 where
  pub supported : Bool
  pub required : Bool
  pub retry_safe : Bool

pub record Contract : Type 0 where
  pub schema_version : ℤ
  pub id : String
  pub kind : String
  pub route : Route
  pub cli : Option Cli
  pub authorization : Authorization
  pub schemas : Schemas
  pub audit : Audit
  pub idempotency : Idempotency
  pub automation : String
  pub secret_inputs : List String
  pub secret_outputs : List String

pub data ContractError : Type 0 where
  schema_unsupported id_invalid kind_invalid method_invalid path_invalid cli_missing : ContractError
  cli_invalid capability_unexpected capability_missing boundary_invalid : ContractError
  scope_invalid audit_missing event_invalid idempotency_missing retry_unsafe : ContractError
  automation_invalid pointer_invalid : ContractError

-- `SchemaVersion`
abbrev pub schema_version : ℤ
schema_version = pos 1

-- `idPattern`
unfoldable pub id_matches : String → Bool
unfolding scan id_step
id_matches s = is_dotted (scan id_step start s)

-- `wordPattern`
unfoldable pub word_matches : String → Bool
unfolding scan word_step
word_matches s = is_inside (scan word_step start s)

-- `scopePattern`
unfoldable pub scope_matches : String → Bool
unfolding scan scope_step
scope_matches s = is_inside (scan scope_step start s)

-- `strings.ContainsAny(path, "?# ")`
unfoldable pub contains_delimiter : String → Bool
contains_delimiter String.[] = false
contains_delimiter (String.◌∷◌ c s) =
    code c == 0x3f || code c == 0x23 || code c == 0x20 || contains_delimiter s

-- `validateRoute`
unfoldable pub validate_route : Route → Result ContractError (Unit {0})
unfolding contains_delimiter
validate_route r =
    guard
      (str_eq r.method "GET"
        || str_eq r.method "POST"
        || str_eq r.method "PUT"
        || str_eq r.method "PATCH"
        || str_eq r.method "DELETE"
        || str_eq r.method "HEAD"
        || str_eq r.method "OPTIONS")
      method_invalid
    >> guard (starts_with r.path "/" && not (contains_delimiter r.path)) path_invalid

unfoldable pub scopes_match : List String → Bool
unfolding scope_matches
scopes_match [] = true
scopes_match (s ∷ ss) = scope_matches s && scopes_match ss

-- `validateAuthorization`
unfoldable pub validate_authorization : Authorization → Result ContractError (Unit {0})
unfolding id_matches scopes_match
validate_authorization a =
    (if str_eq a.boundary "public"
        || str_eq a.boundary "session"
        || str_eq a.boundary "service"
        || str_eq a.boundary "cluster-node"
      then guard (str_eq a.capability "") capability_unexpected
      else if str_eq a.boundary "capability"
      then guard (id_matches a.capability) capability_missing
      else err boundary_invalid)
    >> guard (scopes_match a.token_scopes) scope_invalid

-- `validatePointers`, with the values seen so far. A value that starts with a slash is not empty.
unfoldable pub pointers_valid : List String → List String → Bool
pointers_valid seen [] = true
pointers_valid seen (v ∷ vs) = starts_with v "/" && not (has v seen) && pointers_valid (v ∷ seen) vs

-- `c.CLI != nil && (…)`
unfoldable pub cli_words : Option Cli → Bool
unfolding word_matches
cli_words none = true
cli_words (some c) = word_matches c.resource && word_matches c.verb

-- `Contract.Validate`
unfoldable pub validate_contract : Contract → Result ContractError (Unit {0})
unfolding id_matches validate_route cli_words validate_authorization pointers_valid
validate_contract c =
    guard (eq_ℤ c.schema_version schema_version) schema_unsupported
    >> guard (id_matches c.id) id_invalid
    >> guard (str_eq c.kind "read" || str_eq c.kind "mutation" || str_eq c.kind "destructive")
        kind_invalid
    >> validate_route c.route
    >> guard (is_some c.cli || not (str_eq c.automation "automatable")) cli_missing
    >> guard (cli_words c.cli) cli_invalid
    >> validate_authorization c.authorization
    >> guard (str_eq c.kind "read" || c.audit.required) audit_missing
    >> guard (not c.audit.required || id_matches c.audit.event) event_invalid
    >> guard (not c.idempotency.required || c.idempotency.supported) idempotency_missing
    >> guard (not c.idempotency.retry_safe || c.idempotency.supported || str_eq c.kind "read")
        retry_unsafe
    >> guard
        (str_eq c.automation "automatable"
          || str_eq c.automation "browser-protocol"
          || str_eq c.automation "streaming-protocol"
          || str_eq c.automation "service-protocol")
        automation_invalid
    >> guard (pointers_valid [] (c.secret_inputs ++ c.secret_outputs)) pointer_invalid
