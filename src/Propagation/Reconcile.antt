-- ===== src/Propagation/Reconcile.antt =====
-- Validation of profiles, drift, ownership and secrets (propagation/reconcile.go, conflict.go,
-- secrets.go).
pub mod InSync
mod Tests
use gantry_core.Base.{
  ℕ, Bool, true, false, ◌&&◌, ◌||◌, not, if◌then◌else◌, ◌==◌, String, Option, none, some, List, [],
  ◌∷◌, ◌++◌, str_eq, Assoc, lookup, length,
}
use gantry_core.Base.Result.{Result, ok, err, ◌>>◌, guard}
use gantry_core.Base.Sort.{sort_by, str_leb}
use gantry_core.Propagation.Plan.{Envelope, Existing, SecretRef, ConflictPolicy, key}
use gantry_core.Propagation.Schedule.{
  Profile, Mode, other_mode, ScheduleError, in_maintenance_window,
}

pub data ProfileError : Type 0 where
  name_required mode_unsupported kind_required profile_schedule_invalid : ProfileError
  window_error : ScheduleError → ProfileError

abbrev mode_known : Mode → Bool
mode_known (other_mode m) = false
mode_known _ = true

-- `d <= 0`, on the nanoseconds of a duration that is not negative
abbrev positive : Option ℕ → Bool
positive none = false
positive (some d) = not (d == 0)

unfoldable pub window_checked : Result ScheduleError Bool → Result ProfileError (Unit {0})
window_checked (ok b) = ok tt
window_checked (err e) = err (window_error e)

-- `Profile.Validate`, at a minute of the day
unfoldable pub validate_profile :
    (String → Option ℕ) → (String → Option ℕ) → Profile → ℕ → Result ProfileError (Unit {0})
unfolding window_checked in_maintenance_window
validate_profile clock_minutes duration p minute =
    guard (not (str_eq p.id "" || str_eq p.name "")) name_required
    >> guard (mode_known p.mode) mode_unsupported
    >> guard (not (length p.kinds == 0)) kind_required
    >> guard (str_eq p.schedule "" || positive (duration p.schedule)) profile_schedule_invalid
    >> window_checked (in_maintenance_window clock_minutes duration p.maintenance_window minute)

pub record Drift : Type 0 where
  pub kind : String
  pub id : String
  pub expected_digest : String
  pub actual_digest : String
  pub node : String

abbrev pub digest_of : Option Existing → String
digest_of none = ""
digest_of (some a) = a.digest

abbrev pub differs : Option Existing → String → Bool
differs none digest = true
differs (some a) digest = not (str_eq a.digest digest)

unfoldable pub drift_from : String → Assoc Existing → List Envelope → List Drift
unfolding lookup
drift_from node actual [] = []
drift_from node actual (e ∷ es) =
    let found = lookup (key e) actual in
    let rest = drift_from node actual es in
    let one : Drift = record {
      kind = e.kind;
      id = e.id;
      expected_digest = e.digest;
      actual_digest = digest_of found;
      node = node;
    } in
    if differs found e.digest then one ∷ rest else rest

unfoldable pub drift_leb : Drift → Drift → Bool
drift_leb x y = if str_eq x.kind y.kind then str_leb x.id y.id else str_leb x.kind y.kind

-- `DetectDrift`
unfoldable pub detect_drift : String → List Envelope → Assoc Existing → List Drift
unfolding drift_from drift_leb sort_by
detect_drift node expected actual = sort_by drift_leb (drift_from node actual expected)

pub record Ownership : Type 0 where
  pub object_owner : String
  pub source_node : String

pub data OwnershipError : Type 0 where
  source_required owned_by_other : OwnershipError

abbrev is_authoritative : ConflictPolicy → Bool
is_authoritative ConflictPolicy.authoritative = true
is_authoritative _ = false

-- `ValidateOwnership`
unfoldable pub validate_ownership : ConflictPolicy → Ownership → Result OwnershipError (Unit {0})
validate_ownership policy o =
    if not (is_authoritative policy)
    then ok tt
    else guard (not (str_eq o.source_node "")) source_required
      >> guard (str_eq o.object_owner "" || str_eq o.object_owner o.source_node) owned_by_other

pub record SecretStatus : Type 0 where
  pub name : String
  pub present : Bool
  pub required : Bool

pub data SecretsError : Type 0 where
  provider_required : SecretsError
  provider_failed secret_unavailable : String → SecretsError

-- The loop of `CheckSecrets`. The statuses found so far are returned with an error of a required one.
unfoldable pub check_each :
    (String → Result String Bool)
    → List SecretRef
    → List SecretStatus
    → List SecretStatus × Option SecretsError
check_each has_secret [] out = (out, none)
check_each has_secret (r ∷ rs) out = elim (has_secret r.name) [
  | err e ↦ ([], some (provider_failed r.name))
  | ok present ↦
      let out' = out ++ (record { name = r.name; present = present; required = r.required } ∷ []) in
      elim (r.required && not present) [
        | true ↦ (out', some (secret_unavailable r.name))
        | false ↦ check_each has_secret rs out'
      ]
]

-- `CheckSecrets`
unfoldable pub check_provided :
    List SecretRef → Option (String → Result String Bool) → List SecretStatus × Option SecretsError
unfolding check_each
check_provided [] none = ([], none)
check_provided (r ∷ rs) none = ([], some provider_required)
check_provided refs (some has_secret) = check_each has_secret refs []
