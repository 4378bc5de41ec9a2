-- ===== src/Propagation/Execute/Tests.antt =====
-- Runs of a profile on one node, whose state is the number of bundles it has applied.
use gantry_core.Base.{
  ◌≡◌, refl, ◌⊎◌, ℕ, ◌+◌, Bool, true, false, String, Option, none, some, List, [], ◌∷◌,
}
use gantry_core.Base.Int.{pos}
use gantry_core.Base.Text.{trim_space}
use gantry_core.Base.Result.{ok}
use gantry_core.Propagation.Plan.{update}
use gantry_core.Propagation.Preview.{Preview}
use gantry_core.Propagation.Apply.{nothing_applied}
use gantry_core.Propagation.Schedule.{Profile, Mode, automatic, notify_only, notify, apply}
use gantry_core.Propagation.Execute.{ProfileExecutor, Outcome, reconcile_blocked, execute_profile}
use gantry_core.Propagation.Execute.Safe.{Justified, execute_profile-Justified}

abbrev as_is : String → String
as_is s = s

abbrev no_time : String → Option ℕ
no_time s = none

abbrev in_turn : List String → List String
in_turn nodes = nodes

abbrev profile : Mode → Profile
profile mode = record {
  id = "p";
  name = "Profile";
  selector = record { nodes = []; labels = []; capabilities = []; exclude = []; all = true };
  kinds = "agent" ∷ [];
  mode = mode;
  schedule = "";
  maintenance_window = "";
  enabled = true;
  last_run_at = none;
}

abbrev one_update : Bool → Preview
one_update applicable = record {
  items =
      record {
        kind = "agent";
        id = "1";
        change = update;
        reason = "content differs";
        from_revision = pos 1;
        to_revision = pos 2;
      }
      ∷ [];
  issues = [];
  applicable = applicable;
}

abbrev executor : Bool → ProfileExecutor ℕ
executor applicable = record {
  members = record { id = "a"; labels = []; capabilities = []; enabled = true } ∷ [];
  export = some (λ kinds s. ok []);
  preview = some (λ node source s. (one_update applicable, ""));
  apply_to = some (λ node plan_id source s. (s + 1, nothing_applied, ""));
}

abbrev run_with : Mode → Bool → Outcome ℕ
run_with mode applicable =
    execute_profile as_is no_time no_time in_turn (profile mode) (executor applicable) 0
      "profile-p-1" 0

-- An automatic profile applies.
applies : (run_with automatic true).0 ≡ 1
unfolding execute_profile trim_space
applies = refl

-- It does not where the preview is not applicable.
stops : run_with automatic false ≡ (
  0,
  record { profile_id = "p"; action = apply; drift = 1; applied = 0; failed = 1 },
  some reconcile_blocked,
)
unfolding execute_profile trim_space
stops = refl

notifies :
    run_with notify_only true
    ≡ (0, record { profile_id = "p"; action = notify; drift = 1; applied = 0; failed = 0 }, none)
unfolding execute_profile trim_space
notifies = refl

execute_profile-Justified_example :
    ((run_with automatic true).0 ≡ 0)
    ⊎ Justified as_is no_time no_time in_turn (profile automatic) (executor true) 0 0
execute_profile-Justified_example =
    execute_profile-Justified as_is no_time no_time in_turn (profile automatic) (executor true) 0
      "profile-p-1" 0
