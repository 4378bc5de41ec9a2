-- ===== src/Propagation/Manager/Tests.antt =====
-- Passes over due profiles, as runs and as their theorem at a concrete input.
use gantry_core.Base.{
  ℕ, ◌≡◌, refl, true, if◌then◌else◌, String, Option, none, some, List, [], ◌∷◌, str_eq, Assoc,
  lookup, insert, lookup-insert,
}
use gantry_core.Base.Text.{trim_space}
use gantry_core.Base.Result.{ok}
use gantry_core.Propagation.Schedule.{Profile, notify_only, due}
use gantry_core.Propagation.Reconcile.{validate_profile}
use gantry_core.Propagation.Execute.{started}
use gantry_core.Propagation.Manager.{
  StateStore, RunReport, ProfileRunFunc, run_due_profiles, run_each, present_result,
}
use gantry_core.Propagation.Manager.Spaced.{IsStore, Turns, run_due_profiles-Turns}

abbrev profiles_of : Assoc Profile → List Profile
profiles_of [] = []
profiles_of ((k, p) ∷ m) = p ∷ profiles_of m

abbrev kept : StateStore (Assoc Profile)
kept = record {
  save = λ p w. (insert p.id p w, none);
  delete = λ id w. (w, none);
  list = λ w. ok (profiles_of w);
  record_history = λ h w. (w, none);
  list_history = λ n w. ok [];
}

-- The run of `b` fails.
abbrev run_profile : ProfileRunFunc (Assoc Profile)
run_profile p w =
    (w, record { result = started p; error = none }, if str_eq p.id "b" then some "down" else none)

kept-IsStore : IsStore kept run_profile (λ w id. lookup id w)
kept-IsStore = record {
  saves = λ p w id h. lookup-insert p.id id p w;
  refuses = λ p w id h. absurd (cc);
  runs = λ p w id. refl;
}

abbrev hourly : String → Profile
hourly id = record {
  id = id;
  name = id;
  selector = record { nodes = []; labels = []; capabilities = []; exclude = []; all = true };
  kinds = "k" ∷ [];
  mode = notify_only;
  schedule = "60";
  maintenance_window = "";
  enabled = true;
  last_run_at = some 10;
}

abbrev sixty : String → Option ℕ
sixty s = some 60

abbrev no_clock : String → Option ℕ
no_clock s = none

abbrev two : Assoc Profile
two = ("a", hourly "a") ∷ ("b", hourly "b") ∷ []

-- The profile that ran is stored with the time, the one that failed is not.
stored_times :
    (run_due_profiles no_clock sixty (some kept) (some run_profile) 70 0 two).0
    ≡ ("a", record (hourly "a") { last_run_at = some 70 }) ∷ ("b", hourly "b") ∷ []
unfolding run_due_profiles run_each due validate_profile insert trim_space
stored_times = refl

-- Before the interval is over nothing runs.
too_early : (run_due_profiles no_clock sixty (some kept) (some run_profile) 69 0 two).1 ≡ ok []
unfolding run_due_profiles run_each due trim_space
too_early = refl

run_due_profiles-Turns_example :
    (reports : List RunReport) × ((run_due_profiles no_clock sixty
        (some kept)
        (some run_profile)
        70
        0
        two).1
      ≡ ok reports)
    × Turns no_clock sixty 70 0
        (λ id. lookup id two)
        (λ id.
          lookup id (run_due_profiles no_clock sixty (some kept) (some run_profile) 70 0 two).0)
        (profiles_of two)
        reports
run_due_profiles-Turns_example =
    run_due_profiles-Turns no_clock sixty 70 0 kept run_profile (λ w id. lookup id w) kept-IsStore
      (profiles_of two) two refl (refl, (refl, tt))

-- A node that was rolled back shows so although it has an error.
rolled_back_shown :
    present_result (
      record {
        node = "a";
        validated = true;
        applied = true;
        rolled_back = true;
        revisions = [];
        error = "down";
      }
      ∷ [])
    ≡ record { node = "a"; state = "rolled-back"; detail = "down" } ∷ []
unfolding present_result
rolled_back_shown = refl
