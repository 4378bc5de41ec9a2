-- ===== src/Propagation/Manager.antt =====
-- The manager of propagation on a node: profiles, history and the pass over due profiles
-- (propagation/manager.go, runner.go), and the progress that its page shows (propagation/ui.go).
-- A pass has one time, in nanoseconds with the minute of the day beside it. The store of the manager
-- and what a run changes are one state.
pub mod Spaced
mod Tests
use Prim.Native.String.{◌++◌ as append_str}
use gantry_core.Base.{
  ℕ, Bool, true, false, ◌&&◌, ◌||◌, not, if◌then◌else◌, leb, length, String, Option, none, some,
  List, [], ◌∷◌, ◌++◌, str_eq,
}
use gantry_core.Base.Int.{ℤ, pos, leb_ℤ, ltb_ℤ}
use gantry_core.Base.Result.{Result, ok, err}
use gantry_core.Propagation.Plan.{Envelope}
use gantry_core.Propagation.Apply.{
  LocalAdapter, ApplyBundleResult, Applied, refused, invalid, blocked, failed_with, done,
  nothing_applied, apply_local,
}
use gantry_core.Propagation.Schedule.{Profile, ScheduleError, due}
use gantry_core.Propagation.Reconcile.{ProfileError, validate_profile}
use gantry_core.Propagation.Execute.{ProfileRunResult, started}
use gantry_core.Propagation.Transaction.{NodeResult}

-- `detail` is the joined text of the errors of the bundle, before it is joined.
pub record HistoryRecord : Type 0 where
  pub id : String
  pub plan_id : String
  pub actor : String
  pub target : String
  pub status : String
  pub applied : ℕ
  pub failed : ℕ
  pub rolled_back : ℕ
  pub detail : List String
  pub created_at : ℕ

-- `StateStore`, over the state `W`; a call that changes something returns the text of its error.
pub record StateStore (W : Type 0) : Type 0 where
  pub save : Profile → W → W × Option String
  pub delete : String → W → W × Option String
  pub list : W → Result String (List Profile)
  pub record_history : HistoryRecord → W → W × Option String
  pub list_history : ℤ → W → Result String (List HistoryRecord)

pub data ManagerError : Type 0 where
  store_required runner_required : ManagerError
  profile_refused : ProfileError → ManagerError
  schedule_failed : ScheduleError → ManagerError
  store_failed run_failed : String → ManagerError

-- The result of a run, with its field for an error.
pub record RunReport : Type 0 where
  pub result : ProfileRunResult
  pub error : Option ManagerError

-- `ProfileRunFunc`: the result, and the text of the error beside it.
abbrev pub ProfileRunFunc : Type 0 → Type 0
ProfileRunFunc W = Profile → W → W × RunReport × Option String

abbrev pub store_error : Option String → Option ManagerError
store_error none = none
store_error (some e) = some (store_failed e)

unfoldable pub listed : {A : Type 0} → Result String A → Result ManagerError A
listed (ok a) = ok a
listed (err e) = err (store_failed e)

-- A limit outside 1 to 200 stands for 50.
unfoldable pub history_limit : ℤ → ℤ
history_limit n = if leb_ℤ n (pos 0) || ltb_ℤ (pos 200) n then pos 50 else n

module _ {W : Type 0} where
  abbrev saved_as : W × Option String → W × Option ManagerError
  saved_as (w, e) = (w, store_error e)

  unfoldable pub delete_profile : Option (StateStore W) → String → W → W × Option ManagerError
  delete_profile none id w = (w, some store_required)
  delete_profile (some st) id w = saved_as (st.delete id w)

  unfoldable pub profiles : Option (StateStore W) → W → Result ManagerError (List Profile)
  unfolding listed
  profiles none w = err store_required
  profiles (some st) w = listed (st.list w)

  unfoldable pub history : Option (StateStore W) → ℤ → W → Result ManagerError (List HistoryRecord)
  unfolding listed history_limit
  history none limit w = err store_required
  history (some st) limit w = listed (st.list_history (history_limit limit) w)

abbrev pub with_error : RunReport → Option ManagerError → RunReport
with_error r none = r
with_error r (some e) = record r { error = some e }

abbrev pub saved_run : {W : Type 0} → RunReport → W × Option ManagerError → W × RunReport
saved_run r (w, e) = (w, with_error r e)

module _ {W : Type 0} (clock_minutes : String → Option ℕ) (duration : String → Option ℕ) where
  unfoldable pub save_valid :
      StateStore W → Profile → W → Result ProfileError (Unit {0}) → W × Option ManagerError
  save_valid st p w (err e) = (w, some (profile_refused e))
  save_valid st p w (ok u) = saved_as (st.save p w)

  -- `SaveProfile`
  unfoldable pub save_profile : Option (StateStore W) → Profile → ℕ → W → W × Option ManagerError
  unfolding save_valid validate_profile
  save_profile none p minute w = (w, some store_required)
  save_profile (some st) p minute w =
      save_valid st p w (validate_profile clock_minutes duration p minute)

  module _ (st : StateStore W) (fn : ProfileRunFunc W) (now minute : ℕ) where
    -- What follows a run that returned no error.
    unfoldable pub after_run : Profile → W → RunReport → Option ManagerError → W × RunReport
    unfolding save_profile
    after_run p w r (some e) = (w, r)
    after_run p w r none =
        saved_run r (save_profile (some st) (record p { last_run_at = some now }) minute w)

    unfoldable pub finish_run : Profile → W × RunReport × Option String → W × RunReport
    unfolding after_run
    finish_run p (w, r, some e) =
        (w, record { result = record result { profile_id = p.id }; error = some (run_failed e) })
      where
        open r use {result}
    finish_run p (w, r, none) = after_run p w r r.error

    abbrev one : W × RunReport → W × List RunReport
    one (w, r) = (w, r ∷ [])

    -- One turn of the loop.
    unfoldable pub run_if_due : Profile → W → Result ScheduleError Bool → W × List RunReport
    unfolding finish_run
    run_if_due p w (err e) =
        (w, record { result = started p; error = some (schedule_failed e) } ∷ [])
    run_if_due p w (ok false) = (w, [])
    run_if_due p w (ok true) = one (finish_run p (fn p w))

    unfoldable pub run_each : List Profile → W → W × List RunReport
    unfolding run_if_due due
    run_each [] w = (w, [])
    run_each (p ∷ ps) w =
        let (w', r) = run_if_due p w (due clock_minutes duration p now minute) in
        let (w'', rs) = run_each ps w' in (w'', r ++ rs)

  -- The pass over the profiles that the store lists.
  unfoldable pub run_listed :
      StateStore W
      → ProfileRunFunc W
      → ℕ
      → ℕ
      → W
      → Result ManagerError (List Profile)
      → W × Result ManagerError (List RunReport)
  unfolding run_each
  run_listed st fn now minute w (err e) = (w, err e)
  run_listed st fn now minute w (ok ps) =
      let (w', rs) = run_each st fn now minute ps w in (w', ok rs)

  -- `RunDueProfiles`
  unfoldable pub run_due_profiles :
      Option (StateStore W)
      → Option (ProfileRunFunc W)
      → ℕ
      → ℕ
      → W
      → W × Result ManagerError (List RunReport)
  unfolding run_listed profiles
  run_due_profiles st none now minute w = (w, err runner_required)
  run_due_profiles none (some fn) now minute w = (w, err store_required)
  run_due_profiles (some st) (some fn) now minute w =
      run_listed st fn now minute w (profiles (some st) w)

-- What a call of ApplyLocal returns beside its error: the bundle, and whether there was an error.
unfoldable pub bundle_of : Applied → ApplyBundleResult × Bool
bundle_of (refused e) = (nothing_applied, true)
bundle_of (invalid e) = (nothing_applied, true)
bundle_of (blocked issues) = (nothing_applied, true)
bundle_of (failed_with r) = (r, true)
bundle_of (done r) = (r, false)

-- The status of a history record.
unfoldable pub status_of : ApplyBundleResult × Bool → String
status_of (r, failed) =
    if r.rolled_back && leb (length r.revisions) r.rolled_back_count
    then "rolled-back"
    else if failed
    then "failed"
    else "applied"

unfoldable pub history_of :
    String → String → String → String → ℕ → ApplyBundleResult × Bool → HistoryRecord
unfolding status_of
history_of plan_id actor_kind actor_id target now (r, failed) = record {
  id = append_str plan_id "-local";
  plan_id = plan_id;
  actor = append_str actor_kind (append_str ":" actor_id);
  target = target;
  status = status_of (r, failed);
  applied = length r.revisions;
  failed = if failed then 1 else 0;
  rolled_back = if r.rolled_back then r.rolled_back_count else 0;
  detail = if failed then r.errors else [];
  created_at = now;
}

abbrev recorded : {H : Type 0} → Option (StateStore H) → HistoryRecord → H → H
recorded none h s = s
recorded (some st) h s = (st.record_history h s).0

-- `Manager.Apply`, with an adapter; the history has a state of its own.
unfoldable pub apply_recorded :
    {H : Type 0} (a : LocalAdapter)
    → Option (StateStore H)
    → (String → Option String)
    → String
    → String
    → String
    → List Envelope
    → String
    → ℕ
    → a.Store
    → H
    → a.Store × H × Applied
unfolding history_of bundle_of apply_local
apply_recorded a st canonical_digest plan_id actor_kind actor_id source target now store hist =
    let (store', x) = apply_local a canonical_digest source store in
    (store', recorded st (history_of plan_id actor_kind actor_id target now (bundle_of x)) hist, x)

pub record UiProgress : Type 0 where
  pub node : String
  pub state : String
  pub detail : String

-- The switch of `PresentResult`.
unfoldable pub progress_state : NodeResult → String
progress_state n =
    if n.rolled_back
    then "rolled-back"
    else if not (str_eq n.error "")
    then "failed"
    else if n.applied
    then "applied"
    else if n.validated
    then "validated"
    else "pending"

-- `PresentResult`
unfoldable pub present_result : List NodeResult → List UiProgress
unfolding progress_state
present_result [] = []
present_result (n ∷ ns) =
    record { node = n.node; state = progress_state n; detail = n.error } ∷ present_result ns
