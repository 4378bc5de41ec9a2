-- ===== src/Propagation/Schedule.antt =====
-- When a propagation profile runs, and what it then does (propagation/schedule.go, reconcile.go).
-- `time.ParseDuration` and `time.Parse` of a clock time in minutes are parameters. Times are in
-- nanoseconds, with the minute of the local day beside them.
use Prim.Native.String.{find, slice, len}
use gantry_core.Base.{
  ℕ, ◌+◌, ◌-◌, ◌%◌, ◌<◌, ◌≢◌, ◌≡◌, refl, Bool, true, false, not, ◌&&◌, ◌||◌, if◌then◌else◌, ltb,
  leb, ◌==◌, List, String, Option, none, some, str_eq, arith,
}
use gantry_core.Propagation.Target.{Selector}
use gantry_core.Base.Text.{trim_space}
use gantry_core.Base.Result.{Result, ok, err, ◌>>=◌, Holds, holds, failed, Holds-if, Holds-weaken}

pub data Mode : Type 0 where
  notify_only approval_required automatic : Mode
  other_mode : String → Mode

pub record Profile : Type 0 where
  pub id : String
  pub name : String
  pub selector : Selector
  pub kinds : List String
  pub mode : Mode
  pub schedule : String
  pub maintenance_window : String
  pub enabled : Bool
  pub last_run_at : Option ℕ

pub data ScheduleError : Type 0 where
  schedule_invalid window_invalid : ScheduleError

pub data Action : Type 0 where
  nothing notify plan apply : Action

-- The comparisons at the end of `InMaintenanceWindow`.
unfoldable pub in_window : ℕ → ℕ → ℕ → Bool
in_window a b cur =
    if a == b then true else if ltb a b then leb a cur && ltb cur b else leb a cur || ltb cur b

-- `strings.Split(window, "-")`, where it has two parts.
unfoldable pub split_window : String → Option (String × String)
split_window w =
    let at = find w "-" in
    let rest = slice w (at + 1) (len w) in
    if not (ltb at (len w)) || ltb (find rest "-") (len rest)
    then none
    else some (slice w 0 at, rest)

-- The switch of `DecideReconcile`.
unfoldable pub mode_action : Mode → Action × Bool
mode_action notify_only = (notify, false)
mode_action approval_required = (plan, true)
mode_action automatic = (apply, false)
mode_action (other_mode m) = (nothing, false)

-- `DecideReconcile`, on whether there is drift.
unfoldable pub decide_reconcile : Profile → Bool → Action × Bool
unfolding mode_action
decide_reconcile p drift =
    if not drift || not p.enabled then (nothing, false) else mode_action p.mode

module _ (clock_minutes : String → Option ℕ) (duration : String → Option ℕ) where
  -- `parse`
  unfoldable pub parse_clock : String → Result ScheduleError ℕ
  parse_clock s = elim (clock_minutes (trim_space s)) [ none ↦ err window_invalid | some m ↦ ok m ]

  unfoldable pub parse_window : String → Result ScheduleError (ℕ × ℕ)
  unfolding split_window parse_clock
  parse_window w = elim (split_window w) [
    | none ↦ err window_invalid
    | some (from, to) ↦ parse_clock from >>= λ a. parse_clock to >>= λ b. ok (a, b)
  ]

  -- `InMaintenanceWindow`
  unfoldable pub in_maintenance_window : String → ℕ → Result ScheduleError Bool
  unfolding parse_window in_window
  in_maintenance_window window minute =
      if str_eq (trim_space window) ""
      then ok true
      else (parse_window (trim_space window) >>= λ (a, b). ok (in_window a b minute))

  -- Whether the interval since the last run is over.
  unfoldable pub elapsed : Option ℕ → ℕ → ℕ → Bool
  elapsed none d now = true
  elapsed (some last) d now = not (ltb now (last + d))

  -- `Due` after the test of the profile.
  unfoldable pub due_by : Profile → Option ℕ → ℕ → ℕ → Result ScheduleError Bool
  unfolding elapsed in_maintenance_window
  due_by p none now minute = err schedule_invalid
  due_by p (some d) now minute =
      if d == 0
      then err schedule_invalid
      else if elapsed p.last_run_at d now
      then in_maintenance_window p.maintenance_window minute
      else ok false

  -- `Due`
  unfoldable pub due : Profile → ℕ → ℕ → Result ScheduleError Bool
  unfolding due_by
  due p now minute =
      if not p.enabled || str_eq (trim_space p.schedule) ""
      then ok false
      else due_by p (duration p.schedule) now minute

  -- Where a profile is due it is enabled, its schedule is a positive duration that has passed since its
  -- last run, and the minute lies in its maintenance window.
  abbrev pub Ready : Profile → ℕ → ℕ → Bool → Type 0
  Ready p now minute false = Unit
  Ready p now minute true =
      (p.enabled ≡ true)
      × ((d : ℕ) × (duration p.schedule ≡ some d) × (d ≢ 0) × (elapsed p.last_run_at d now ≡ true))
      × (in_maintenance_window p.maintenance_window minute ≡ ok true)

  due_by-Ready :
      (p : Profile) (now minute : ℕ)
      → p.enabled ≡ true
      → (o : Option ℕ) → duration p.schedule ≡ o
      → Holds (Ready p now minute) (due_by p o now minute)
  unfolding due_by
  due_by-Ready p now minute on none h = failed
  due_by-Ready p now minute on (some d) h =
      Holds-if (d == 0) _ _ (λ e. failed)
        (λ e.
          Holds-if (elapsed p.last_run_at d now) _ _
            (λ f.
              Holds-weaken (itself (in_maintenance_window p.maintenance_window minute))
                (λ b g. ready b (ground (arith, e)) f g))
            (λ f. holds tt))
    where
      itself : (r : Result ScheduleError Bool) → Holds (λ b. r ≡ ok b) r
      itself (ok b) = holds refl
      itself (err e) = failed

      ready :
          (b : Bool)
          → d ≢ 0
          → elapsed p.last_run_at d now ≡ true
          → in_maintenance_window p.maintenance_window minute ≡ ok b
          → Ready p now minute b
      ready true positive over g = (on, (d, h, positive, over), g)
      ready false positive over g = tt

  -- A profile that is due is enabled, its schedule is a positive duration that has passed since its
  -- last run if it had one, and the minute of the day lies in its maintenance window.
  pub due-Ready : (p : Profile) (now minute : ℕ) → Holds (Ready p now minute) (due p now minute)
  unfolding due
  due-Ready p now minute =
      Holds-if (not p.enabled || str_eq (trim_space p.schedule) "") _ _ (λ e. holds tt)
        (λ e. due_by-Ready p now minute (ground (arith, e)) (duration p.schedule) refl)

-- On the circle of the 1440 minutes of a day, a time is in a window that is not all day exactly if it
-- comes after the start by less than the end does. Windows over midnight are no exception.
pub in_window-circle :
    (a b cur : ℕ)
    → a < 1440
    → b < 1440
    → cur < 1440
    → a ≢ b
    → in_window a b cur ≡ ltb ((cur + (1440 - a)) % 1440) ((b + (1440 - a)) % 1440)
unfolding in_window
in_window-circle a b cur ha hb hc differ = ground arith
