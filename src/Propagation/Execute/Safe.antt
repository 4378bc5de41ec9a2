-- ===== src/Propagation/Execute/Safe.antt =====
-- What a run of a profile may change.
use gantry_core.Base.{
  ◌≡◌, refl, ◌⊎◌, inl, inr, ℕ, Bool, true, false, not, ◌&&◌, ◌||◌, if◌then◌else◌, ◌==◌, Bool-cases,
  String, Option, none, some, List, [], ◌∷◌, str_eq, arith, All,
}
use gantry_core.Base.Result.{Result, ok, err}
use gantry_core.Propagation.Schedule.{
  Profile, Mode, notify_only, approval_required, automatic, other_mode, Action, nothing, notify,
  plan, apply, mode_action, decide_reconcile,
}
use gantry_core.Propagation.Distributed.{NodePreview}
use gantry_core.Propagation.Execute.{
  ProfileExecutor, Prepared, ProfileRunResult, Tally, ExecuteError, started, is_automatic, tally,
  tally_one, act, reconcile, go_on, prepare, execute_profile,
}

-- A preview that came back and has no issue.
abbrev pub Sound : NodePreview → Type 0
Sound n = (str_eq n.error "" ≡ true) × (n.preview.applicable ≡ true)

-- What lets a profile change its destinations.
abbrev pub Cleared : Profile → List NodePreview → Type 0
Cleared p previews = (p.mode ≡ automatic) × (p.enabled ≡ true) × All Sound previews

tally_one-blocked :
    (n : NodePreview) (t : Tally) → (tally_one n t).blocked ≡ false → Sound n × (t.blocked ≡ false)
unfolding tally_one
tally_one-blocked n t h = elim (Bool-cases (str_eq n.error "")) [
  | inl e ↦ ((e, ground (arith, h, e)), ground (arith, h, e))
  | inr e ↦ ground (arith, h, e)
]

tally-blocked : (ns : List NodePreview) → (tally ns).blocked ≡ false → All Sound ns
unfolding tally
tally-blocked [] h = tt
tally-blocked (n ∷ ns) h =
    let (sound, rest) = tally_one-blocked n (tally ns) h in (sound, tally-blocked ns rest)

mode_action-apply : (m : Mode) → (mode_action m).0 ≡ apply → m ≡ automatic
unfolding mode_action
mode_action-apply automatic h = refl
mode_action-apply notify_only h = cc
mode_action-apply approval_required h = cc
mode_action-apply (other_mode m) h = cc

unless_apply :
    (b : Bool) (a : Action × Bool)
    → (if b then (nothing, false) else a).0 ≡ apply
    → (b ≡ false) × (a.0 ≡ apply)
unless_apply true a h = cc
unless_apply false a h = (refl, h)

decide_reconcile-apply :
    (p : Profile) (drift : Bool)
    → (decide_reconcile p drift).0 ≡ apply
    → (p.mode ≡ automatic) × (p.enabled ≡ true)
unfolding decide_reconcile
decide_reconcile-apply p drift h =
    let (on, applies) = unless_apply (not drift || not p.enabled) (mode_action p.mode) h in
    (mode_action-apply p.mode applies, ground (arith, on))

module _ {S : Type 0} (lower : String → String) (clock_minutes : String → Option ℕ)
    (duration : String → Option ℕ) (order : List String → List String) where
  act_same :
      (x : ProfileExecutor S) (plan_id : String) (r : Prepared) (b : Bool) (out : ProfileRunResult)
      (s : S) (a : Action)
      → ((act lower clock_minutes duration order x plan_id r b out s a).0 ≡ s)
        ⊎ ((a ≡ apply) × (b ≡ false))
  unfolding act
  act_same x plan_id r true out s apply = inl refl
  act_same x plan_id r false out s apply = inr (refl, refl)
  act_same x plan_id r b out s nothing = inl refl
  act_same x plan_id r b out s notify = inl refl
  act_same x plan_id r b out s plan = inl refl

  reconcile_same :
      (p : Profile) (x : ProfileExecutor S) (plan_id : String) (r : Prepared) (s : S)
      → ((reconcile lower clock_minutes duration order p x plan_id r (tally r.previews) s).0 ≡ s)
        ⊎ Cleared p r.previews
  unfolding reconcile
  reconcile_same p x plan_id r s =
      let t = tally r.previews in
      let out : ProfileRunResult = record (started p) { drift = t.drift; failed = t.failed } in
      elim (Bool-cases (t.drift == 0 && t.failed == 0)) [
        | inl e ↦ rw e (inl refl)
        | inr e ↦ rw e (elim (Bool-cases (is_automatic p.mode && t.blocked)) [
          | inl f ↦ rw f (inl refl)
          | inr f ↦ rw f (
              decided
                (act_same x plan_id r t.blocked out s (decide_reconcile p (not (t.drift == 0))).0))
        ])
      ]
    where
      decided :
          {A : Type 0}
          → A
            ⊎ (((decide_reconcile p (not ((tally r.previews).drift == 0))).0 ≡ apply)
                × ((tally r.previews).blocked ≡ false))
          → A ⊎ Cleared p r.previews
      decided (inl same) = inl same
      decided (inr (h, clear)) =
          let (mode, on) = decide_reconcile-apply p (not ((tally r.previews).drift == 0)) h in
          inr (mode, on, tally-blocked r.previews clear)

  -- The result of a run with a preparation.
  abbrev pub Justified : Profile → ProfileExecutor S → ℕ → S → Type 0
  Justified p x minute s =
      (r : Prepared) × (prepare lower clock_minutes duration order p x minute s ≡ ok (some r))
      × Cleared p r.previews

  go_on_same :
      (p : Profile) (x : ProfileExecutor S) (minute : ℕ) (plan_id : String) (s : S)
      (found : Result ExecuteError (Option Prepared))
      → prepare lower clock_minutes duration order p x minute s ≡ found
      → ((go_on lower clock_minutes duration order p x plan_id s found).0 ≡ s)
        ⊎ Justified p x minute s
  unfolding go_on
  go_on_same p x minute plan_id s (err e) h = inl refl
  go_on_same p x minute plan_id s (ok none) h = inl refl
  go_on_same p x minute plan_id s (ok (some r)) h = elim (reconcile_same p x plan_id r s) [
    | inl same ↦ inl same
    | inr cleared ↦ inr (r, h, cleared)
  ]

  -- A run of a profile leaves every destination as it was, unless the profile is automatic and enabled
  -- and the run had a preview of every selected node without an error and without an issue. In the
  -- other modes, and where one preview is missing or not applicable, nothing changes.
  pub execute_profile-Justified :
      (p : Profile) (x : ProfileExecutor S) (minute : ℕ) (plan_id : String) (s : S)
      → ((execute_profile lower clock_minutes duration order p x minute plan_id s).0 ≡ s)
        ⊎ Justified p x minute s
  unfolding execute_profile
  execute_profile-Justified p x minute plan_id s =
      go_on_same p x minute plan_id s (prepare lower clock_minutes duration order p x minute s) refl
