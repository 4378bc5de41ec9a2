-- ===== src/Propagation/Execute.antt =====
-- One run of a propagation profile (propagation/profile_execute.go).
pub mod Safe
mod Tests
use gantry_core.Base.{
  ℕ, ◌+◌, Bool, true, false, ◌&&◌, ◌||◌, not, if◌then◌else◌, ◌==◌, String, Option, none, some, List,
  [], ◌∷◌, str_eq, length,
}
use gantry_core.Base.Result.{Result, ok, err, ◌>>=◌, ◌>>◌}
use gantry_core.Propagation.Plan.{Envelope, PlanItem, Change, noop}
use gantry_core.Propagation.Preview.{Preview}
use gantry_core.Propagation.Target.{Member, SelectError, select}
use gantry_core.Propagation.Distributed.{NodePreview, NodeApply, preview_nodes, apply_nodes}
use gantry_core.Propagation.Apply.{ApplyBundleResult}
use gantry_core.Propagation.Schedule.{
  Profile, Mode, automatic, Action, nothing, apply, decide_reconcile,
}
use gantry_core.Propagation.Reconcile.{ProfileError, validate_profile}

pub data ExecuteError : Type 0 where
  profile_invalid : ProfileError → ExecuteError
  callbacks_required reconcile_blocked apply_required : ExecuteError
  select_failed : SelectError → ExecuteError
  export_failed : String → ExecuteError
  partially_failed : ℕ → ExecuteError

pub record ProfileRunResult : Type 0 where
  pub profile_id : String
  pub action : Action
  pub drift : ℕ
  pub applied : ℕ
  pub failed : ℕ

-- `ProfileExecutor`, for one actor. The destinations are one state, which `apply` alone changes. Where
-- the context has ended, `preview` and `apply` return its error.
pub record ProfileExecutor (S : Type 0) : Type 0 where
  pub members : List Member
  pub export : Option (List String → S → Result String (List Envelope))
  pub preview : Option (String → List Envelope → S → Preview × String)
  pub apply_to : Option (String → String → List Envelope → S → S × ApplyBundleResult × String)

pub record Tally : Type 0 where
  pub failed : ℕ
  pub drift : ℕ
  pub blocked : Bool

abbrev is_noop : Change → Bool
is_noop noop = true
is_noop _ = false

abbrev pub changing : List PlanItem → ℕ
changing [] = 0
changing (i ∷ is) = (if is_noop i.change then 0 else 1) + changing is

-- One turn of the loop over the previews.
unfoldable pub tally_one : NodePreview → Tally → Tally
tally_one n t =
    if not (str_eq n.error "") then record t { failed = 1 + t.failed; blocked = true } else record {
      failed = (if n.preview.applicable then 0 else 1) + t.failed;
      drift = changing n.preview.items + t.drift;
      blocked = not n.preview.applicable || t.blocked;
    }

unfoldable pub tally : List NodePreview → Tally
unfolding tally_one
tally [] = record { failed = 0; drift = 0; blocked = false }
tally (n ∷ ns) = tally_one n (tally ns)

-- The loop over what was applied: the nodes that failed, and the revisions of the others.
unfoldable pub tally_applied : List NodeApply → ℕ × ℕ
tally_applied [] = (0, 0)
tally_applied (n ∷ ns) =
    let (failed, applied) = tally_applied ns in
    if str_eq n.error ""
    then (failed, length n.result.revisions + applied)
    else (1 + failed, applied)

abbrev pub is_automatic : Mode → Bool
is_automatic automatic = true
is_automatic _ = false

-- The result that the early returns have.
abbrev pub started : Profile → ProfileRunResult
started p = record { profile_id = p.id; action = nothing; drift = 0; applied = 0; failed = 0 }

-- What an execution leaves: the destinations, the result and the error.
abbrev pub Outcome : Type 0 → Type 0
Outcome S = S × ProfileRunResult × Option ExecuteError

pub record Prepared : Type 0 where
  pub nodes : List String
  pub envelopes : List Envelope
  pub previews : List NodePreview

unfoldable selected : (String → String) → Profile → List Member → Result ExecuteError (List String)
unfolding select
selected lower p members = elim (select lower p.selector members) [
  | ok nodes ↦ ok nodes
  | err e ↦ err (select_failed e)
]

unfoldable valid :
    (String → Option ℕ) → (String → Option ℕ) → Profile → ℕ → Result ExecuteError (Unit {0})
unfolding validate_profile
valid clock_minutes duration p minute = elim (validate_profile clock_minutes duration p minute) [
  | ok u ↦ ok tt
  | err e ↦ err (profile_invalid e)
]

unfoldable exported :
    {S : Type 0}
    → Profile
    → (List String → S → Result String (List Envelope))
    → S
    → Result ExecuteError (List Envelope)
exported p export s = elim (export p.kinds s) [ ok es ↦ ok es | err e ↦ err (export_failed e) ]

unfoldable applied_all : {S : Type 0} → ProfileRunResult → S × List NodeApply → Outcome S
unfolding tally_applied
applied_all out (s, results) =
    let (failed, applied) = tally_applied results in
    (
      s,
      record out { applied = applied; failed = failed },
      if failed == 0 then none else some (partially_failed failed),
    )

-- `order` puts the nodes in the order in which the goroutines call `apply`.
module _ {S : Type 0} (lower : String → String) (clock_minutes : String → Option ℕ)
    (duration : String → Option ℕ) (order : List String → List String) where
  unfoldable previewed :
      Profile
      → (List String → S → Result String (List Envelope))
      → (String → List Envelope → S → Preview × String)
      → S
      → List String
      → Result ExecuteError (Option Prepared)
  unfolding exported preview_nodes
  previewed p export preview s [] = ok none
  previewed p export preview s (n ∷ ns) = exported p export s >>= λ es. ok (
      some
        (record { nodes = n ∷ ns; envelopes = es; previews = preview_nodes preview es s (n ∷ ns) }))

  unfoldable with_callbacks :
      Profile
      → ProfileExecutor S
      → Option (List String → S → Result String (List Envelope))
      → Option (String → List Envelope → S → Preview × String)
      → S
      → Result ExecuteError (Option Prepared)
  unfolding selected previewed
  with_callbacks p x (some export) (some preview) s =
      selected lower p x.members >>= previewed p export preview s
  with_callbacks p x _ _ s = err callbacks_required

  -- `ExecuteProfile` up to the previews. There is none where no node is selected.
  unfoldable pub prepare :
      Profile → ProfileExecutor S → ℕ → S → Result ExecuteError (Option Prepared)
  unfolding valid with_callbacks
  prepare p x minute s =
      valid clock_minutes duration p minute >> with_callbacks p x x.export x.preview s

  -- The case `"apply"` of the decision.
  unfoldable apply_with :
      Option (String → String → List Envelope → S → S × ApplyBundleResult × String)
      → String
      → Prepared
      → ProfileRunResult
      → S
      → Outcome S
  unfolding applied_all apply_nodes
  apply_with none plan_id r out s = (s, out, some apply_required)
  apply_with (some fn) plan_id r out s =
      applied_all out (apply_nodes order (λ n. fn n plan_id) r.envelopes s r.nodes)

  -- The switch on the action. No other action is ever decided.
  unfoldable pub act :
      ProfileExecutor S → String → Prepared → Bool → ProfileRunResult → S → Action → Outcome S
  unfolding apply_with
  act x plan_id r blocked out s apply =
      let out' = record out { action = apply } in
      if blocked then (s, out', some reconcile_blocked) else apply_with x.apply_to plan_id r out' s
  act x plan_id r blocked out s a = (s, record out { action = a }, none)

  -- `ExecuteProfile` from the counts on.
  unfoldable pub reconcile : Profile → ProfileExecutor S → String → Prepared → Tally → S → Outcome S
  unfolding act decide_reconcile
  reconcile p x plan_id r t s =
      let out = record (started p) { drift = t.drift; failed = t.failed } in
      if t.drift == 0 && t.failed == 0
      then (s, out, none)
      else if is_automatic p.mode && t.blocked
      then (s, record out { action = apply }, some reconcile_blocked)
      else act x plan_id r t.blocked out s (decide_reconcile p (not (t.drift == 0))).0

  unfoldable pub go_on :
      Profile → ProfileExecutor S → String → S → Result ExecuteError (Option Prepared) → Outcome S
  unfolding reconcile tally
  go_on p x plan_id s (err e) = (s, started p, some e)
  go_on p x plan_id s (ok none) = (s, started p, none)
  go_on p x plan_id s (ok (some r)) = reconcile p x plan_id r (tally r.previews) s

  -- `ExecuteProfile`, at a minute of the day, with the id that the plan gets from the profile and the
  -- time.
  unfoldable pub execute_profile : Profile → ProfileExecutor S → ℕ → String → S → Outcome S
  unfolding go_on prepare
  execute_profile p x minute plan_id s = go_on p x plan_id s (prepare p x minute s)
