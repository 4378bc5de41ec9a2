-- ===== src/Propagation/Apply.antt =====
-- Applying envelopes on a node, and taking them back when one fails (propagation/runtime.go).
pub mod Atomic
use gantry_core.Base.{
  Bool, true, false, not, if◌then◌else◌, String, Option, none, some, List, [], ◌∷◌, ◌++◌, str_eq,
  Assoc, lookup, ℕ, ◌+◌,
}
use gantry_core.Base.Int.{pos}
use gantry_core.Base.Sort.{sort_by, str_leb}
use gantry_core.Base.Result.{Result, ok, err, ◌>>=◌}
use gantry_core.Propagation.Plan.{
  Envelope, Existing, PlanError, key, split_key, with_sorted, all_sorted,
}
use gantry_core.Propagation.Preview.{TargetState, Preview, Issue, dry_run}

pub record ObjectState : Type 0 where
  pub existing : Existing
  pub payload : String
  pub reversible : Bool

pub record AppliedRevision : Type 0 where
  pub kind : String
  pub id : String
  pub before_revision : ℕ
  pub after_revision : ℕ
  pub reversible : Bool

-- `LocalAdapter`, for one actor, on the state of the node.
pub record LocalAdapter : Type 1 where
  pub Store : Type 0
  pub target_state : List Envelope → Store → Result String TargetState
  pub snapshot : List String → Store → Result String (Assoc ObjectState)
  pub apply : Envelope → Store → Store × Result String AppliedRevision
  pub restore : ObjectState → Store → Store × Option String

-- `errors` holds the messages that the code joins into one.
pub record ApplyBundleResult : Type 0 where
  pub revisions : List AppliedRevision
  pub rolled_back : Bool
  pub rolled_back_count : ℕ
  pub errors : List String

-- What a call returns: an error before anything was applied, an error with the bundle, or the bundle.
pub data Applied : Type 0 where
  refused : String → Applied
  invalid : PlanError → Applied
  blocked : List Issue → Applied
  failed_with : ApplyBundleResult → Applied
  done : ApplyBundleResult → Applied

abbrev pub nothing_applied : ApplyBundleResult
nothing_applied = record { revisions = []; rolled_back = false; rolled_back_count = 0; errors = [] }

abbrev pub kinds_of : List Envelope → List String
kinds_of [] = []
kinds_of (e ∷ es) = e.kind ∷ kinds_of es

-- An object of which nothing but its kind and id is set.
abbrev pub named_only : String → String → Existing
named_only kind id = record {
  kind = kind;
  id = id;
  digest = "";
  owner = "";
  revision = pos 0;
  schema_version = pos 0;
}

-- The state to restore where there was no object. A key always has a slash.
unfoldable pub missing_state : String → ObjectState
unfolding split_key
missing_state k = elim (split_key k) [
  | ok (kind, id) ↦ record { existing = named_only kind id; payload = ""; reversible = true }
  | err e ↦ record { existing = named_only k ""; payload = ""; reversible = true }
]

-- `state, ok := before[applied[i]]`
unfoldable pub state_before : Assoc ObjectState → String → ObjectState
unfolding missing_state lookup
state_before before k = elim (lookup k before) [ none ↦ missing_state k | some s ↦ s ]

abbrev pub revision_leb : AppliedRevision → AppliedRevision → Bool
revision_leb x y = if str_eq x.kind y.kind then str_leb x.id y.id else str_leb x.kind y.kind

-- `if err != nil`
abbrev pub on_result {ℓ} : {R : Type 0} {A : Type ℓ} → Result String R → (R → A) → (String → A) → A
on_result (ok r) go stop = go r
on_result (err m) go stop = stop m

module _ (a : LocalAdapter) where
  -- What one restore leaves in the bundle.
  unfoldable pub restored : Option String → ApplyBundleResult → ApplyBundleResult
  restored none out = record out {
    rolled_back = true;
    rolled_back_count = out.rolled_back_count + 1;
  }
  restored (some e) out = record out { errors = out.errors ++ (e ∷ []) }

  -- The loop that goes back through `applied`, whose last key is first here.
  unfoldable pub roll_back :
      Assoc ObjectState → List String → a.Store → ApplyBundleResult → a.Store × ApplyBundleResult
  unfolding restored state_before
  roll_back before [] store out = (store, out)
  roll_back before (k ∷ applied) store out =
      let s = state_before before k in
      let (store', e) = a.restore s store in
      let skipped = roll_back before applied store out in
      let gone_on = roll_back before applied store' (restored e out) in
      if s.reversible then gone_on else skipped

  -- The loop over the source.
  unfoldable pub apply_all :
      Assoc ObjectState
      → List Envelope
      → List String
      → a.Store
      → ApplyBundleResult
      → a.Store × Applied
  unfolding roll_back
  apply_all before [] applied store out =
      (store, done (record out { revisions = sort_by revision_leb out.revisions }))
  apply_all before (e ∷ es) applied store out =
      let (store', result) = a.apply e store in
      on_result result
        (λ r.
          apply_all before es (key e ∷ applied) store'
            (record out { revisions = out.revisions ++ (r ∷ []) }))
        (λ m.
          let (back, out') =
            roll_back before applied store' (record out { errors = out.errors ++ (m ∷ []) }) in
          (back, failed_with out'))

  -- `PreviewLocal`, with no deletions
  unfoldable pub preview_local :
      (String → Option String) → List Envelope → a.Store → Result String (Result PlanError Preview)
  unfolding dry_run
  preview_local canonical_digest source store =
      a.target_state source store >>= λ t. ok (dry_run canonical_digest source t false)

  -- The loop over the source, whose dependencies the preview has sorted.
  unfoldable pub apply_previewed : List Envelope → a.Store → Preview → a.Store × Applied
  unfolding apply_all with_sorted
  apply_previewed source store p =
      if not p.applicable
      then (store, blocked p.issues)
      else on_result (a.snapshot (kinds_of source) store)
          (λ before. apply_all before (all_sorted source) [] store nothing_applied)
          (λ m. (store, refused m))

  unfoldable pub apply_after :
      List Envelope → a.Store → Result String (Result PlanError Preview) → a.Store × Applied
  unfolding apply_previewed
  apply_after source store (err m) = (store, refused m)
  apply_after source store (ok (err e)) = (store, invalid e)
  apply_after source store (ok (ok p)) = apply_previewed source store p

  -- `ApplyLocal`
  unfoldable pub apply_local :
      (String → Option String) → List Envelope → a.Store → a.Store × Applied
  unfolding apply_after preview_local
  apply_local canonical_digest source store =
      apply_after source store (preview_local canonical_digest source store)
