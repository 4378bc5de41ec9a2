-- ===== src/Propagation/Preview.antt =====
-- What stands in the way of a plan (propagation/preview.go).
use gantry_core.Base.{
  ◌≡◌, refl, ◌∙◌, inl, inr, Bool, true, false, not, ◌&&◌, ◌||◌, if◌then◌else◌, Bool-cases, String,
  Option, none, some, List, [], ◌∷◌, ◌++◌, str_eq, arith, Assoc, lookup, has,
}
use gantry_core.Base.Sort.{str_leb, insert_sorted, sort_by}
use gantry_core.Base.Int.{ℤ, leb_ℤ}
use gantry_core.Base.Result.{Result, ok, err, ◌>>=◌, Holds, holds, failed}
use gantry_core.Propagation.Plan.{
  Envelope, SecretRef, Existing, PlanItem, PlanError, key, with_sorted, all_sorted, diff,
}

pub data Issue : Type 0 where
  incompatible_schema : String → ℤ → Issue
  missing_dependency missing_secret permission_denied : String → String → Issue

-- The maps to `true` are the lists of their keys.
pub record TargetState : Type 0 where
  pub existing : Assoc Existing
  pub supported_schemas : Assoc ℤ
  pub dependencies : List String
  pub secrets : List String
  pub permissions : List String

pub record Preview : Type 0 where
  pub items : List PlanItem
  pub issues : List Issue
  pub applicable : Bool

-- `max, ok := target.SupportedSchemas[e.Kind]; !ok || e.SchemaVersion > max`
unfoldable pub schema_supported : Option ℤ → ℤ → Bool
schema_supported none v = false
schema_supported (some max) v = leb_ℤ v max

unfoldable pub dependency_issues : TargetState → String → List String → List Issue
dependency_issues t object [] = []
dependency_issues t object (d ∷ ds) =
    let rest = dependency_issues t object ds in
    if has d t.dependencies then rest else missing_dependency object d ∷ rest

unfoldable pub secret_issues : TargetState → String → List SecretRef → List Issue
secret_issues t object [] = []
secret_issues t object (s ∷ ss) =
    let rest = secret_issues t object ss in
    if s.required && not (has s.name t.secrets) then missing_secret object s.name ∷ rest else rest

-- One turn of the loop of `DryRun`.
unfoldable pub envelope_issues : TargetState → Envelope → List Issue
unfolding schema_supported dependency_issues secret_issues lookup
envelope_issues t e =
    (if schema_supported (lookup e.kind t.supported_schemas) e.schema_version
      then []
      else incompatible_schema (key e) e.schema_version ∷ [])
    ++ dependency_issues t (key e) e.dependencies
    ++ secret_issues t (key e) e.secrets
    ++ (if not (str_eq e.permission "") && not (has e.permission t.permissions)
        then permission_denied (key e) e.permission ∷ []
        else [])

unfoldable pub source_issues : TargetState → List Envelope → List Issue
unfolding envelope_issues
source_issues t [] = []
source_issues t (e ∷ es) = envelope_issues t e ++ source_issues t es

abbrev pub is_nil {ℓ} : {A : Type ℓ} → List A → Bool
is_nil [] = true
is_nil (x ∷ xs) = false

-- `DryRun`. Its plan has sorted the dependencies of the source.
unfoldable pub dry_run :
    (String → Option String) → List Envelope → TargetState → Bool → Result PlanError Preview
unfolding source_issues diff with_sorted
dry_run canonical_digest source t allow_delete =
    diff canonical_digest source t.existing allow_delete >>= λ items. ok (record {
      items = items;
      issues = source_issues t (all_sorted source);
      applicable = is_nil (source_issues t (all_sorted source));
    })

-- Whether the target can take an envelope.
abbrev pub all_known : List String → List String → Bool
all_known known [] = true
all_known known (x ∷ xs) = has x known && all_known known xs

abbrev pub secrets_known : List String → List SecretRef → Bool
secrets_known known [] = true
secrets_known known (s ∷ ss) = (not s.required || has s.name known) && secrets_known known ss

abbrev pub takes : TargetState → Envelope → Bool
takes t e =
    schema_supported (lookup e.kind t.supported_schemas) e.schema_version
    && all_known t.dependencies e.dependencies
    && secrets_known t.secrets e.secrets
    && (str_eq e.permission "" || has e.permission t.permissions)

abbrev pub takes_all : TargetState → List Envelope → Bool
takes_all t [] = true
takes_all t (e ∷ es) = takes t e && takes_all t es

is_nil-append : {A : Type 0} (xs ys : List A) → is_nil (xs ++ ys) ≡ (is_nil xs && is_nil ys)
is_nil-append [] ys = refl
is_nil-append (x ∷ xs) ys = refl

is_nil-if :
    {A : Type 0} (b : Bool) (xs ys : List A)
    → is_nil (if b then xs else ys) ≡ (if b then is_nil xs else is_nil ys)
is_nil-if true xs ys = refl
is_nil-if false xs ys = refl

is_nil-dependency_issues :
    (t : TargetState) (object : String) (ds : List String)
    → is_nil (dependency_issues t object ds) ≡ all_known t.dependencies ds
unfolding dependency_issues
is_nil-dependency_issues t object [] = refl
is_nil-dependency_issues t object (d ∷ ds) = elim (Bool-cases (has d t.dependencies)) [
  | inl e ↦ rw e (is_nil-dependency_issues t object ds)
  | inr e ↦ rw e refl
]

is_nil-secret_issues :
    (t : TargetState) (object : String) (ss : List SecretRef)
    → is_nil (secret_issues t object ss) ≡ secrets_known t.secrets ss
unfolding secret_issues
is_nil-secret_issues t object [] = refl
is_nil-secret_issues t object (s ∷ ss) =
    is_nil-if (s.required && not (has s.name t.secrets)) _ _
    ∙ rw (is_nil-secret_issues t object ss) (ground arith)

is_nil-envelope_issues : (t : TargetState) (e : Envelope) → is_nil (envelope_issues t e) ≡ takes t e
unfolding envelope_issues
is_nil-envelope_issues t e =
    simp (is_nil-append, is_nil-if, is_nil-dependency_issues, is_nil-secret_issues) (ground arith)

is_nil-source_issues :
    (t : TargetState) (es : List Envelope) → is_nil (source_issues t es) ≡ takes_all t es
unfolding source_issues
is_nil-source_issues t [] = refl
is_nil-source_issues t (e ∷ es) =
    is_nil-append (envelope_issues t e) (source_issues t es)
    ∙ rw (is_nil-envelope_issues t e, is_nil-source_issues t es) refl

all_known-insert_sorted :
    (known : List String) (a : String) (xs : List String)
    → all_known known (insert_sorted str_leb a xs) ≡ (has a known && all_known known xs)
unfolding insert_sorted
all_known-insert_sorted known a [] = refl
all_known-insert_sorted known a (x ∷ xs) = elim (Bool-cases (str_leb a x)) [
  | inl e ↦ rw e refl
  | inr e ↦ rw (e, all_known-insert_sorted known a xs) (ground arith)
]

all_known-sort_by :
    (known xs : List String) → all_known known (sort_by str_leb xs) ≡ all_known known xs
unfolding sort_by
all_known-sort_by known [] = refl
all_known-sort_by known (x ∷ xs) =
    all_known-insert_sorted known x (sort_by str_leb xs) ∙ rw (all_known-sort_by known xs) refl

takes_all-all_sorted :
    (t : TargetState) (es : List Envelope) → takes_all t (all_sorted es) ≡ takes_all t es
unfolding with_sorted
takes_all-all_sorted t [] = refl
takes_all-all_sorted t (e ∷ es) =
    rw (all_known-sort_by t.dependencies e.dependencies, takes_all-all_sorted t es) refl

-- A dry run that has a plan finds it applicable exactly when the target can take every envelope: its
-- schema is supported, its dependencies and required secrets are there, and its permission is held.
pub dry_run-takes_all :
    (canonical_digest : String → Option String) (source : List Envelope) (t : TargetState)
    (allow_delete : Bool)
    → Holds
        (λ (p : Preview). p.applicable ≡ takes_all t source)
        (dry_run canonical_digest source t allow_delete)
unfolding dry_run
dry_run-takes_all canonical_digest source t allow_delete =
    go (diff canonical_digest source t.existing allow_delete)
  where
    go :
        (r : Result PlanError (List PlanItem))
        → Holds
            (λ (p : Preview). p.applicable ≡ takes_all t source)
            (r >>= λ items. ok (record {
              items = items;
              issues = source_issues t (all_sorted source);
              applicable = is_nil (source_issues t (all_sorted source));
            }))
    go (err e) = failed
    go (ok items) =
        holds (is_nil-source_issues t (all_sorted source) ∙ takes_all-all_sorted t source)
