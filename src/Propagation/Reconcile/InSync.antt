-- ===== src/Propagation/Reconcile/InSync.antt =====
-- When a node has drifted from what is expected of it.
use gantry_core.Base.{
  ◌≡◌, refl, ap, inl, inr, ◌∙◌, Bool, true, false, ◌&&◌, if◌then◌else◌, Bool-cases, String, Option,
  none, some, List, [], ◌∷◌, str_eq, Assoc, lookup,
}
use gantry_core.Base.Sort.{sort_by, insert_sorted}
use gantry_core.Propagation.Plan.{Envelope, Existing, key}
use gantry_core.Propagation.Preview.{is_nil}
use gantry_core.Propagation.Reconcile.{Drift, differs, drift_from, drift_leb, detect_drift}

-- Every expected object is there, with its digest.
abbrev pub same_digest : Option Existing → String → Bool
same_digest none digest = false
same_digest (some a) digest = str_eq a.digest digest

abbrev pub in_sync : Assoc Existing → List Envelope → Bool
in_sync actual [] = true
in_sync actual (e ∷ es) = same_digest (lookup (key e) actual) e.digest && in_sync actual es

is_nil-insert_sorted :
    {A : Type 0} (order : A → A → Bool) (a : A) (xs : List A)
    → is_nil (insert_sorted order a xs) ≡ false
unfolding insert_sorted
is_nil-insert_sorted order a [] = refl
is_nil-insert_sorted order a (x ∷ xs) = elim (Bool-cases (order a x)) [
  | inl e ↦ rw e refl
  | inr e ↦ rw e refl
]

is_nil-sort_by :
    {A : Type 0} (order : A → A → Bool) (xs : List A) → is_nil (sort_by order xs) ≡ is_nil xs
unfolding sort_by
is_nil-sort_by order [] = refl
is_nil-sort_by order (x ∷ xs) = is_nil-insert_sorted order x (sort_by order xs)

is_nil-differs :
    (o : Option Existing) (digest : String) (one : Drift) (rest : List Drift)
    → is_nil (if differs o digest then one ∷ rest else rest) ≡ (same_digest o digest && is_nil rest)
is_nil-differs none digest one rest = refl
is_nil-differs (some a) digest one rest = elim (Bool-cases (str_eq a.digest digest)) [
  | inl e ↦ rw e refl
  | inr e ↦ rw e refl
]

is_nil-drift_from :
    (node : String) (actual : Assoc Existing) (expected : List Envelope)
    → is_nil (drift_from node actual expected) ≡ in_sync actual expected
unfolding drift_from
is_nil-drift_from node actual [] = refl
is_nil-drift_from node actual (e ∷ es) =
    is_nil-differs (lookup (key e) actual) e.digest _ (drift_from node actual es)
    ∙ ap (λ b. same_digest (lookup (key e) actual) e.digest && b) (is_nil-drift_from node actual es)

-- A node shows no drift exactly if it has every expected object with the expected digest.
pub detect_drift-in_sync :
    (node : String) (expected : List Envelope) (actual : Assoc Existing)
    → is_nil (detect_drift node expected actual) ≡ in_sync actual expected
unfolding detect_drift
detect_drift-in_sync node expected actual =
    is_nil-sort_by drift_leb (drift_from node actual expected)
    ∙ is_nil-drift_from node actual expected
