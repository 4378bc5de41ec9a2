-- ===== src/Propagation/Plan/Changes.antt =====
-- What a plan changes, stated by the policy of each envelope.
use gantry_core.Base.{
  ◌≡◌, refl, ap, subst, inl, inr, Bool, true, false, not, ◌&&◌, ◌||◌, if◌then◌else◌, Bool-cases,
  String, Option, none, some, List, [], ◌∷◌, ◌++◌, str_eq, arith, Assoc, lookup, All,
}
use gantry_core.Base.Int.{pos, leb_ℤ}
use gantry_core.Base.Sort.{sort_by, sort_by-perm}
use gantry_core.Base.Result.{Result, ok, err, ◌>>=◌, Holds, holds, Holds->>=}
use mathlib.Core.List.{Perm, map, append-nil}
use mathlib.Core.List.Perm
use gantry_core.Propagation.Plan.{
  Envelope, Existing, PlanItem, PlanError, Change, create, update, noop, conflict_found, reject,
  source_wins, destination_wins, manual, authoritative, merge, unsupported, key,
  is_destination_wins, resolve_conflict, resolve_older, diff_item, diff_source, diff,
  validate_envelope, item_leb,
}
use gantry_core.Propagation.Plan.Ordered.{InOrder, sort_by-InOrder}
use gantry_core.Propagation.Plan.Validated.{Valid, validate_envelope-Valid}

-- Whether an envelope may write over an object that differs from it.
abbrev pub may_write : Envelope → Existing → Bool
may_write e d = elim e.conflict [
  | source_wins ↦ true
  | destination_wins ↦ false
  | authoritative ↦
      not (leb_ℤ e.revision d.revision) || str_eq d.owner "" || str_eq d.owner e.source_node
  | merge ↦ not (leb_ℤ e.revision d.revision)
  | manual ↦ not (leb_ℤ e.revision d.revision)
  | reject ↦ not (leb_ℤ e.revision d.revision)
  | unsupported name ↦ not (leb_ℤ e.revision d.revision)
]

abbrev pub is_update : Change → Bool
is_update update = true
is_update _ = false

abbrev pub is_conflict : Change → Bool
is_conflict conflict_found = true
is_conflict _ = false

resolve_conflict-may_write :
    (e : Envelope) (d : Existing) → is_update (resolve_conflict e d).0 ≡ may_write e d
unfolding resolve_conflict resolve_older
resolve_conflict-may_write e d = ground arith

-- The policy of the envelope alone decides between a conflict and silence.
resolve_conflict-refuses :
    (e : Envelope) (d : Existing)
    → is_conflict (resolve_conflict e d).0
      ≡ (not (may_write e d) && not (is_destination_wins e.conflict))
unfolding resolve_conflict resolve_older
resolve_conflict-refuses e d = ground arith

-- What an envelope should do: create what is not there, leave what is the same, write over what its
-- policy and its revision allow, be silent where the destination wins, and report the rest.
abbrev pub expected : Assoc Existing → Envelope → Change
expected dest e = elim (lookup (key e) dest) [
  | none ↦ create
  | some d ↦
      if str_eq d.digest e.digest
      then noop
      else if may_write e d
      then update
      else if is_destination_wins e.conflict
      then noop
      else conflict_found
]

resolve_conflict-expected :
    (e : Envelope) (d : Existing)
    → (resolve_conflict e d).0 ≡ (
        if may_write e d
        then update
        else if is_destination_wins e.conflict
        then noop
        else conflict_found)
unfolding resolve_conflict resolve_older
resolve_conflict-expected e d = ground arith

abbrev pub Summary : Type 0
Summary = String × String × Change

abbrev pub summary : PlanItem → Summary
summary i = (i.kind, i.id, i.change)

-- What a plan should say of an envelope.
abbrev pub expected_summary : Assoc Existing → Envelope → Summary
expected_summary dest e = (e.kind, e.id, expected dest e)

diff_item-summary :
    (dest : Assoc Existing) (e : Envelope) → summary (diff_item dest e) ≡ expected_summary dest e
unfolding diff_item
diff_item-summary dest e = found (lookup (key e) dest)
  where
    found :
        (o : Option Existing)
        → summary (elim o [
          | none ↦ record {
            kind = e.kind;
            id = e.id;
            change = create;
            reason = "";
            from_revision = pos 0;
            to_revision = e.revision;
          }
          | some d ↦
              if str_eq d.digest e.digest
              then record {
                kind = e.kind;
                id = e.id;
                change = noop;
                reason = "";
                from_revision = d.revision;
                to_revision = e.revision;
              }
              else record {
                kind = e.kind;
                id = e.id;
                change = (resolve_conflict e d).0;
                reason = (resolve_conflict e d).1;
                from_revision = d.revision;
                to_revision = e.revision;
              }
        ])
          ≡ (
            e.kind,
            e.id,
            elim o [
              | none ↦ create
              | some d ↦
                  if str_eq d.digest e.digest
                  then noop
                  else if may_write e d
                  then update
                  else if is_destination_wins e.conflict
                  then noop
                  else conflict_found
            ],
          )
    found none = refl
    found (some d) = elim (Bool-cases (str_eq d.digest e.digest)) [
      | inl h ↦ rw h refl
      | inr h ↦ rw h (ap (λ (c : Change). (e.kind, e.id, c)) (resolve_conflict-expected e d))
    ]

map-summary :
    (dest : Assoc Existing) (es : List Envelope)
    → map summary (map (diff_item dest) es) ≡ map (expected_summary dest) es
map-summary dest [] = refl
map-summary dest (e ∷ es) = rw (diff_item-summary dest e, map-summary dest es) refl

-- The plan of a source, by what its validation comes to.
pub data Planned (canonical_digest : String → Option String) (dest : Assoc Existing)
    : Result PlanError (List Envelope) → Result PlanError (List PlanItem) → Type 0 where
  no_plan : {e : PlanError} → Planned canonical_digest dest (err e) (err e)
  plan :
      {es : List Envelope} {items : List PlanItem}
      → All (Valid canonical_digest) es
      → Perm (map summary items) (map (expected_summary dest) es)
      → InOrder items
      → Planned canonical_digest dest (ok es) (ok items)

module _ (canonical_digest : String → Option String) where
  -- The source as `Envelope.Validate` leaves it.
  abbrev pub validate_all : List Envelope → Result PlanError (List Envelope)
  validate_all [] = ok []
  validate_all (e ∷ es) =
      validate_envelope canonical_digest e >>= λ e'. validate_all es >>= λ es'. ok (e' ∷ es')

  validate_all-Valid : (es : List Envelope) → Holds (All (Valid canonical_digest)) (validate_all es)
  validate_all-Valid [] = holds tt
  validate_all-Valid (e ∷ es) =
      Holds->>= _ (validate_envelope-Valid canonical_digest e)
        (λ e' first. Holds->>= _ (validate_all-Valid es) (λ es' rest. holds (first, rest)))

  after :
      (dest : Assoc Existing) (e : Envelope) (all : Result PlanError (List Envelope))
      → ((all >>= λ es. ok (map (diff_item dest) es)) >>= λ items. ok (diff_item dest e ∷ items))
        ≡ ((all >>= λ es. ok (e ∷ es)) >>= λ fs. ok (map (diff_item dest) fs))
  after dest e (ok es) = refl
  after dest e (err h) = refl

  diff_source-map :
      (dest : Assoc Existing) (source : List Envelope)
      → diff_source canonical_digest dest source
        ≡ (validate_all source >>= λ es. ok (map (diff_item dest) es))
  unfolding diff_source
  diff_source-map dest [] = refl
  diff_source-map dest (e ∷ es) =
      first (validate_envelope canonical_digest e) (diff_source canonical_digest dest es)
        (validate_all es) (diff_source-map dest es)
    where
      first :
          (r : Result PlanError Envelope) (items : Result PlanError (List PlanItem))
          (all : Result PlanError (List Envelope))
          → items ≡ (all >>= λ fs. ok (map (diff_item dest) fs))
          → (r >>= λ e'. items >>= λ rest. ok (diff_item dest e' ∷ rest))
            ≡ ((r >>= λ e'. all >>= λ es'. ok (e' ∷ es')) >>= λ fs. ok (map (diff_item dest) fs))
      first (err h) items all same = refl
      first (ok e') items all same = rw same (after dest e' all)

  sorted-Planned :
      (dest : Assoc Existing) (all : Result PlanError (List Envelope))
      → Holds (All (Valid canonical_digest)) all
      → Planned canonical_digest dest all (
          (all >>= λ es. ok (map (diff_item dest) es)) >>= λ items.
          ok (sort_by item_leb (items ++ [])))
  sorted-Planned dest (err e) h = no_plan
  sorted-Planned dest (ok es) (holds valid) =
      plan valid
        (subst (Perm (map summary (sort_by item_leb (map (diff_item dest) es ++ []))))
          (map-summary dest es)
          (Perm.map summary (
            subst (Perm (sort_by item_leb (map (diff_item dest) es ++ [])))
              (append-nil (map (diff_item dest) es))
              (sort_by-perm item_leb (map (diff_item dest) es ++ [])))))
        (sort_by-InOrder (map (diff_item dest) es ++ []))

  -- Without deletions, a source whose envelopes are all valid has a plan with one item for each of
  -- them, in the order of their kinds and, for one kind, of their ids: it creates what is missing,
  -- leaves what has the same digest, and writes over the rest exactly where policy, revision and owner
  -- allow it; where the destination wins it is silent, and elsewhere it reports a conflict. Valid
  -- envelopes have positive versions, a known policy and the digest of their payload, which is filled
  -- in. A source with an invalid envelope has the error of the first one and no plan.
  pub diff-expected :
      (source : List Envelope) (dest : Assoc Existing)
      → Planned canonical_digest dest
          (validate_all source)
          (diff canonical_digest source dest false)
  unfolding diff
  diff-expected source dest =
      rw (diff_source-map dest source)
        (sorted-Planned dest (validate_all source) (validate_all-Valid source))
