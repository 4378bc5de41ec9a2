-- ===== src/Propagation/Plan.antt =====
-- Envelopes and what they have to change at a destination (propagation/model.go, propagation/plan.go).
-- `CanonicalDigest` is a parameter: encoding/json and SHA-256 stand behind it.
pub mod Ordered
pub mod Validated
pub mod Changes
pub mod Signed
use Prim.Native.String.{◌++◌ as append_str, find, slice, len}
use gantry_core.Base.{
  Bool, true, false, not, ◌&&◌, ◌||◌, if◌then◌else◌, String, Option, none, some, List, [], ◌∷◌,
  str_eq, Assoc, lookup, ◌++◌, has, ◌+◌, ltb,
}
use gantry_core.Base.Int.{ℤ, leb_ℤ, pos}
use gantry_core.Base.Text.{trim_space}
use gantry_core.Base.Sort.{sort_by, str_leb}
use gantry_core.Base.Result.{Result, ok, err, ◌>>=◌, ◌>>◌, guard}

-- The texts of the constants, and any other text.
pub data ConflictPolicy : Type 0 where
  reject source_wins destination_wins manual authoritative merge : ConflictPolicy
  unsupported : String → ConflictPolicy

pub record SecretRef : Type 0 where
  pub name : String
  pub required : Bool

pub record Envelope : Type 0 where
  pub kind : String
  pub id : String
  pub schema_version : ℤ
  pub revision : ℤ
  pub source_node : String
  pub digest : String
  pub dependencies : List String
  pub secrets : List SecretRef
  pub conflict : ConflictPolicy
  pub permission : String
  pub target : String
  pub payload : String

pub data PlanError : Type 0 where
  name_missing version_invalid node_missing payload_missing payload_invalid digest_mismatch :
      PlanError
  secret_unnamed key_unsplit : PlanError
  secret_repeated conflict_unsupported : String → PlanError

pub data Change : Type 0 where
  create update delete noop conflict_found : Change

pub record Existing : Type 0 where
  pub kind : String
  pub id : String
  pub digest : String
  pub owner : String
  pub revision : ℤ
  pub schema_version : ℤ

pub record PlanItem : Type 0 where
  pub kind : String
  pub id : String
  pub change : Change
  pub reason : String
  pub from_revision : ℤ
  pub to_revision : ℤ

abbrev pub key : Envelope → String
key e = append_str e.kind (append_str "/" e.id)

-- The inner switch of `resolveConflict`, for a destination that is as new or newer.
unfoldable pub resolve_older : Envelope → Existing → Change × String
resolve_older e d = elim e.conflict [
  | source_wins ↦ (update, "source wins despite destination revision")
  | destination_wins ↦ (noop, "destination wins")
  | authoritative ↦
      if str_eq d.owner "" || str_eq d.owner e.source_node
      then (update, "authoritative source")
      else (conflict_found, "different authoritative owner")
  | merge ↦ (conflict_found, "merge requires an object-specific merge adapter")
  | manual ↦ (conflict_found, "manual approval required")
  | reject ↦ (conflict_found, "destination is same or newer revision")
  | unsupported name ↦ (conflict_found, "destination is same or newer revision")
]

abbrev pub is_destination_wins : ConflictPolicy → Bool
is_destination_wins destination_wins = true
is_destination_wins _ = false

-- `resolveConflict`
unfoldable pub resolve_conflict : Envelope → Existing → Change × String
unfolding resolve_older
resolve_conflict e d =
    if leb_ℤ e.revision d.revision
    then resolve_older e d
    else if is_destination_wins e.conflict
    then (noop, "destination wins")
    else (update, "newer source revision")

-- One turn of the loop of `Diff`.
unfoldable pub diff_item : Assoc Existing → Envelope → PlanItem
unfolding resolve_conflict lookup
diff_item dest e = elim (lookup (key e) dest) [
  | none ↦ record {
    kind = e.kind;
    id = e.id;
    change = create;
    reason = "";
    from_revision = pos 0;
    to_revision = e.revision;
  }
  | some d ↦
      if str_eq d.digest e.digest
      then record {
        kind = e.kind;
        id = e.id;
        change = noop;
        reason = "";
        from_revision = d.revision;
        to_revision = e.revision;
      }
      else record {
        kind = e.kind;
        id = e.id;
        change = (resolve_conflict e d).0;
        reason = (resolve_conflict e d).1;
        from_revision = d.revision;
        to_revision = e.revision;
      }
]

unfoldable pub check_secrets : List String → List SecretRef → Result PlanError (Unit {0})
check_secrets seen [] = ok tt
check_secrets seen (s ∷ rest) =
    guard (not (str_eq s.name "")) secret_unnamed
    >> guard (not (has s.name seen)) (secret_repeated s.name)
    >> check_secrets (s.name ∷ seen) rest

-- `strings.SplitN(k, "/", 2)` and the two indexings, the second of which panics without a slash.
unfoldable pub split_key : String → Result PlanError (String × String)
split_key k =
    if ltb (find k "/") (len k)
    then ok (slice k 0 (find k "/"), slice k (find k "/" + 1) (len k))
    else err key_unsplit

-- The loop over the destination's objects that no envelope names.
unfoldable pub deletions : List String → Assoc Existing → Result PlanError (List PlanItem)
unfolding split_key
deletions seen [] = ok []
deletions seen ((k, d) ∷ dest) =
    let rest = deletions seen dest in
    if has k seen
    then rest
    else (split_key k >>= λ (kind, id). rest >>= λ items. ok (
        record {
          kind = kind;
          id = id;
          change = delete;
          reason = "";
          from_revision = d.revision;
          to_revision = pos 0;
        }
        ∷ items))

abbrev pub keys : List Envelope → List String
keys [] = []
keys (e ∷ es) = key e ∷ keys es

-- `switch e.Conflict`
unfoldable pub check_policy : ConflictPolicy → Result PlanError (Unit {0})
check_policy (unsupported name) = err (conflict_unsupported name)
check_policy _ = ok tt

-- `sort.Strings(e.Dependencies)`, which sorts the array that copies of the envelope share.
unfoldable pub with_sorted : Envelope → Envelope
unfolding sort_by
with_sorted e = record e { dependencies = sort_by str_leb e.dependencies }

abbrev pub all_sorted : List Envelope → List Envelope
all_sorted [] = []
all_sorted (e ∷ es) = with_sorted e ∷ all_sorted es

abbrev pub item_leb : PlanItem → PlanItem → Bool
item_leb x y = if str_eq x.kind y.kind then str_leb x.id y.id else str_leb x.kind y.kind

module _ (canonical_digest : String → Option String) where
  -- `Envelope.Validate`, with the digest that it fills in.
  unfoldable pub validate_envelope : Envelope → Result PlanError Envelope
  unfolding check_secrets check_policy with_sorted
  validate_envelope e = do
    guard (not (str_eq (trim_space e.kind) "" || str_eq (trim_space e.id) "")) name_missing
    guard (leb_ℤ (pos 1) e.schema_version && leb_ℤ (pos 1) e.revision) version_invalid
    guard (not (str_eq (trim_space e.source_node) "" || str_eq (trim_space e.target) ""))
        node_missing
    check_policy e.conflict
    guard (not (str_eq e.payload "")) payload_missing
    digest ← (elim (canonical_digest e.payload) [ none ↦ err payload_invalid | some d ↦ ok d ])
    guard (str_eq e.digest "" || str_eq e.digest digest) digest_mismatch
    check_secrets [] e.secrets
    ok (with_sorted (record e { digest = digest }))

  -- The loop of `Diff` over the source.
  unfoldable pub diff_source : Assoc Existing → List Envelope → Result PlanError (List PlanItem)
  unfolding validate_envelope diff_item
  diff_source dest [] = ok []
  diff_source dest (e ∷ es) =
      validate_envelope e >>= λ e'. diff_source dest es >>= λ items. ok (diff_item dest e' ∷ items)

  -- `Diff`
  unfoldable pub diff : List Envelope → Assoc Existing → Bool → Result PlanError (List PlanItem)
  unfolding diff_source deletions
  diff source dest allow_delete = do
    items ← diff_source dest source
    gone ← (if allow_delete then deletions (keys source) dest else ok [])
    ok (sort_by item_leb (items ++ gone))
