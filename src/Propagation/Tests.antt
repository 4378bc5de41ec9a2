-- ===== src/Propagation/Tests.antt =====
-- Runs of plans and bundles, and their theorems at concrete inputs. The node of these runs has one
-- object, `k/1`, or none.
use gantry_core.Base.{
  ◌≡◌, refl, sym, ap, subst, ◌∙◌, Bool, true, false, not, if◌then◌else◌, Bool-cases, inl, inr, ℕ,
  String, Option, none, some, List, [], ◌∷◌, str_eq, eq_iff, arith, Assoc, lookup,
}
use gantry_core.Base.Int.{pos}
use gantry_core.Base.Text.{trim_space}
use gantry_core.Base.Sort.{sort_by}
use gantry_core.Base.Result.{Result, ok, err, Holds, Holds-ok, holds}
use gantry_core.Propagation.Plan.{Envelope, Existing, source_wins, diff, key, with_sorted}
use gantry_core.Propagation.Plan.Changes.{Planned, validate_all, diff-expected}
use gantry_core.Propagation.Preview.{TargetState, source_issues}
use gantry_core.Propagation.Schedule.{Profile, automatic, due}
use gantry_core.Propagation.Target.{Member, Selector, select}
use gantry_core.Propagation.Apply.{
  LocalAdapter, ObjectState, AppliedRevision, ApplyBundleResult, failed_with, apply_local, kinds_of,
  state_before, missing_state,
}
use gantry_core.Propagation.Apply.Atomic.{IsReversible, apply_local-atomic}

abbrev digest_of : String → Option String
digest_of p = some p

abbrev envelope : String → Envelope
envelope id = record {
  kind = "k";
  id = id;
  schema_version = pos 1;
  revision = pos 1;
  source_node = "a";
  digest = "";
  dependencies = [];
  secrets = [];
  conflict = source_wins;
  permission = "";
  target = "all";
  payload = "p";
}

-- The second of these cannot be applied.
abbrev source : List Envelope
source = envelope "1" ∷ envelope "2" ∷ []

abbrev there : Assoc Existing
there =
    (
      "k/1",
      record {
        kind = "k";
        id = "1";
        digest = "q";
        owner = "";
        revision = pos 3;
        schema_version = pos 1;
      },
    )
    ∷ []

abbrev state : TargetState
state = record {
  existing = there;
  supported_schemas = ("k", pos 1) ∷ [];
  dependencies = [];
  secrets = [];
  permissions = [];
}

diff-expected_example :
    Planned digest_of there (validate_all digest_of source) (diff digest_of source there false)
diff-expected_example = diff-expected digest_of source there

abbrev object : ObjectState
object = record {
  existing = record {
    kind = "k";
    id = "1";
    digest = "q";
    owner = "";
    revision = pos 3;
    schema_version = pos 1;
  };
  payload = "q";
  reversible = true;
}

abbrev revision : AppliedRevision
revision = record {
  kind = "k";
  id = "1";
  before_revision = 0;
  after_revision = 1;
  reversible = true;
}

abbrev seen : Bool → Assoc ObjectState
seen s = if s then ("k/1", object) ∷ [] else []

abbrev node : LocalAdapter
node = record {
  Store = Bool;
  target_state = λ es s. ok state;
  snapshot = λ ks s. ok (seen s);
  apply = λ e s. if str_eq (key e) "k/1" then (true, ok revision) else (s, err "unknown object");
  restore = λ o s.
      if str_eq o.existing.id "1" then (not (str_eq o.existing.digest ""), none) else (s, none);
}

abbrev at : Bool → String → Bool
at s j = if str_eq "k/1" j then s else false

clash :
    {A : Type 0} {r : AppliedRevision} {m : String} (x : Result String AppliedRevision)
    → x ≡ ok r
    → x ≡ err m
    → A
clash x h g = cc

node-applied :
    (e : Envelope) (s s' : Bool) (r : AppliedRevision) (j : String)
    → node.apply e s ≡ (s', ok r)
    → str_eq (key e) j ≡ false
    → at s' j ≡ at s j
node-applied e s s' r j h new = elim (Bool-cases (str_eq (key e) "k/1")) [
  | inl f ↦ ground (arith, eq_iff (key e) "k/1", eq_iff "k/1" j, eq_iff (key e) j, f, new)
  | inr f ↦ clash {m = "unknown object"} (node.apply e s).1 (ap (λ p. p.1) h) (rw f refl)
]

node-failed :
    (e : Envelope) (s s' : Bool) (m j : String) → node.apply e s ≡ (s', err m) → at s' j ≡ at s j
node-failed e s s' m j h = elim (Bool-cases (str_eq (key e) "k/1")) [
  | inl f ↦ clash {r = revision} (node.apply e s).1 (rw f refl) (ap (λ p. p.1) h)
  | inr f ↦ ap (λ (x : Bool). at x j) (sym (ap (λ p. p.0) h) ∙ rw f refl)
]

unfoldable pub apply_open : ℕ
unfolding apply_local missing_state trim_space lookup sort_by diff source_issues with_sorted
apply_open = 0

-- What the snapshot says, put back.
put :
    (first s : Bool) (j : String)
    → (at (node.restore (state_before (seen first) "k/1") s).0 "k/1" ≡ at first "k/1")
      × (str_eq "k/1" j ≡ false
          → at (node.restore (state_before (seen first) "k/1") s).0 j ≡ at s j)
      × (at (node.restore (state_before (seen first) "k/2") s).0 j ≡ at s j)
unfolding apply_open
put true s j = (refl, (λ h. rw h refl), refl)
put false s j = (refl, (λ h. rw h refl), refl)

-- The snapshot is what the test's `seen` makes of the state.
snapped :
    (first : Bool) (before : Assoc ObjectState)
    → node.snapshot (kinds_of source) first ≡ ok before
    → seen first ≡ before
snapped first before h = Holds-ok before (the_seen first) h
  where
    the_seen : (b : Bool) → Holds (λ x. seen b ≡ x) (node.snapshot (kinds_of source) b)
    the_seen b = holds refl

node-elsewhere :
    (id : String)
    → ((first s : Bool) (j : String)
        → str_eq (key (envelope id)) j ≡ false
        → at (node.restore (state_before (seen first) (key (envelope id))) s).0 j ≡ at s j)
    → (first s s' : Bool) (before : Assoc ObjectState) (j : String)
    → node.snapshot (kinds_of source) first ≡ ok before
    → node.restore (state_before before (key (envelope id))) s ≡ (s', none)
    → str_eq (key (envelope id)) j ≡ false
    → at s' j ≡ at s j
node-elsewhere id f first s s' before j h g new =
    ap (λ (p : Bool × Option String). at p.0 j) (sym g)
    ∙ subst (λ b. at (node.restore (state_before b (key (envelope id))) s).0 j ≡ at s j)
        (snapped first before h) (f first s j new)

node-back :
    (id : String)
    → ((first s : Bool)
        → at (node.restore (state_before (seen first) (key (envelope id))) s).0 (key (envelope id))
          ≡ at first (key (envelope id)))
    → (first s s' : Bool) (before : Assoc ObjectState)
    → node.snapshot (kinds_of source) first ≡ ok before
    → node.restore (state_before before (key (envelope id))) s ≡ (s', none)
    → at s' (key (envelope id)) ≡ at first (key (envelope id))
node-back id f first s s' before h g =
    ap (λ (p : Bool × Option String). at p.0 (key (envelope id))) (sym g)
    ∙ subst
        (λ b.
          at (node.restore (state_before b (key (envelope id))) s).0 (key (envelope id))
          ≡ at first (key (envelope id)))
        (snapped first before h) (f first s)

put_two :
    (first s : Bool)
    → at (node.restore (state_before (seen first) "k/2") s).0 "k/2" ≡ at first "k/2"
unfolding apply_open
put_two true s = refl
put_two false s = refl

node-IsReversible : IsReversible node source
node-IsReversible = record {
  View = Bool;
  view = at;
  applied_elsewhere = node-applied;
  failed_unchanged = node-failed;
  restored_elsewhere = (
    node-elsewhere "1" (λ first s j new. (put first s j).1 new),
    (node-elsewhere "2" (λ first s j new. (put first s j).2), tt),
  );
  restored_back = (node-back "1" (λ first s. (put first s "").0), (node-back "2" put_two, tt));
}

abbrev taken_back : ApplyBundleResult
taken_back = record {
  revisions = revision ∷ [];
  rolled_back = true;
  rolled_back_count = 1;
  errors = "unknown object" ∷ [];
}

fails : apply_local node digest_of source true ≡ (true, failed_with taken_back)
unfolding apply_open
fails = refl

-- The first envelope is applied and taken back when the second fails.
apply_local-atomic_example : at true "k/1" ≡ at true "k/1"
unfolding node-IsReversible
apply_local-atomic_example =
    apply_local-atomic node digest_of source node-IsReversible true true taken_back fails refl "k/1"

abbrev three : List Member
three =
    record { id = "b"; labels = "Edge" ∷ []; capabilities = []; enabled = true }
    ∷ record { id = "a"; labels = []; capabilities = []; enabled = true }
    ∷ record { id = "c"; labels = "Edge" ∷ []; capabilities = []; enabled = false }
    ∷ []

abbrev edge : Selector
edge = record {
  nodes = "a" ∷ [];
  labels = "Edge" ∷ [];
  capabilities = [];
  exclude = [];
  all = false;
}

abbrev as_is : String → String
as_is s = s

-- The disabled member is left out.
edge_nodes : select as_is edge three ≡ ok ("a" ∷ "b" ∷ [])
unfolding select sort_by
edge_nodes = refl

abbrev no_clock : String → Option ℕ
no_clock s = none

abbrev hourly : String → Option ℕ
hourly s = if str_eq s "1h" then some 3600 else none

abbrev profile : Profile
profile = record {
  id = "p";
  name = "Profile";
  selector = edge;
  kinds = "agent" ∷ [];
  mode = automatic;
  schedule = "1h";
  maintenance_window = "";
  enabled = true;
  last_run_at = some 0;
}

runs_after_an_hour : due no_clock hourly profile 3600 0 ≡ ok true
unfolding due trim_space
runs_after_an_hour = refl
