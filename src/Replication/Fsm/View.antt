-- ===== src/Replication/Fsm/View.antt =====
-- Replicas that agree on every lookup stay in agreement, whatever the order of their maps.
use gantry_core.Base.{
  ℕ, ◌≡◌, refl, ap, ◌∙◌, Bool, true, false, inl, inr, String, Option, none, some, List, [], ◌∷◌,
  str_eq, Assoc, lookup, insert, remove, if◌then◌else◌, lookup-insert, lookup-remove, Option-cases,
}
use gantry_core.Base.Int.{ℤ, next_int64}
use gantry_core.Base.Result.{Result, ok, err, Result-cases}
use gantry_core.Replication.Error.{Error}
use gantry_core.Replication.Operation.{Operation, Codec, decode_operation}
use gantry_core.Replication.Fsm.{
  ApplyResult, Kvfsm, KvEntry, AppliedOp, Log, apply_locked, apply, run, mutate, commit, current,
  set_key, delete_key, is_stale, admit, resolve, kind_set, kind_delete, stale,
}

-- The same maps, whatever the order in which their entries are kept.
abbrev pub SameMap {ℓ} : {V : Type ℓ} → Assoc V → Assoc V → Type ℓ
SameMap m m' = (key : String) → lookup key m ≡ lookup key m'

pub record SameView (f g : Kvfsm) : Type 0 where
  pub product : f.product ≡ g.product
  pub state : SameMap f.state g.state
  pub applied : SameMap f.applied g.applied
  pub applied_index : f.applied_index ≡ g.applied_index
  pub applied_term : f.applied_term ≡ g.applied_term

SameMap-insert {ℓ} :
    {V : Type ℓ} (k : String) (v : V) (m m' : Assoc V)
    → SameMap m m'
    → SameMap (insert k v m) (insert k v m')
SameMap-insert k v m m' h key = rw (lookup-insert k key v m, lookup-insert k key v m', h key)

SameMap-remove {ℓ} :
    {V : Type ℓ} (k : String) (m m' : Assoc V) → SameMap m m' → SameMap (remove k m) (remove k m')
SameMap-remove k m m' h key = rw (lookup-remove k key m, lookup-remove k key m', h key)

module _ {Bytes : Type 0} (c : Codec Bytes) where
  -- Two outcomes of the switch: the same revision or error, and the same keyspace.
  abbrev SameOutcome : Assoc KvEntry × Result Error ℤ → Assoc KvEntry × Result Error ℤ → Type 0
  SameOutcome m m' = (m.1 ≡ m'.1) × SameMap m.0 m'.0

  module _ (op : Operation) (s s' : Assoc KvEntry) (h : SameMap s s') where
    same_stale : is_stale op s ≡ is_stale op s'
    unfolding is_stale
    same_stale = rw (h op.object_id)

    same_next :
        next_int64 (current op.object_id s).revision ≡ next_int64 (current op.object_id s').revision
    same_next = rw (h op.object_id)

    same_error : stale op s ≡ stale op s'
    unfolding stale
    same_error = rw (h op.object_id)

    if-SameOutcome :
        (t t' : Bool) (a a' b b' : Assoc KvEntry × Result Error ℤ)
        → t ≡ t'
        → SameOutcome a a'
        → SameOutcome b b'
        → SameOutcome (if t then a else b) (if t' then a' else b')
    if-SameOutcome true true a a' b b' e x y = x
    if-SameOutcome false false a a' b b' e x y = y
    if-SameOutcome true false a a' b b' e x y = absurd (cc)
    if-SameOutcome false true a a' b b' e x y = absurd (cc)

    set_key-SameOutcome : SameOutcome (set_key c op s) (set_key c op s')
    unfolding set_key
    set_key-SameOutcome = elim (Option-cases (c.value_of op.payload)) [
      | inl n ↦ rw (n, set_key) (refl, h)
      | inr (v, w) ↦
          rw (w, set_key)
            (if-SameOutcome (is_stale op s) (is_stale op s') _ _ _ _ same_stale
              (ap err same_error, h) (ap ok same_next, rw same_next (SameMap-insert _ _ s s' h)))
    ]

    delete_key-SameOutcome : SameOutcome (delete_key op s) (delete_key op s')
    unfolding delete_key
    delete_key-SameOutcome =
        if-SameOutcome (is_stale op s) (is_stale op s') _ _ _ _ same_stale (ap err same_error, h)
          (ap ok same_next, SameMap-remove _ s s' h)

    mutate-SameOutcome : SameOutcome (mutate c op s) (mutate c op s')
    unfolding mutate
    mutate-SameOutcome =
        if-SameOutcome (str_eq op.kind kind_set) (str_eq op.kind kind_set) _ _ _ _ refl
          set_key-SameOutcome
          (if-SameOutcome (str_eq op.kind kind_delete) (str_eq op.kind kind_delete) _ _ _ _ refl
            delete_key-SameOutcome (refl, h))

  record Agree (f g : Kvfsm) : Type 0 where
    pub view : SameView f g
    pub supported : f.supported ≡ g.supported

  abbrev SameStep : Kvfsm × Result Error ApplyResult → Kvfsm × Result Error ApplyResult → Type 0
  SameStep x y = Agree x.0 y.0 × (x.1 ≡ y.1)

  commit-SameStep :
      (f g : Kvfsm) (op : Operation) (d : String) (i t : ℕ) (m m' : Assoc KvEntry × Result Error ℤ)
      → Agree f g
      → SameOutcome m m'
      → SameStep (commit f op d i t m) (commit g op d i t m')
  unfolding commit
  commit-SameStep f g op d i t (s, err e) (s', err e') a (r, h) = (
    record {
      view = record {
        product = a.view.product;
        state = h;
        applied = a.view.applied;
        applied_index = a.view.applied_index;
        applied_term = a.view.applied_term;
      };
      supported = a.supported;
    },
    cc,
  )
  commit-SameStep f g op d i t (s, ok x) (s', ok x') a (r, h) =
      let e : x ≡ x' = cc in
      rw e (
        record {
          view = record {
            product = rw a.view.product;
            state = h;
            applied = SameMap-insert op.id _ f.applied g.applied a.view.applied;
            applied_index = refl;
            applied_term = refl;
          };
          supported = a.supported;
        },
        refl,
      )
  commit-SameStep f g op d i t (s, err e) (s', ok x) a (r, h) = absurd (cc)
  commit-SameStep f g op d i t (s, ok x) (s', err e) a (r, h) = absurd (cc)

  resolve-SameStep :
      (f g : Kvfsm) (op : Operation) (d : String) (i t : ℕ) (p : Option AppliedOp)
      → Agree f g
      → SameStep (resolve c f op d i t p) (resolve c g op d i t p)
  unfolding resolve
  resolve-SameStep f g op d i t none a =
      commit-SameStep f g op d i t _ _ a (mutate-SameOutcome op f.state g.state a.view.state)
  resolve-SameStep f g op d i t (some p) a = (a, refl)

  same_admit :
      (f g : Kvfsm) (op : Operation) → f.supported ≡ g.supported → admit c f op ≡ admit c g op
  unfolding admit
  same_admit f g op e = ap (λ (v : ℤ). admit c (record f { supported = v }) op) e

  apply_locked-SameStep :
      (f g : Kvfsm) (op : Operation) (i t : ℕ)
      → Agree f g
      → SameStep (apply_locked c f op i t) (apply_locked c g op i t)
  unfolding apply_locked
  apply_locked-SameStep f g op i t a = elim (Result-cases (admit c g op)) [
    | inl (e, h) ↦ rw (same_admit f g op a.supported ∙ h, h, apply_locked) (a, refl)
    | inr (d, h) ↦
        rw (same_admit f g op a.supported ∙ h, h, a.view.applied op.id, apply_locked)
          (resolve-SameStep f g op d i t (lookup op.id g.applied) a)
  ]

  apply-SameStep : (f g : Kvfsm) (l : Log Bytes) → Agree f g → SameStep (apply c f l) (apply c g l)
  unfolding apply
  apply-SameStep f g l a = elim (Result-cases (decode_operation c l.bytes)) [
    | inl (e, h) ↦ rw (h, apply) (a, refl)
    | inr (op, h) ↦ rw (h, apply) (apply_locked-SameStep f g op l.index l.term a)
  ]

  -- The answers that a log gets, in order.
  pub answers : Kvfsm → List (Log Bytes) → List (Result Error ApplyResult)
  answers f [] = []
  answers f (l ∷ ls) = (apply c f l).1 ∷ answers (apply c f l).0 ls

  pub run-Agree :
      (f g : Kvfsm) (ls : List (Log Bytes))
      → SameView f g
      → f.supported ≡ g.supported
      → SameView (run c f ls) (run c g ls) × (answers f ls ≡ answers g ls)
  unfolding run answers
  run-Agree f g ls v s = go ls f g (record { view = v; supported = s })
    where
      go :
          (ls : List (Log Bytes)) (f g : Kvfsm)
          → Agree f g
          → SameView (run c f ls) (run c g ls) × (answers f ls ≡ answers g ls)
      go [] f g a = (a.view, refl)
      go (l ∷ ls) f g a =
          let (b, e) = apply-SameStep f g l a in
          let (v, es) = go ls (apply c f l).0 (apply c g l).0 b in (v, rw (e, es))
