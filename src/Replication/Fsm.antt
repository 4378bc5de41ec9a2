-- ===== src/Replication/Fsm.antt =====
-- The deterministic key-value state machine `KVFSM` (replication/kvfsm.go). A method takes the
-- machine and returns it with its result; the lock makes each call one step. `int64` revisions wrap.
pub mod Step
pub mod Once
pub mod Keys
pub mod Bounds
pub mod View
pub mod Position
use gantry_core.Base.{
  ℕ, Bool, true, false, ◌&&◌, ◌||◌, not, String, Option, none, some, List, [], ◌∷◌, str_eq, Assoc,
  lookup, insert, remove, is_some, if◌then◌else◌,
}
use gantry_core.Base.Int.{ℤ, pos, ltb_ℤ, eq_ℤ, next_int64}
use gantry_core.Base.Result.{Result, ok, err, ◌>>=◌, ◌>>◌, guard}
use gantry_core.Replication.Error.{
  Error, unsupported_kind, malformed_value, node_lacks_version, payload_changed, stale_mutation,
}
use gantry_core.Replication.Operation.{Operation, Codec, version, digest, decode_operation}

pub record ApplyResult : Type 0 where
  pub index : ℕ
  pub term : ℕ
  pub op_id : String
  pub object_id : String
  pub kind : String
  pub version : ℤ
  pub revision : ℤ

pub record KvEntry : Type 0 where
  pub value : String
  pub revision : ℤ

pub record AppliedOp : Type 0 where
  pub digest : String
  pub result : ApplyResult

pub record Kvfsm : Type 0 where
  pub supported : ℤ
  pub product : String
  pub state : Assoc KvEntry
  pub applied : Assoc AppliedOp
  pub applied_index : ℕ
  pub applied_term : ℕ

-- A raft log entry, as far as the machine reads it.
pub record Log (Bytes : Type 0) : Type 0 where
  pub index : ℕ
  pub term : ℕ
  pub bytes : Bytes

abbrev pub kind_set : String
kind_set = "kv.set"

abbrev pub kind_delete : String
kind_delete = "kv.delete"

unfoldable pub validate_kind : String → Result Error (Unit {0})
validate_kind k =
    if str_eq k kind_set || str_eq k kind_delete then ok tt else err (unsupported_kind k)

unfoldable pub clamp_schema : ℤ → ℤ
clamp_schema n = if ltb_ℤ n (pos 1) then pos 1 else if ltb_ℤ version n then version else n

-- `NewKVFSMWithSchema`
unfoldable pub new_with_schema : ℤ → Kvfsm
unfolding clamp_schema
new_with_schema n = record {
  supported = clamp_schema n;
  product = "";
  state = [];
  applied = [];
  applied_index = 0;
  applied_term = 0;
}

unfoldable pub set_supported : Kvfsm → ℤ → Kvfsm
unfolding clamp_schema
set_supported f n = record f { supported = clamp_schema n }

-- `cur := f.state[key]`: a missing key reads as the zero entry.
abbrev pub entry_or_zero : Option KvEntry → KvEntry
entry_or_zero none = record { value = ""; revision = pos 0 }
entry_or_zero (some e) = e

abbrev pub current : String → Assoc KvEntry → KvEntry
current key state = entry_or_zero (lookup key state)

-- The precondition that both kinds test.
unfoldable pub is_stale : Operation → Assoc KvEntry → Bool
is_stale op state =
    not (eq_ℤ op.revision (pos 0))
    && (not (is_some (lookup op.object_id state))
        || not (eq_ℤ (current op.object_id state).revision op.revision))

unfoldable pub stale : Operation → Assoc KvEntry → Error
stale op state = stale_mutation op.object_id op.revision (current op.object_id state).revision

-- `case KindDelete`
unfoldable pub delete_key : Operation → Assoc KvEntry → Assoc KvEntry × Result Error ℤ
unfolding is_stale stale
delete_key op state =
    if is_stale op state
    then (state, err (stale op state))
    else (remove op.object_id state, ok (next_int64 (current op.object_id state).revision))

unfoldable pub result_of : Operation → ℕ → ℕ → ℤ → ApplyResult
result_of op index term rev = record {
  index = index;
  term = term;
  op_id = op.id;
  object_id = op.object_id;
  kind = op.kind;
  version = op.version;
  revision = rev;
}

-- What follows the switch: on an error the method has returned with `state` as the switch left it.
unfoldable pub commit :
    Kvfsm
    → Operation
    → String
    → ℕ
    → ℕ
    → Assoc KvEntry × Result Error ℤ
    → Kvfsm × Result Error ApplyResult
unfolding result_of
commit f op d index term (state, err e) = (record f { state = state }, err e)
commit f op d index term (state, ok rev) =
    let res = result_of op index term rev in
    (
      record f {
        state = state;
        applied = insert op.id (record { digest = d; result = res }) f.applied;
        product = if str_eq f.product "" then op.product else f.product;
        applied_index = index;
        applied_term = term;
      },
      ok res,
    )

module _ {Bytes : Type 0} (c : Codec Bytes) where
  -- `case KindSet`: the new keyspace and the new revision.
  unfoldable pub set_key : Operation → Assoc KvEntry → Assoc KvEntry × Result Error ℤ
  unfolding is_stale stale
  set_key op state = elim (c.value_of op.payload) [
    | none ↦ (state, err malformed_value)
    | some v ↦
        if is_stale op state
        then (state, err (stale op state))
        else (let r = next_int64 (current op.object_id state).revision in
            (insert op.object_id (record { value = v; revision = r }) state, ok r))
  ]

  -- `switch op.Kind`
  unfoldable pub mutate : Operation → Assoc KvEntry → Assoc KvEntry × Result Error ℤ
  unfolding set_key delete_key
  mutate op state =
      if str_eq op.kind kind_set
      then set_key op state
      else if str_eq op.kind kind_delete
      then delete_key op state
      else (state, err (unsupported_kind op.kind))

  -- `if prior, ok := f.applied[op.ID]; ok`, and the rest of the method where it is not.
  unfoldable pub resolve :
      Kvfsm → Operation → String → ℕ → ℕ → Option AppliedOp → Kvfsm × Result Error ApplyResult
  unfolding commit mutate
  resolve f op d index term none = commit f op d index term (mutate op f.state)
  resolve f op d index term (some prior) =
      (f, if str_eq prior.digest d then ok prior.result else err (payload_changed op.id))

  -- The checks before the digest is looked up.
  unfoldable pub admit : Kvfsm → Operation → Result Error String
  unfolding validate_kind
  admit f op = do
    guard (not (ltb_ℤ f.supported op.version)) (node_lacks_version op.version f.supported)
    validate_kind op.kind
    digest c op

  unfoldable pub apply_locked : Kvfsm → Operation → ℕ → ℕ → Kvfsm × Result Error ApplyResult
  unfolding resolve
  apply_locked f op index term = elim (admit f op) [
    | err e ↦ (f, err e)
    | ok d ↦ resolve f op d index term (lookup op.id f.applied)
  ]

  unfoldable pub apply : Kvfsm → Log Bytes → Kvfsm × Result Error ApplyResult
  unfolding apply_locked
  apply f l = elim (decode_operation c l.bytes) [
    | err e ↦ (f, err e)
    | ok op ↦ apply_locked f op l.index l.term
  ]

  -- Raft feeds the committed log in order.
  unfoldable pub run : Kvfsm → List (Log Bytes) → Kvfsm
  run f [] = f
  run f (l ∷ ls) = run (apply f l).0 ls

-- `OpKnown`
unfoldable pub op_known : Kvfsm → String → Option String
op_known f id = elim (lookup id f.applied) [ none ↦ none | some p ↦ some p.digest ]

-- `Get`: the value, the revision and the presence.
unfoldable pub get : Kvfsm → String → String × ℤ × Bool
get f key = elim (lookup key f.state) [
  | none ↦ ("", pos 0, false)
  | some e ↦ (e.value, e.revision, true)
]
