-- ===== src/Replication/Tests.antt =====
-- Runs of the replication package, and its theorems at concrete inputs. The codec writes an operation
-- as itself and takes any text that is not blank for canonical JSON.
use gantry_core.Base.{
  ℕ, ◌≡◌, ◌⊎◌, refl, true, false, String, Option, none, some, List, [], ◌∷◌, str_eq, arith, lookup,
  insert, remove, if◌then◌else◌,
}
use gantry_core.Base.Int.{pos, next_int64}
use gantry_core.Base.Text.{trim_space}
use gantry_core.Base.Result.{ok, err}
use gantry_core.Replication.Operation.{
  Operation, Codec, IsLawful, digest, encode, decode_operation, supported_version,
}
use gantry_core.Replication.Operation.Roundtrip.{decode-encode}
use gantry_core.Replication.Fsm.{
  Kvfsm, Log, ApplyResult, new_with_schema, apply_locked, apply, run, get, admit, stale,
}
use gantry_core.Replication.Fsm.Once.{apply_locked-retry}
use gantry_core.Replication.Fsm.Keys.{apply_locked-set, Effect, Precondition}
use gantry_core.Replication.Fsm.Bounds.{run_revisions, IsBounded}

abbrev pub canonical : String → Option String
canonical p = if str_eq (trim_space p) "" then none else some p

abbrev pub plain : Codec Operation
plain = record {
  normalize = canonical;
  sha256_hex = λ p. p;
  marshal = λ o. o;
  unmarshal = λ o. some o;
  value_of = λ p. some p;
}

canonical_fixed : (p q : String) → canonical p ≡ some q → canonical q ≡ some q
canonical_fixed p q h = ground arith

canonical_visible : (p q : String) → canonical p ≡ some q → str_eq (trim_space q) "" ≡ false
canonical_visible p q h = ground arith

pub plain-IsLawful : IsLawful plain
plain-IsLawful = record {
  normalize_canonical = canonical_fixed;
  normalize_visible = canonical_visible;
  unmarshal_marshal = λ o h. refl;
}

abbrev pub write : String → String → String → Operation
write id key value = record {
  id = id;
  product = "watchpost";
  version = pos 1;
  kind = "kv.set";
  object_kind = "key";
  object_id = key;
  revision = pos 0;
  domain_revision = pos 0;
  payload = value;
  origin_node = "a";
  actor = "";
  committed = record { timestamp = "" };
}

abbrev pub entry : ℕ → Operation → Log Operation
entry i op = record { index = i; term = 1; bytes = op }

abbrev pub start : Kvfsm
start = new_with_schema (pos 2)

abbrev pub later : List (Log Operation)
later = entry 2 (write "op-2" "k" "w") ∷ entry 3 (write "op-1" "k" "v") ∷ []

abbrev first_result : ApplyResult
first_result = record {
  index = 1;
  term = 1;
  op_id = "op-1";
  object_id = "k";
  kind = "kv.set";
  version = pos 1;
  revision = pos 1;
}

decode-encode_example :
    decode_operation plain
      (record (write "op-1" "k" "v") { committed = record { timestamp = "now" } })
    ≡ ok (record (write "op-1" "k" "v") { committed = record { timestamp = "now" } })
unfolding encode trim_space
decode-encode_example = (decode-encode plain plain-IsLawful "now" (write "op-1" "k" "v") _ _ refl).0

-- Everything that a run of the machine computes with.
unfoldable pub all_open : ℕ
unfolding apply run new_with_schema admit digest decode_operation get lookup insert remove
    trim_space next_int64 supported_version
all_open = 0

apply_locked-retry_example :
    let g = run plain (apply_locked plain start (write "op-1" "k" "v") 1 1).0 later in
    apply_locked plain g (write "op-1" "k" "v") 9 3 ≡ (g, ok first_result)
unfolding all_open
apply_locked-retry_example =
    apply_locked-retry plain start (write "op-1" "k" "v") 1 1 first_result later 9 3 refl

apply_locked-set_example :
    (Precondition (write "op-1" "k" "v") start.state
      × Effect start
          (write "op-1" "k" "v")
          1
          1
          ("v", pos 1, true)
          (apply_locked plain start (write "op-1" "k" "v") 1 1))
    ⊎ ((¬ Precondition (write "op-1" "k" "v") start.state)
        × (apply_locked plain start (write "op-1" "k" "v") 1 1
            ≡ (start, err (stale (write "op-1" "k" "v") start.state))))
unfolding all_open
apply_locked-set_example =
    apply_locked-set plain start (write "op-1" "k" "v") 1 1 "v" refl refl "v" refl refl

abbrev erase : Operation
erase = record (write "op-5" "k" "{}") { kind = "kv.delete"; revision = pos 1 }

abbrev pub written_state : Kvfsm
written_state = run plain start (entry 1 (write "op-1" "k" "v") ∷ [])

delete_then_get : get (apply_locked plain written_state erase 2 1).0 "k" ≡ ("", pos 0, false)
unfolding all_open
delete_then_get = refl

run_revisions_example : IsBounded 2 (run plain (new_with_schema (pos 2)) later).state
run_revisions_example = run_revisions plain (pos 2) later (omega arith)
