-- ===== src/Replication/Node.antt =====
-- A node: capability negotiation and the proposal contract (replication/node.go), over the consensus
-- library, which is a parameter. The machine is the reference `KVFSM`, or another one that the product
-- gives.
pub mod Negotiation
pub mod Gate
pub mod Wait
pub mod Started
pub mod Export
use gantry_core.Base.{
  ℕ, zero, suc, ◌+◌, Bool, true, false, ◌||◌, String, Option, none, some, List, [], ◌∷◌, str_eq,
  Assoc, lookup, insert, if◌then◌else◌,
}
use gantry_core.Base.Int.{ℤ, pos, negsuc, ltb_ℤ, leb_ℤ, eq_ℤ}
use gantry_core.Base.Result.{Result, ok, err, ◌>>=◌, ◌>>◌, guard}
use gantry_core.Replication.Error.{
  Error, not_leader, node_lacks_schema, voter_unknown, voter_lacks_schema, consensus_failed,
  unexpected_response, nil_dereference, known_with_other_payload,
}
use gantry_core.Replication.Operation.{Operation, Codec, version, digest, encode}
use gantry_core.Replication.Fsm.{
  Kvfsm, ApplyResult, new_with_schema, set_supported, op_known, clamp_schema,
}

pub record Capabilities : Type 0 where
  pub id : String
  pub operation_schema_versions : List ℤ
  pub snapshot_format_versions : List ℤ
  pub features : List String

unfoldable pub contains_version : ℤ → List ℤ → Bool
contains_version v [] = false
contains_version v (s ∷ ss) = eq_ℤ s v || contains_version v ss

-- `SupportsOperation`
unfoldable pub supports_operation : Capabilities → ℤ → Bool
unfolding contains_version
supports_operation c v = contains_version v c.operation_schema_versions

-- `SupportsSnapshotFormat`
unfoldable pub supports_snapshot_format : Capabilities → ℤ → Bool
unfolding contains_version
supports_snapshot_format c f = contains_version f c.snapshot_format_versions

-- raft.RaftState, and the suffrage and servers of raft's configuration.
pub data RaftState : Type 0 where
  follower candidate leader shutdown : RaftState

pub data Suffrage : Type 0 where
  voter nonvoter staging : Suffrage

pub record Server : Type 0 where
  pub id : String
  pub suffrage : Suffrage

-- What `raft.Apply(data, timeout)` comes to: the future's error, or the machine's response.
pub data Outcome : Type 0 where
  apply_failed : String → Outcome
  responded : Result Error ApplyResult → Outcome
  other_response : Outcome

-- What a node reads from the consensus library at one moment.
pub record Raft (Bytes : Type 0) : Type 0 where
  pub state : RaftState
  pub leader_id : String
  pub configuration : Result Error (List Server)
  pub apply : Bytes → Outcome

-- The field `capSrc`: an interface value. `nil_fabric` holds a nil `*Fabric`, which is not a nil
-- interface, and whose method dereferences it.
pub data CapabilitySource : Type 0 where
  absent nil_fabric : CapabilitySource
  source : (String → Option Capabilities) → CapabilitySource

-- `StateMachine`, where it is not the reference one: what it answers, and what else it holds.
pub record StateMachine : Type 0 where
  pub op_known : String → Option String
  pub applied_index : ℕ × ℕ
  pub contents : String

-- The machine of a node, by its dynamic type.
pub data Machine : Type 0 where
  reference : Kvfsm → Machine
  custom : StateMachine → Machine

-- `OpKnown` of the machine
unfoldable pub machine_knows : Machine → String → Option String
unfolding op_known
machine_knows (reference f) id = op_known f id
machine_knows (custom s) id = s.op_known id

-- `if kf, ok := n.fsm.(*KVFSM); ok`
unfoldable pub set_machine : Machine → ℤ → Machine
unfolding set_supported
set_machine (reference f) max = reference (set_supported f max)
set_machine (custom s) max = custom s

pub record Node : Type 0 where
  pub id : String
  pub fsm : Machine
  pub caps : Capabilities
  pub cap_src : CapabilitySource
  pub local : Assoc String

-- `for v := 1; v <= max; v++`
unfoldable pub count_from : ℕ → ℕ → List ℤ
count_from v zero = []
count_from v (suc k) = pos v ∷ count_from (v + 1) k

unfoldable pub versions_to : ℤ → List ℤ
unfolding count_from
versions_to (pos n) = count_from 1 n
versions_to (negsuc n) = []

-- `maxSchema` in `NewNode`: an option of 0 or less means the build's version.
unfoldable pub max_schema : ℤ → ℤ
max_schema n = if leb_ℤ n (pos 0) then version else if ltb_ℤ version n then version else n

unfoldable pub snapshot_format : ℤ → ℤ
snapshot_format f = if leb_ℤ f (pos 0) then pos 1 else f

-- `capSrc` in `NewNode`: the option, or else the fabric, which may be a nil pointer.
unfoldable pub choose_source :
    Option (String → Option Capabilities) → Option (String → Option Capabilities) → CapabilitySource
choose_source (some s) fabric = source s
choose_source none (some f) = source f
choose_source none none = nil_fabric

-- `fsm` in `NewNode`
unfoldable pub choose_machine : Option Machine → ℤ → Machine
unfolding new_with_schema
choose_machine none max = reference (new_with_schema max)
choose_machine (some m) max = m

-- The part of `NewNode` after the consensus library has started.
unfoldable pub new_node :
    String
    → Option Machine
    → ℤ
    → ℤ
    → List String
    → Option (String → Option Capabilities)
    → Option (String → Option Capabilities)
    → Node
unfolding max_schema snapshot_format versions_to choose_source choose_machine
new_node id machine schema format features given fabric = record {
  id = id;
  fsm = choose_machine machine (max_schema schema);
  caps = record {
    id = id;
    operation_schema_versions = versions_to (max_schema schema);
    snapshot_format_versions = snapshot_format format ∷ [];
    features = features;
  };
  cap_src = choose_source given fabric;
  local = [];
}

-- `SetSupportedReplicationVersion`
unfoldable pub set_supported_replication_version : Node → ℤ → Node
unfolding clamp_schema versions_to set_machine
set_supported_replication_version n max = record n {
  caps = record caps { operation_schema_versions = versions_to (clamp_schema max) };
  fsm = set_machine n.fsm (clamp_schema max);
}
  where
    open n use {caps}

-- `SetLocal` and `GetLocal`: values that no operation or snapshot reads.
unfoldable pub set_local : Node → String → String → Node
set_local n key val = record n { local = insert key val n.local }

unfoldable pub get_local : Node → String → Option String
get_local n key = lookup key n.local

-- One round of the loop over the configuration: a voter must be known and support the schema.
unfoldable pub check_voter : CapabilitySource → ℤ → String → Result Error (Unit {0})
unfolding supports_operation
check_voter absent v id = ok tt
check_voter nil_fabric v id = err nil_dereference
check_voter (source f) v id = elim (f id) [
  | none ↦ err (voter_unknown id)
  | some c ↦ guard (supports_operation c v) (voter_lacks_schema id v)
]

abbrev pub is_voter : Suffrage → Bool
is_voter voter = true
is_voter nonvoter = false
is_voter staging = false

unfoldable pub check_voters : CapabilitySource → ℤ → List Server → Result Error (Unit {0})
unfolding check_voter
check_voters src v [] = ok tt
check_voters src v (s ∷ ss) =
    let rest = check_voters src v ss in
    if is_voter s.suffrage then (check_voter src v s.id >> rest) else rest

-- After the node's own support is known: a nil interface ends the check.
unfoldable pub check_source :
    CapabilitySource → ℤ → Result Error (List Server) → Result Error (Unit {0})
unfolding check_voters
check_source absent v cfg = ok tt
check_source nil_fabric v cfg = cfg >>= check_voters nil_fabric v
check_source (source f) v cfg = cfg >>= check_voters (source f) v

abbrev pub is_leader : RaftState → Bool
is_leader leader = true
is_leader follower = false
is_leader candidate = false
is_leader shutdown = false

-- The type switch on the response.
unfoldable pub read_outcome : Outcome → Result Error ApplyResult
read_outcome (apply_failed e) = err (consensus_failed e)
read_outcome (responded x) = x
read_outcome other_response = err unexpected_response

-- `requireVoterSchemaSupport`
unfoldable pub require_voter_schema_support :
    {Bytes : Type 0} → Raft Bytes → Node → ℤ → Result Error (Unit {0})
unfolding check_source supports_operation
require_voter_schema_support r n v = do
  guard (supports_operation n.caps v) (node_lacks_schema n.id v)
  check_source n.cap_src v r.configuration

-- The test of a retried identity.
unfoldable pub check_known :
    {Bytes : Type 0} → Codec Bytes → Node → Operation → Result Error (Unit {0})
unfolding machine_knows digest
check_known c n op = elim (machine_knows n.fsm op.id) [
  | none ↦ ok tt
  | some sum ↦ do d ← digest c op; guard (str_eq d sum) (known_with_other_payload op.id)
]

module _ {Bytes : Type 0} (c : Codec Bytes) (r : Raft Bytes) where
  unfoldable pub propose_local : String → Operation → Result Error ApplyResult
  unfolding read_outcome encode
  propose_local now op =
      if is_leader r.state
      then (do (op', bytes) ← encode c now op; read_outcome (r.apply bytes))
      else err not_leader

  unfoldable pub propose : Node → String → Operation → Result Error ApplyResult
  unfolding check_known require_voter_schema_support propose_local
  propose n now op = do
    check_known c n op
    if is_leader r.state then require_voter_schema_support r n op.version else ok tt
    propose_local now op

  -- `handlePropose`: a leader proposes, a follower forwards through the fabric if it has one.
  unfoldable pub handle_propose :
      Option (String → String → Operation → Result Error ApplyResult)
      → Node
      → String
      → Operation
      → Result Error ApplyResult
  unfolding propose_local
  handle_propose none n now op = if is_leader r.state then propose_local now op else err not_leader
  handle_propose (some forward) n now op =
      if is_leader r.state
      then propose_local now op
      else if str_eq r.leader_id ""
      then err not_leader
      else forward n.id r.leader_id op
