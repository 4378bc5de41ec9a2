-- ===== src/Replication/NodeTests.antt =====
-- The theorems on snapshots, nodes and routing at concrete inputs. The snapshot codec writes an
-- envelope as itself and digests its product.
use gantry_core.Base.{
  ◌≡◌, ◌≢◌, ◌↔◌, refl, true, false, String, Option, none, some, List, [], ◌∷◌, str_eq, All,
  if◌then◌else◌,
}
use gantry_core.Base.Int.{ℤ, pos, ltb_ℤ}
use gantry_core.Base.Result.{ok, err}
use gantry_core.Replication.Error.{nil_dereference, node_lacks_schema, standalone}
use gantry_core.Replication.Operation.{Operation, supported_version}
use gantry_core.Replication.Fsm.{Kvfsm, ApplyResult, new_with_schema, run}
use gantry_core.Replication.Fsm.View.{SameView, answers}
use gantry_core.Replication.Snapshot.{
  SnapshotEnvelope, SnapshotCodec, IsLawful, SameContent, snapshot, persist, restore,
}
use gantry_core.Replication.Snapshot.Transfer.{catch_up}
use gantry_core.Replication.Node.{
  Capabilities, source, reference, supports_operation, Node, Raft, leader, follower, Server, voter,
  nonvoter, new_node, responded, propose, propose_local, handle_propose,
}
use gantry_core.Replication.Node.Negotiation.{
  IsNegotiated, supported_by, by_default, by_upgrade, upgrades, new_node-upgrades-IsNegotiated,
}
use gantry_core.Replication.Node.Gate.{
  Accepts, propose-accepted, propose_standalone, handle_propose-gate,
}
use gantry_core.Replication.Authority.{
  Authority, replicated_mode, ready_leader, Cycle, route, derive, set_readiness, proposed,
  forwarded,
}
use gantry_core.Replication.Authority.Routing.{IsCaughtUp, route-derive}
use gantry_core.Replication.Tests.{plain, write, start, later, written_state, all_open}

abbrev image : SnapshotCodec SnapshotEnvelope
image = record { marshal = λ e. e; unmarshal = λ e. some e; sha256_hex = λ e. e.product }

same_content : (e : SnapshotEnvelope) → SameContent e e
same_content e = record {
  format_version = refl;
  replication_version = refl;
  product = refl;
  raft_index = refl;
  raft_term = refl;
  state = λ key. refl;
  applied_ops = λ key. refl;
  integrity = refl;
}

image-IsLawful : IsLawful image
image-IsLawful = record {
  reads_back = λ e. (e, refl, same_content e);
  digest_stable = λ e e' s. s.product;
}

abbrev older : Kvfsm
older = new_with_schema (pos 1)

supported_now : supported_version written_state.supported ≡ true
unfolding all_open
supported_now = refl

start_reads : ltb_ℤ start.supported written_state.supported ≡ false
unfolding all_open
start_reads = refl

older_lacks : ltb_ℤ older.supported written_state.supported ≡ true
unfolding all_open
older_lacks = refl

catch_up_example :
    (b : SnapshotEnvelope) × (persist image (snapshot written_state) ≡ ok b)
    × SameView (run plain written_state later) (run plain (restore image start b).0 later)
    × (answers plain written_state later ≡ answers plain (restore image start b).0 later)
catch_up_example =
    catch_up image image-IsLawful plain written_state start later supported_now same_support
  where
    same_support : start.supported ≡ written_state.supported
    same_support = unfold all_open in refl

-- Three nodes: `a` leads, `b` votes, `c` learns and supports only version 1.
abbrev member : String → Node
member id = new_node id none (if str_eq id "c" then pos 1 else pos 2) (pos 0) [] none none

abbrev registry : String → Option Capabilities
registry id = some (member id).caps

abbrev leading : Node
leading = new_node "a" none (pos 2) (pos 0) [] (some registry) none

abbrev servers : List Server
servers =
    record { id = "a"; suffrage = voter }
    ∷ record { id = "b"; suffrage = voter }
    ∷ record { id = "c"; suffrage = nonvoter }
    ∷ []

abbrev answer : ApplyResult
answer = record {
  index = 1;
  term = 1;
  op_id = "op-1";
  object_id = "k";
  kind = "kv.set";
  version = pos 2;
  revision = pos 1;
}

abbrev consensus : Raft Operation
consensus = record {
  state = leader;
  leader_id = "a";
  configuration = ok servers;
  apply = λ op. responded (ok answer);
}

abbrev newest : Operation
newest = record (write "op-1" "k" "v") { version = pos 2 }

leading_source : leading.cap_src ≡ source registry
unfolding new_node
leading_source = refl

member_known :
    (id : String) (k : Capabilities)
    → registry id ≡ some k
    → (k ≡ (member id).caps) × IsNegotiated (member id)
unfolding new_node upgrades
member_known id k e = (
  cc,
  new_node-upgrades-IsNegotiated id none (if str_eq id "c" then pos 1 else pos 2) (pos 0) [] none
      none [] by_default,
)

propose-accepted_example : All (λ s. s.suffrage ≡ voter → Accepts (member s.id).fsm (pos 2)) servers
unfolding all_open propose new_node
propose-accepted_example =
    propose-accepted plain consensus leading registry servers leading_source refl member "now"
      newest answer member_known refl refl

-- A machine for version 1, given to a node that would advertise version 2 as well.
abbrev given : Node
given = new_node "c" (some (reference older)) (pos 2) (pos 0) [] none none

given_unsettled :
    (supports_operation given.caps (pos 2) ≡ true) × (supported_by given.fsm ≡ some (pos 1))
unfolding new_node supports_operation new_with_schema
given_unsettled = (refl, refl)

new_node-upgrades-IsNegotiated_example : IsNegotiated (upgrades given (pos 2 ∷ []))
new_node-upgrades-IsNegotiated_example =
    new_node-upgrades-IsNegotiated "c" (some (reference older)) (pos 2) (pos 0) [] none none
      (pos 2 ∷ []) by_upgrade

standalone_dereferences_nil :
    propose plain consensus (member "a") "now" newest ≡ err nil_dereference
unfolding all_open propose new_node
standalone_dereferences_nil =
    propose_standalone plain consensus "a" none (pos 2) (pos 0) [] "now" newest
      (record { id = "a"; suffrage = voter })
      (record { id = "b"; suffrage = voter } ∷ record { id = "c"; suffrage = nonvoter } ∷ []) refl
      refl refl refl refl

-- `b` supports only version 1, so the gate of `a` refuses version 2.
abbrev cautious : Node
cautious = new_node "a" none (pos 1) (pos 0) [] (some registry) none

gate_passed_over :
    (propose plain consensus cautious "now" newest ≡ err (node_lacks_schema "a" (pos 2)))
    × (handle_propose plain consensus none cautious "now" newest
        ≡ propose_local plain consensus "now" newest)
unfolding all_open propose new_node
gate_passed_over =
    handle_propose-gate plain consensus none cautious "now" newest (node_lacks_schema "a" (pos 2))
      refl refl refl

abbrev replicated : Authority String
replicated = record { mode = replicated_mode; readiness = ready_leader; forward = none }

abbrev no_durations : String → Option ℤ
no_durations text = none

abbrev healthy : Cycle
healthy = record {
  sick = false;
  state = follower;
  leader_addr = "node-a";
  stats = record { applied_index = 5; last_log_index = 5; last_contact = "0" };
}

route-derive_example :
    let out =
      route (set_readiness replicated (derive no_durations healthy)) (ok answer) (err standalone) in
    ((out.0 ≡ proposed) ↔ ((false ≡ false) × (follower ≡ leader)))
    × (out.0 ≡ forwarded
        → (false ≡ false)
          × (follower ≡ follower)
          × (healthy.leader_addr ≢ "")
          × IsCaughtUp no_durations healthy.stats)
route-derive_example =
    route-derive no_durations replicated healthy (ok answer) (err standalone) refl
