-- ===== src/Replication/Node/Started.antt =====
-- The start of a node over its stores (replication/node.go: NodeOptions, NewNode). The consensus
-- library is a record of the calls that NewNode makes, over the content of the stores.
pub mod Restart
use gantry_core.Base.{
  ℕ, ◌*◌, Bool, true, false, ◌&&◌, String, Option, none, some, List, [], ◌∷◌, if◌then◌else◌,
}
use gantry_core.Base.Int.{ℤ, pos, ltb_ℤ}
use gantry_core.Base.Result.{Result, ok, err}
use gantry_core.Replication.Error.{Error, stores_missing, bootstrap_failed, consensus_failed}
use gantry_core.Replication.Node.{Capabilities, Server, voter, Machine, Node, new_node}

-- The part of raft.Config that the options set. `log_output` tells a given logger from `io.Discard`.
pub record RaftConfig : Type 0 where
  pub local_id : String
  pub log_output : Bool
  pub heartbeat_timeout : ℤ
  pub election_timeout : ℤ
  pub commit_timeout : ℤ
  pub leader_lease_timeout : ℤ
  pub snapshot_interval : ℤ
  pub snapshot_threshold : ℕ
  pub trailing_logs : ℕ
  pub shutdown_on_remove : Bool

-- The stores and the transport are `S`, with what they hold; whether each of the four is given
-- stands beside it. The machine is the reference one.
pub record NodeOptions : Type 0 where
  pub id : String
  pub address : String
  pub transport : Bool
  pub log_store : Bool
  pub stable_store : Bool
  pub snapshot_store : Bool
  pub bootstrap : Bool
  pub heartbeat_timeout : ℤ
  pub election_timeout : ℤ
  pub commit_timeout : ℤ
  pub leader_lease_timeout : ℤ
  pub propose_timeout : ℤ
  pub supported_replication_version : ℤ
  pub supported_snapshot_format : ℤ
  pub features : List String
  pub machine : Option Machine
  pub capability_source : Option (String → Option Capabilities)
  pub logger : Bool

-- raft.HasExistingState, raft.BootstrapCluster and raft.NewRaft, with the stores they leave and the
-- text of their errors, and raft.DefaultConfig. `R` is what NewRaft starts.
pub record Consensus (S R : Type 0) : Type 0 where
  pub default_config : RaftConfig
  pub has_existing_state : S → Result String Bool
  pub bootstrap_cluster : RaftConfig → List (Server × String) → S → S × Result String (Unit {0})
  pub new_raft : RaftConfig → S → S × Result String R

-- `if opts.X > 0 { conf.X = opts.X }`
unfoldable pub positive_or_default : ℤ → ℤ → ℤ
positive_or_default given default = if ltb_ℤ (pos 0) given then given else default

abbrev milliseconds : ℕ → ℤ
milliseconds n = pos (n * 1_000_000)

abbrev sole_voter : NodeOptions → List (Server × String)
sole_voter o = (record { id = o.id; suffrage = voter }, o.address) ∷ []

-- `conf`
unfoldable pub config_of : RaftConfig → NodeOptions → RaftConfig
unfolding positive_or_default
config_of default o = record {
  local_id = o.id;
  log_output = o.logger;
  heartbeat_timeout = positive_or_default o.heartbeat_timeout default.heartbeat_timeout;
  election_timeout = positive_or_default o.election_timeout default.election_timeout;
  commit_timeout = positive_or_default o.commit_timeout default.commit_timeout;
  leader_lease_timeout = positive_or_default o.leader_lease_timeout default.leader_lease_timeout;
  snapshot_interval = milliseconds (24 * 60 * 60 * 1000);
  snapshot_threshold = 1_073_741_824;
  trailing_logs = 8;
  shutdown_on_remove = false;
}

-- The node beside what NewRaft started, and the capabilities that it registers at a fabric.
pub record Started (R : Type 0) : Type 0 where
  pub node : Node
  pub raft : R
  pub address : String
  pub timeout : ℤ
  pub registered : Option Capabilities

-- `RegisterCapabilities`, if there is a fabric.
unfoldable pub register_at :
    Option (String → Option Capabilities) → Capabilities → Option Capabilities
register_at none caps = none
register_at (some f) caps = some caps

abbrev pub is_complete : NodeOptions → Bool
is_complete o = o.log_store && o.stable_store && o.snapshot_store && o.transport

module _ {S R : Type 0} (k : Consensus S R) where
  unfoldable pub bootstrapped : S × Result String (Unit {0}) → S × Result Error (Unit {0})
  bootstrapped (s, err e) = (s, err (bootstrap_failed e))
  bootstrapped (s, ok u) = (s, ok tt)

  unfoldable pub bootstrap_unless :
      NodeOptions → S → Result String Bool → S × Result Error (Unit {0})
  unfolding bootstrapped config_of
  bootstrap_unless o s (err e) = (s, err (consensus_failed e))
  bootstrap_unless o s (ok true) = (s, ok tt)
  bootstrap_unless o s (ok false) =
      bootstrapped (k.bootstrap_cluster (config_of k.default_config o) (sole_voter o) s)

  -- `if opts.Bootstrap`
  unfoldable pub bootstrap_if : NodeOptions → S → S × Result Error (Unit {0})
  unfolding bootstrap_unless
  bootstrap_if o s =
      if o.bootstrap then bootstrap_unless o s (k.has_existing_state s) else (s, ok tt)

  unfoldable pub started_as :
      NodeOptions
      → Option (String → Option Capabilities)
      → S × Result String R
      → S × Result Error (Started R)
  unfolding new_node register_at positive_or_default
  started_as o fabric (s, err e) = (s, err (consensus_failed e))
  started_as o fabric (s, ok r) =
      let node =
        new_node o.id o.machine o.supported_replication_version o.supported_snapshot_format
          o.features o.capability_source fabric in
      (
        s,
        ok (record {
          node = node;
          raft = r;
          address = o.address;
          timeout = positive_or_default o.propose_timeout (milliseconds 5000);
          registered = register_at fabric node.caps;
        }),
      )

  unfoldable pub start_with :
      NodeOptions
      → Option (String → Option Capabilities)
      → S × Result Error (Unit {0})
      → S × Result Error (Started R)
  unfolding started_as config_of
  start_with o fabric (s, err e) = (s, err e)
  start_with o fabric (s, ok u) = started_as o fabric (k.new_raft (config_of k.default_config o) s)

  -- `NewNode`
  unfoldable pub start_node :
      NodeOptions → Option (String → Option Capabilities) → S → S × Result Error (Started R)
  unfolding start_with bootstrap_if
  start_node o fabric s =
      if is_complete o then start_with o fabric (bootstrap_if o s) else (s, err stores_missing)

  -- One start after another, with the stores that the last one left.
  unfoldable pub starts :
      Option (String → Option Capabilities)
      → List NodeOptions
      → S
      → S × List (Result Error (Started R))
  starts fabric [] s = (s, [])
  starts fabric (o ∷ os) s =
      let (s', x) = start_node o fabric s in let (s'', xs) = starts fabric os s' in (s'', x ∷ xs)
