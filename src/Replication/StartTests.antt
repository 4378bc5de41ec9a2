-- ===== src/Replication/StartTests.antt =====
-- Starts of a node, as runs and as their theorem at a concrete input. The stores list the nodes that
-- bootstrapped them.
use gantry_core.Base.{◌≡◌, refl, Bool, true, false, String, none, List, [], ◌∷◌}
use gantry_core.Base.Int.{pos}
use gantry_core.Base.Result.{ok, err}
use gantry_core.Replication.Error.{stores_missing}
use gantry_core.Replication.Node.Started.{NodeOptions, Consensus, start_node, starts, config_of}
use gantry_core.Replication.Node.Started.Restart.{IsPersistent, unbootstrapped, starts-restart}

abbrev is_started : List String → Bool
is_started [] = false
is_started (id ∷ ids) = true

abbrev counted : Consensus (List String) String
counted = record {
  default_config = record {
    local_id = "";
    log_output = true;
    heartbeat_timeout = pos 1000;
    election_timeout = pos 1000;
    commit_timeout = pos 50;
    leader_lease_timeout = pos 500;
    snapshot_interval = pos 120000;
    snapshot_threshold = 8192;
    trailing_logs = 10240;
    shutdown_on_remove = true;
  };
  has_existing_state = λ s. ok (is_started s);
  bootstrap_cluster = λ conf members s. (conf.local_id ∷ s, ok tt);
  new_raft = λ conf s. (s, ok conf.local_id);
}

counted-IsPersistent : IsPersistent counted
counted-IsPersistent = record {
  bootstrap_leaves = λ conf members s h. refl;
  start_keeps = λ conf s h. h;
}

abbrev first_start : NodeOptions
first_start = record {
  id = "a";
  address = "node-a";
  transport = true;
  log_store = true;
  stable_store = true;
  snapshot_store = true;
  bootstrap = true;
  heartbeat_timeout = pos 0;
  election_timeout = pos 0;
  commit_timeout = pos 0;
  leader_lease_timeout = pos 0;
  propose_timeout = pos 0;
  supported_replication_version = pos 2;
  supported_snapshot_format = pos 0;
  features = [];
  machine = none;
  capability_source = none;
  logger = false;
}

-- Three starts bootstrap once.
bootstrapped_once :
    (starts counted none (first_start ∷ first_start ∷ first_start ∷ []) []).0 ≡ "a" ∷ []
unfolding starts start_node config_of
bootstrapped_once = refl

-- Without a transport nothing is touched.
no_transport :
    start_node counted (record first_start { transport = false }) none [] ≡ ([], err stores_missing)
unfolding start_node
no_transport = refl

starts-restart_example :
    starts counted none (first_start ∷ []) (start_node counted first_start none []).0
    ≡ starts counted none
        (unbootstrapped first_start ∷ [])
        (start_node counted first_start none []).0
unfolding start_node config_of
starts-restart_example =
    starts-restart counted counted-IsPersistent none first_start (first_start ∷ []) [] _ refl refl
