-- ===== src/Replication/Error.antt =====
-- The errors of the replication package, with the values that their texts show.
use gantry_core.Base.{String}
use gantry_core.Base.Int.{ℤ}

pub data Error : Type 0 where
  missing_id missing_product missing_kind missing_object missing_payload : Error
  unsupported_version : ℤ → Error
  unsupported_kind : String → Error
  malformed_operation malformed_payload malformed_value : Error
  node_lacks_version : ℤ → ℤ → Error
  payload_changed : String → Error
  stale_mutation : String → ℤ → ℤ → Error
  malformed_snapshot integrity_mismatch : Error
  unsupported_format : ℤ → Error
  unsupported_snapshot_version : ℤ → Error
  node_lacks_snapshot_version : ℤ → ℤ → Error
  not_leader standalone no_configuration : Error
  mutation_unavailable : String → Error
  node_lacks_schema : String → ℤ → Error
  voter_unknown : String → Error
  voter_lacks_schema : String → ℤ → Error
  consensus_failed : String → Error
  unexpected_response nil_dereference : Error
  known_with_other_payload : String → Error
  unknown_node : String → Error
  forwarding_partitioned : String → String → Error
  context_done : String → Error
  stores_missing : Error
  bootstrap_failed : String → Error
