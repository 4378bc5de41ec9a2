-- ===== src/Replication/Snapshot.antt =====
-- Filtered logical snapshots: the envelope (replication/snapshot.go), and `Snapshot`, `Persist` and
-- `Restore` of the machine (replication/kvfsm.go).
pub mod Transfer
use gantry_core.Base.{ℕ, ◌≡◌, not, String, Option, none, some, Assoc, str_eq}
use gantry_core.Base.Int.{ℤ, pos, ltb_ℤ, eq_ℤ}
use gantry_core.Base.Result.{Result, ok, err, ◌>>=◌, ◌>>◌, guard}
use gantry_core.Replication.Error.{
  Error, malformed_snapshot, integrity_mismatch, unsupported_format, unsupported_snapshot_version,
  node_lacks_snapshot_version,
}
use gantry_core.Replication.Operation.{supported_version}
use gantry_core.Replication.Fsm.View.{SameMap}
use gantry_core.Replication.Fsm.{Kvfsm, KvEntry, AppliedOp}

-- `SnapshotFormatVersion`
abbrev pub snapshot_format_version : ℤ
snapshot_format_version = pos 1

pub record SnapshotEnvelope : Type 0 where
  pub format_version : ℤ
  pub replication_version : ℤ
  pub product : String
  pub raft_index : ℕ
  pub raft_term : ℕ
  pub state : Assoc KvEntry
  pub applied_ops : Assoc AppliedOp
  pub integrity : String

-- What the package takes from encoding/json and crypto/sha256. `marshal` fails for no envelope.
pub record SnapshotCodec (Bytes : Type 0) : Type 0 where
  pub marshal : SnapshotEnvelope → Bytes
  pub unmarshal : Bytes → Option SnapshotEnvelope
  pub sha256_hex : Bytes → String

pub record SameContent (e e' : SnapshotEnvelope) : Type 0 where
  pub format_version : e'.format_version ≡ e.format_version
  pub replication_version : e'.replication_version ≡ e.replication_version
  pub product : e'.product ≡ e.product
  pub raft_index : e'.raft_index ≡ e.raft_index
  pub raft_term : e'.raft_term ≡ e.raft_term
  pub state : SameMap e'.state e.state
  pub applied_ops : SameMap e'.applied_ops e.applied_ops
  pub integrity : e'.integrity ≡ e.integrity

-- What encoding/json documents: an envelope is read back with the same content, and, since the keys
-- of a map are written in order, equal content has equal bytes and so an equal digest.
pub record IsLawful {Bytes : Type 0} (c : SnapshotCodec Bytes) : Type 0 where
  pub reads_back :
      (e : SnapshotEnvelope)
      → (e' : SnapshotEnvelope) × (c.unmarshal (c.marshal e) ≡ some e') × SameContent e e'
  pub digest_stable :
      (e e' : SnapshotEnvelope)
      → SameContent e e'
      → c.sha256_hex (c.marshal e') ≡ c.sha256_hex (c.marshal e)

-- The method `validate` of the envelope.
unfoldable pub validate_envelope : SnapshotEnvelope → Result Error (Unit {0})
unfolding supported_version
validate_envelope e = do
  guard (eq_ℤ e.format_version snapshot_format_version) (unsupported_format e.format_version)
  guard (supported_version e.replication_version)
      (unsupported_snapshot_version e.replication_version)

-- The `kvSnapshot` that `Snapshot` captures.
pub record KvSnapshot : Type 0 where
  pub product : String
  pub supported : ℤ
  pub state : Assoc KvEntry
  pub applied : Assoc AppliedOp
  pub index : ℕ
  pub term : ℕ

unfoldable pub snapshot : Kvfsm → KvSnapshot
snapshot f = record {
  product = f.product;
  supported = f.supported;
  state = f.state;
  applied = f.applied;
  index = f.applied_index;
  term = f.applied_term;
}

module _ {Bytes : Type 0} (c : SnapshotCodec Bytes) where
  -- `contentDigest`: the digest of the envelope with its integrity cleared.
  unfoldable pub content_digest : SnapshotEnvelope → String
  content_digest e = c.sha256_hex (c.marshal (record e { integrity = "" }))

  unfoldable pub encode_snapshot : SnapshotEnvelope → Result Error Bytes
  unfolding validate_envelope content_digest
  encode_snapshot e = do
    validate_envelope e
    ok (c.marshal (record e { integrity = content_digest e }))

  unfoldable pub decode_snapshot : Bytes → Result Error SnapshotEnvelope
  unfolding content_digest
  decode_snapshot b = elim (c.unmarshal b) [
    | none ↦ err malformed_snapshot
    | some e ↦ do guard (str_eq e.integrity (content_digest e)) integrity_mismatch; ok e
  ]

  -- What `Persist` writes to a sink that takes it.
  unfoldable pub persist : KvSnapshot → Result Error Bytes
  unfolding encode_snapshot
  persist s = encode_snapshot (record {
    format_version = snapshot_format_version;
    replication_version = s.supported;
    product = s.product;
    raft_index = s.index;
    raft_term = s.term;
    state = s.state;
    applied_ops = s.applied;
    integrity = "";
  })

  -- The checks of `Restore`, before the machine is touched.
  unfoldable pub admit_snapshot : ℤ → Bytes → Result Error SnapshotEnvelope
  unfolding decode_snapshot validate_envelope
  admit_snapshot supported b = do
    env ← decode_snapshot b
    validate_envelope env
    guard (not (ltb_ℤ supported env.replication_version))
        (node_lacks_snapshot_version env.replication_version supported)
    ok env

  -- `Restore`: the machine that it leaves, and its error if any.
  unfoldable pub restore : Kvfsm → Bytes → Kvfsm × Result Error (Unit {0})
  unfolding admit_snapshot
  restore f b = elim (admit_snapshot f.supported b) [
    | err e ↦ (f, err e)
    | ok env ↦ (
      record f {
        product = env.product;
        state = env.state;
        applied = env.applied_ops;
        applied_index = env.raft_index;
        applied_term = env.raft_term;
      },
      ok tt,
    )
  ]
