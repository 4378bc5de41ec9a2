-- ===== src/Replication/Node/Export.antt =====
-- Snapshots of a node and its calls of the consensus library (replication/node.go: ExportSnapshot,
-- ApplySnapshot, AddVoter, AddNonvoter, RemoveServer, DemoteVoter, LeadershipTransfer, Barrier,
-- Snapshot, Shutdown).
use gantry_core.Base.{ℕ, ◌≡◌, refl, ap, ◌∙◌, true, false, String, Option, none, some}
use gantry_core.Base.Int.{ℤ, ltb_ℤ}
use gantry_core.Base.Result.{Result, ok, err}
use gantry_core.Replication.Error.{Error, consensus_failed}
use gantry_core.Replication.Operation.{supported_version}
use gantry_core.Replication.Fsm.{Kvfsm}
use gantry_core.Replication.Fsm.View.{SameView}
use gantry_core.Replication.Snapshot.{SnapshotCodec, IsLawful, snapshot, persist, restore}
use gantry_core.Replication.Snapshot.Transfer.{restore-persist}
use gantry_core.Replication.Node.{StateMachine, Machine, reference, custom, Node, set_local}

-- `Snapshot` with `Persist`, and `Restore`, of a machine that the product gives.
pub record Persists (Bytes : Type 0) : Type 0 where
  pub persist_custom : StateMachine → Result Error Bytes
  pub restore_custom : StateMachine → Bytes → StateMachine × Result Error (Unit {0})

module _ {Bytes : Type 0} (c : SnapshotCodec Bytes) (p : Persists Bytes) where
  unfoldable pub persist_machine : Machine → Result Error Bytes
  unfolding snapshot persist
  persist_machine (reference f) = persist c (snapshot f)
  persist_machine (custom s) = p.persist_custom s

  abbrev into_machine {ℓ} :
      {A : Type ℓ} → (A → Machine) → A × Result Error (Unit {0}) → Machine × Result Error (Unit {0})
  into_machine as_machine (f, x) = (as_machine f, x)

  unfoldable pub restore_machine : Machine → Bytes → Machine × Result Error (Unit {0})
  unfolding restore
  restore_machine (reference f) b = into_machine reference (restore c f b)
  restore_machine (custom s) b = into_machine custom (p.restore_custom s b)

  -- `ExportSnapshot`: the sink in memory takes what `Persist` writes.
  unfoldable pub export_snapshot : Node → Result Error Bytes
  unfolding persist_machine
  export_snapshot n = persist_machine n.fsm

  abbrev with_fsm : Node → Machine × Result Error (Unit {0}) → Node × Result Error (Unit {0})
  with_fsm n (f, x) = (record n { fsm = f }, x)

  -- `ApplySnapshot`
  unfoldable pub apply_snapshot : Node → Bytes → Node × Result Error (Unit {0})
  unfolding restore_machine
  apply_snapshot n b = with_fsm n (restore_machine n.fsm b)

-- What a node asks of raft's membership and life; the index before which a change must not be made
-- is 0.
pub data RaftCall : Type 0 where
  add_voter_call add_nonvoter_call : String → String → ℕ → ℤ → RaftCall
  remove_server_call demote_voter_call : String → ℕ → ℤ → RaftCall
  barrier_call : ℤ → RaftCall
  leadership_transfer_call snapshot_call shutdown_call : RaftCall

-- `future.Error()`
unfoldable pub future_error : Option String → Result Error (Unit {0})
future_error none = ok tt
future_error (some e) = err (consensus_failed e)

module _ (raft : RaftCall → Option String) (timeout : ℤ) where
  unfoldable pub add_voter : String → String → Result Error (Unit {0})
  unfolding future_error
  add_voter id address = future_error (raft (add_voter_call id address 0 timeout))

  unfoldable pub add_nonvoter : String → String → Result Error (Unit {0})
  unfolding future_error
  add_nonvoter id address = future_error (raft (add_nonvoter_call id address 0 timeout))

  unfoldable pub remove_server : String → Result Error (Unit {0})
  unfolding future_error
  remove_server id = future_error (raft (remove_server_call id 0 timeout))

  unfoldable pub demote_voter : String → Result Error (Unit {0})
  unfolding future_error
  demote_voter id = future_error (raft (demote_voter_call id 0 timeout))

  unfoldable pub barrier : Result Error (Unit {0})
  unfolding future_error
  barrier = future_error (raft (barrier_call timeout))

  unfoldable pub leadership_transfer : Result Error (Unit {0})
  unfolding future_error
  leadership_transfer = future_error (raft leadership_transfer_call)

  unfoldable pub trigger_snapshot : Result Error (Unit {0})
  unfolding future_error
  trigger_snapshot = future_error (raft snapshot_call)

  unfoldable pub shut_down : Result Error (Unit {0})
  unfolding future_error
  shut_down = future_error (raft shutdown_call)

module _ {Bytes : Type 0} (c : SnapshotCodec Bytes) (lawful : IsLawful c) (p : Persists Bytes) where
  -- What a node with a reference machine exports, whatever local values it has set meanwhile, another
  -- such node that supports its schema version applies: the machines then agree, and the other node keeps its local values and
  -- what it advertises.
  pub apply_snapshot-export_snapshot :
      (n m : Node) (f g : Kvfsm) (key val : String)
      → n.fsm ≡ reference f
      → m.fsm ≡ reference g
      → supported_version f.supported ≡ true
      → ltb_ℤ g.supported f.supported ≡ false
      → (b : Bytes) × (k : Kvfsm) × (export_snapshot c p (set_local n key val) ≡ ok b)
        × ((apply_snapshot c p m b).1 ≡ ok tt)
        × ((apply_snapshot c p m b).0.fsm ≡ reference k)
        × SameView f k
        × ((apply_snapshot c p m b).0.local ≡ m.local)
        × ((apply_snapshot c p m b).0.caps ≡ m.caps)
  unfolding export_snapshot apply_snapshot set_local persist_machine restore_machine
  apply_snapshot-export_snapshot n m f g key val nf mg h l =
      let (b, e, x, v, s) = restore-persist c lawful f g h l in
      (
        b,
        (restore c g b).0,
        ap (persist_machine c p) nf ∙ e,
        ap (λ y. (restore_machine c p y b).1) mg ∙ x,
        ap (λ y. (restore_machine c p y b).0) mg,
        v,
        refl,
        refl,
      )
