-- ===== src/Replication/Snapshot/Transfer.antt =====
-- A snapshot that one node persists and another restores.
use gantry_core.Base.{◌≡◌, refl, sym, ◌∙◌, true, false, String, List, str_eq, eq_iff, arith}
use gantry_core.Base.Int.{ℤ, ltb_ℤ}
use gantry_core.Base.Result.{ok, err}
use gantry_core.Replication.Error.{node_lacks_snapshot_version}
use gantry_core.Replication.Operation.{Codec, supported_version}
use gantry_core.Replication.Fsm.{Kvfsm, Log, run}
use gantry_core.Replication.Fsm.View.{SameView, run-Agree, answers}
use gantry_core.Replication.Snapshot.{
  SnapshotEnvelope, SnapshotCodec, SameContent, IsLawful, snapshot, snapshot_format_version,
  content_digest, decode_snapshot, persist, restore, admit_snapshot, validate_envelope,
}

-- The envelope that `Persist` builds for the machine.
abbrev envelope : Kvfsm → String → SnapshotEnvelope
envelope f integrity = record {
  format_version = snapshot_format_version;
  replication_version = f.supported;
  product = f.product;
  raft_index = f.applied_index;
  raft_term = f.applied_term;
  state = f.state;
  applied_ops = f.applied;
  integrity = integrity;
}

module _ {Bytes : Type 0} (c : SnapshotCodec Bytes) (law : IsLawful c) where
  written : Kvfsm → Bytes
  written f = c.marshal (envelope f (content_digest c (envelope f "")))

  persist-eq-ok :
      (f : Kvfsm) → supported_version f.supported ≡ true → persist c (snapshot f) ≡ ok (written f)
  unfolding persist snapshot written content_digest
  persist-eq-ok f h = rw (h, persist)

  content_digest-SameContent :
      (e e' : SnapshotEnvelope) → SameContent e e' → content_digest c e' ≡ content_digest c e
  unfolding content_digest
  content_digest-SameContent e e' s = law.digest_stable _ _ (record {
    format_version = s.format_version;
    replication_version = s.replication_version;
    product = s.product;
    raft_index = s.raft_index;
    raft_term = s.raft_term;
    state = s.state;
    applied_ops = s.applied_ops;
    integrity = refl;
  })

  -- What the receiver decodes is the sender's envelope, up to the order of its maps.
  decode-written :
      (f : Kvfsm)
      → (e : SnapshotEnvelope) × (decode_snapshot c (written f) ≡ ok e)
        × SameContent (envelope f (content_digest c (envelope f ""))) e
  unfolding decode_snapshot written
  decode-written f =
      let (e, r, s) = law.reads_back (envelope f (content_digest c (envelope f ""))) in
      let fact : str_eq e.integrity (content_digest c e) ≡ true =
        (eq_iff _ _).1 (s.integrity ∙ sym (content_digest-SameContent _ e s ∙ cleared f)) in
      (e, rw (r, fact, decode_snapshot), s)
    where
      cleared :
          (f : Kvfsm)
          → content_digest c (envelope f (content_digest c (envelope f "")))
            ≡ content_digest c (envelope f "")
      cleared f = unfold content_digest in refl

  checks :
      (f : Kvfsm) (v : ℤ) (e : SnapshotEnvelope) (x : String)
      → supported_version f.supported ≡ true
      → SameContent (envelope f x) e
      → (validate_envelope e ≡ ok tt) × (ltb_ℤ v e.replication_version ≡ ltb_ℤ v f.supported)
  unfolding validate_envelope
  checks f v e x h s = (
    rw (s.format_version, s.replication_version, validate_envelope) (rw h),
    rw s.replication_version,
  )

  -- A machine whose schema version is supported can persist a snapshot, and a node that supports
  -- that version restores it: the restored machine agrees with the first on the product, on every
  -- key, on every applied identity and on the applied position, and keeps its own schema support.
  pub restore-persist :
      (f g : Kvfsm)
      → supported_version f.supported ≡ true
      → ltb_ℤ g.supported f.supported ≡ false
      → (b : Bytes) × (persist c (snapshot f) ≡ ok b)
        × ((restore c g b).1 ≡ ok tt)
        × SameView f (restore c g b).0
        × ((restore c g b).0.supported ≡ g.supported)
  unfolding restore admit_snapshot
  restore-persist f g h l =
      let (e, d, s) = decode-written f in
      let (v, n) = checks f g.supported e _ h s in
      let a : admit_snapshot c g.supported (written f) ≡ ok e = rw (d, v, n, l, admit_snapshot) in
      (
        written f,
        persist-eq-ok f h,
        rw (a, restore),
        rw (a, restore)
            (record {
              product = sym s.product;
              state = λ key. sym (s.state key);
              applied = λ key. sym (s.applied_ops key);
              applied_index = sym s.raft_index;
              applied_term = sym s.raft_term;
            }),
        rw (a, restore),
      )

  -- A node that does not support the schema version of the snapshot refuses it and is unchanged.
  pub restore_newer :
      (f g : Kvfsm)
      → supported_version f.supported ≡ true
      → ltb_ℤ g.supported f.supported ≡ true
      → (b : Bytes) × (persist c (snapshot f) ≡ ok b)
        × (restore c g b ≡ (g, err (node_lacks_snapshot_version f.supported g.supported)))
  unfolding restore admit_snapshot
  restore_newer f g h l =
      let (e, d, s) = decode-written f in
      let (v, n) = checks f g.supported e _ h s in
      let a : admit_snapshot c g.supported (written f)
          ≡ err (node_lacks_snapshot_version f.supported g.supported) =
        rw (d, v, n, l, admit_snapshot) (rw s.replication_version) in
      (written f, persist-eq-ok f h, rw (a, restore))

  -- A node with the same schema support that restores a snapshot and then applies any further log
  -- gives the same answers and ends in agreement with the machine that applied the log itself.
  pub catch_up :
      {Wire : Type 0} (k : Codec Wire) (f g : Kvfsm) (ls : List (Log Wire))
      → supported_version f.supported ≡ true
      → g.supported ≡ f.supported
      → (b : Bytes) × (persist c (snapshot f) ≡ ok b)
        × SameView (run k f ls) (run k (restore c g b).0 ls)
        × (answers k f ls ≡ answers k (restore c g b).0 ls)
  catch_up k f g ls h e =
      let (b, p, _, v, s) = restore-persist f g h (rw e (ground arith)) in
      let (x, y) = run-Agree k f (restore c g b).0 ls v (sym e ∙ sym s) in (b, p, x, y)
