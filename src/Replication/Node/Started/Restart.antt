-- ===== src/Replication/Node/Started/Restart.antt =====
-- A restart of a node leaves the cluster that its stores hold (replication/node.go: NewNode).
use gantry_core.Base.{
  ◌≡◌, refl, sym, ap, ◌∙◌, inl, inr, Bool, true, false, String, Option, List, [], ◌∷◌,
  if◌then◌else◌, map, arith, Bool-cases,
}
use gantry_core.Base.Result.{Result, ok, err}
use gantry_core.Replication.Error.{Error, stores_missing}
use gantry_core.Replication.Node.{Capabilities, Server}
use gantry_core.Replication.Node.Started.{
  RaftConfig, NodeOptions, Consensus, Started, bootstrapped, bootstrap_unless, bootstrap_if,
  started_as, start_with, start_node, starts, is_complete, config_of, sole_voter,
}

-- What the consensus library documents: a bootstrap that succeeds leaves state, which its start
-- keeps.
pub record IsPersistent {S R : Type 0} (k : Consensus S R) : Type 0 where
  pub bootstrap_leaves :
      (conf : RaftConfig) (members : List (Server × String)) (s : S)
      → (k.bootstrap_cluster conf members s).1 ≡ ok tt
      → k.has_existing_state (k.bootstrap_cluster conf members s).0 ≡ ok true
  pub start_keeps :
      (conf : RaftConfig) (s : S)
      → k.has_existing_state s ≡ ok true
      → k.has_existing_state (k.new_raft conf s).0 ≡ ok true

abbrev pub unbootstrapped : NodeOptions → NodeOptions
unbootstrapped o = record o { bootstrap = false }

module _ {S R : Type 0} (k : Consensus S R) (lawful : IsPersistent k)
    (fabric : Option (String → Option Capabilities)) where
  abbrev HoldsState : S → Type 0
  HoldsState s = k.has_existing_state s ≡ ok true

  stores-started_as :
      (o : NodeOptions) (x : S × Result String R) → (started_as k o fabric x).0 ≡ x.0
  unfolding started_as
  stores-started_as o (s, err e) = refl
  stores-started_as o (s, ok r) = refl

  bootstrap_skipped :
      (o : NodeOptions) (b : Bool) (s : S)
      → HoldsState s
      → bootstrap_if k (record o { bootstrap = b }) s ≡ (s, ok tt)
  unfolding bootstrap_if bootstrap_unless
  bootstrap_skipped o false s h = refl
  bootstrap_skipped o true s h = rw h refl

  -- On stores that hold state, whatever the flag.
  start_on_state :
      (o : NodeOptions) (b : Bool) (s : S)
      → HoldsState s
      → start_node k (record o { bootstrap = b }) fabric s
        ≡ (if is_complete o then start_with k o fabric (s, ok tt) else (s, err stores_missing))
  unfolding start_node start_with started_as config_of
  start_on_state o b s h = rw (bootstrap_skipped o b s h) refl

  start_unbootstrapped :
      (o : NodeOptions) (s : S)
      → HoldsState s
      → start_node k o fabric s ≡ start_node k (unbootstrapped o) fabric s
  start_unbootstrapped o s h = start_on_state o o.bootstrap s h ∙ sym (start_on_state o false s h)

  start_with_keeps :
      (o : NodeOptions) (s : S) → HoldsState s → HoldsState (start_with k o fabric (s, ok tt)).0
  unfolding start_with
  start_with_keeps o s h =
      rw (stores-started_as o (k.new_raft (config_of k.default_config o) s))
        (lawful.start_keeps (config_of k.default_config o) s h)

  start_keeps_state :
      (o : NodeOptions) (s : S) → HoldsState s → HoldsState (start_node k o fabric s).0
  start_keeps_state o s h = elim (Bool-cases (is_complete o)) [
    | inl y ↦ rw (start_on_state o o.bootstrap s h, y) (start_with_keeps o s h)
    | inr y ↦ rw (start_on_state o o.bootstrap s h, y) h
  ]

  -- Starts on stores that hold state do not depend on the flag.
  starts-unbootstrapped :
      (os : List NodeOptions) (s : S)
      → HoldsState s
      → starts k fabric os s ≡ starts k fabric (map unbootstrapped os) s
  unfolding starts
  starts-unbootstrapped [] s h = refl
  starts-unbootstrapped (o ∷ os) s h =
      let rest = starts-unbootstrapped os (start_node k o fabric s).0 (start_keeps_state o s h) in
      let first = start_unbootstrapped o s h in
      ap (λ y. (y.0, (start_node k o fabric s).1 ∷ y.1)) rest
      ∙ ap (λ x. (let y = starts k fabric (map unbootstrapped os) x.0 in (y.0, x.1 ∷ y.1))) first

  started-state :
      (o : NodeOptions) (x : S × Result Error (Unit {0})) {n : Started R}
      → (x.1 ≡ ok tt → HoldsState x.0)
      → (start_with k o fabric x).1 ≡ ok n
      → HoldsState (start_with k o fabric x).0
  unfolding start_with
  started-state o (s, err e) h y = absurd (cc)
  started-state o (s, ok u) h y = start_with_keeps o s (h refl)

  bootstrapped-state :
      (x : S × Result String (Unit {0}))
      → (x.1 ≡ ok tt → HoldsState x.0)
      → (bootstrapped k x).1 ≡ ok tt
      → HoldsState (bootstrapped k x).0
  unfolding bootstrapped
  bootstrapped-state (s, err e) h y = absurd (cc)
  bootstrapped-state (s, ok u) h y = h refl

  bootstrap-state :
      (o : NodeOptions) (s : S) (has : Result String Bool)
      → k.has_existing_state s ≡ has
      → (bootstrap_unless k o s has).1 ≡ ok tt
      → HoldsState (bootstrap_unless k o s has).0
  unfolding bootstrap_unless
  bootstrap-state o s (err e) h y = absurd (cc)
  bootstrap-state o s (ok true) h y = h
  bootstrap-state o s (ok false) h y =
      bootstrapped-state _ (lawful.bootstrap_leaves (config_of k.default_config o) (sole_voter o) s)
        y

  flagged :
      (o : NodeOptions) (s : S)
      → is_complete o ≡ true
      → o.bootstrap ≡ true
      → start_node k o fabric s
        ≡ start_with k o fabric (bootstrap_unless k o s (k.has_existing_state s))
  unfolding start_node bootstrap_if
  flagged o s z b = rw (z, b) refl

  -- A start with the flag that succeeds leaves stores that hold state.
  start-state :
      (o : NodeOptions) (s : S) {n : Started R}
      → o.bootstrap ≡ true
      → (start_node k o fabric s).1 ≡ ok n
      → HoldsState (start_node k o fabric s).0
  unfolding start_node bootstrap_if
  start-state o s b y = elim (Bool-cases (is_complete o)) [
    | inl z ↦
        let e = flagged o s z b in
        rw e (
          started-state o (bootstrap_unless k o s (k.has_existing_state s))
            (bootstrap-state o s (k.has_existing_state s) refl) (ap (λ x. x.1) (sym e) ∙ y))
    | inr z ↦ absurd (ground (arith, z, y))
  ]

  -- Once a node has been started with the bootstrap flag, no later start on its stores bootstraps
  -- them again: whatever options the later starts are given, their results and the stores they leave
  -- are those of starts without the flag.
  pub starts-restart :
      (o : NodeOptions) (os : List NodeOptions) (s : S) (n : Started R)
      → o.bootstrap ≡ true
      → (start_node k o fabric s).1 ≡ ok n
      → starts k fabric os (start_node k o fabric s).0
        ≡ starts k fabric (map unbootstrapped os) (start_node k o fabric s).0
  starts-restart o os s n b h =
      starts-unbootstrapped os (start_node k o fabric s).0 (start-state o s b h)
