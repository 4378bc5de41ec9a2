-- ===== src/Replication/Authority/Routing.antt =====
-- A replicated node never falls back, and readiness is what the last cycle showed.
use gantry_core.Base.{
  ◌≤◌, ◌≡◌, ◌↔◌, ◌≢◌, inl, inr, refl, true, false, String, Option, some, List, [], ◌∷◌, arith,
  eq_iff, str_eq, Bool-cases, Option-cases,
}
use gantry_core.Base.Int.{ℤ, pos, ◌<ℤ◌}
use gantry_core.Base.Result.{err}
use gantry_core.Replication.Error.{standalone}
use gantry_core.Replication.Node.{follower, leader}
use gantry_core.Replication.Authority.{
  Authority, Mode, standalone_mode, replicated_mode, Readiness, ready_follower, ready_leader,
  shutting_down, Call, proposed, forwarded, nothing, Answer, by_mode, route, Stats, Cycle, derive,
  drive, set_readiness, caught_up,
}

-- The routing matrix, as the documentation states it.
abbrev pub Matrix : Mode → Readiness → Answer → Answer → Call × Answer → Type 0
Matrix m r propose forward out =
    ((out.0 ≡ proposed) ↔ ((m ≡ replicated_mode) × (r ≡ ready_leader)))
    × ((out.0 ≡ forwarded) ↔ ((m ≡ replicated_mode) × (r ≡ ready_follower)))
    × (out.0 ≡ proposed → out.1 ≡ propose)
    × (out.0 ≡ forwarded → out.1 ≡ forward)
    × ((out.1 ≡ err standalone × (out.0 ≡ nothing)) ↔ (m ≡ standalone_mode))

by_mode-Matrix :
    (m : Mode) (r : Readiness) (propose forward : Answer)
    → Matrix m r propose forward (by_mode m r propose forward)
unfolding by_mode
by_mode-Matrix standalone_mode r p f = ground arith
by_mode-Matrix replicated_mode ready_leader p f = ground arith
by_mode-Matrix replicated_mode ready_follower p f = ground arith
by_mode-Matrix replicated_mode _ p f = ground arith

-- The routing matrix, as the documentation states it: only a node configured as replicated and ready
-- as the leader proposes, only one ready as a follower forwards, each returning the answer of that
-- one call, and the local path is pointed to, with no call, exactly if the node is standalone.
pub route-Matrix :
    {F : Type 0} (a : Authority F) (propose forward : Answer)
    → Matrix a.mode a.readiness propose forward (route a propose forward)
unfolding route
route-Matrix a propose forward = by_mode-Matrix a.mode a.readiness propose forward

module _ (parse_duration : String → Option ℤ) where
  -- The follower's statistics show that it has processed its log and has heard from the leader
  -- within two seconds.
  pub data IsCaughtUp (s : Stats) : Type 0 where
    now : s.last_log_index ≤ s.applied_index → s.last_contact ≡ "0" → IsCaughtUp s
    recently :
        (d : ℤ)
        → s.last_log_index ≤ s.applied_index
        → parse_duration s.last_contact ≡ some d
        → d <ℤ pos 2000000000
        → s.last_contact ≢ ""
        → s.last_contact ≢ "never"
        → IsCaughtUp s

  caught_up-IsCaughtUp : (s : Stats) → caught_up parse_duration s ≡ true → IsCaughtUp s
  unfolding caught_up
  caught_up-IsCaughtUp s h = elim (Bool-cases (str_eq s.last_contact "0")) [
    | inl z ↦ now (ground arith) ((eq_iff _ _).0 z)
    | inr z ↦ elim (Option-cases (parse_duration s.last_contact)) [
      | inl n ↦ absurd (ground (arith, n, z))
      | inr (d, e) ↦
          recently d (ground arith) e (ground (arith, e, z))
            (ground (arith, eq_iff s.last_contact ""))
            (ground (arith, eq_iff s.last_contact "never"))
    ]
  ]

  derive_leader :
      (k : Cycle)
      → (derive parse_duration k ≡ ready_leader) ↔ ((k.sick ≡ false) × (k.state ≡ leader))
  unfolding derive
  derive_leader k = ground arith

  derive_follower :
      (k : Cycle)
      → (derive parse_duration k ≡ ready_follower) ↔ (
          (k.sick ≡ false)
          × (k.state ≡ follower)
          × (k.leader_addr ≢ "")
          × (caught_up parse_duration k.stats ≡ true))
  unfolding derive
  derive_follower k = ground (arith, eq_iff k.leader_addr "")

  -- With the readiness that one driver cycle derives, a replicated node proposes exactly if its
  -- health hook passed and raft made it leader. It forwards only if the hook passed, raft made it a
  -- follower with a known leader, and its statistics show it caught up.
  pub route-derive :
      {F : Type 0} (a : Authority F) (k : Cycle) (propose forward : Answer)
      → a.mode ≡ replicated_mode
      → let out = route (set_readiness a (derive parse_duration k)) propose forward in
        ((out.0 ≡ proposed) ↔ ((k.sick ≡ false) × (k.state ≡ leader)))
        × (out.0 ≡ forwarded
            → (k.sick ≡ false) × (k.state ≡ follower) × (k.leader_addr ≢ "") × IsCaughtUp k.stats)
  unfolding set_readiness
  route-derive a k propose forward m =
      let x = route-Matrix (set_readiness a (derive parse_duration k)) propose forward in
      (
        (λ h. (derive_leader k).0 (x.0.0 h).1, λ h. x.0.1 (m, (derive_leader k).1 h)),
        λ h.
            let (p, q, r, t) = (derive_follower k).0 (x.1.0 h).1 in
            (p, q, r, caught_up-IsCaughtUp k.stats t),
      )

  -- However the driver's cycles went, once its context is done the node makes no call for a
  -- mutation, whatever its mode.
  pub route-drive :
      {F : Type 0} (a : Authority F) (ks : List Cycle) (propose forward : Answer)
      → (route (drive parse_duration a ks) propose forward).0 ≡ nothing
  unfolding drive route by_mode
  route-drive a [] propose forward = stopped a.mode propose forward
    where
      stopped :
          (m : Mode) (propose forward : Answer)
          → (by_mode m shutting_down propose forward).0 ≡ nothing
      stopped standalone_mode p f = refl
      stopped replicated_mode p f = refl
  route-drive a (k ∷ ks) propose forward =
      route-drive (set_readiness a (derive parse_duration k)) ks propose forward
