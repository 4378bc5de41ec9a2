-- ===== src/Replication/Peers/Replay.antt =====
-- When the store of consumed nonces stops a handshake that is sent again.
use gantry_core.Base.{
  ℕ, ◌+◌, ◌≤◌, ◌<◌, ◌≡◌, refl, inl, inr, Bool, true, false, ◌||◌, not, lt→ltb, Bool-cases, String,
  Option, some, List, [], ◌∷◌, str_eq, All, All-weaken, arith,
}
use native.Mathlib.Decide.{dec_le}
use gantry_core.Base.Crypto.{Crypto}
use gantry_core.Base.Result.{Result, ok, err, ◌>>=◌, ◌>>◌, >>=-eq-ok}
use gantry_core.Replication.Peers.Nonces.{
  expiry, consume_nonce-keeps, consume_nonce-refused, consume_nonce-stores,
}
use gantry_core.Replication.Node.{Capabilities}
use gantry_core.Replication.Peers.{
  Authenticator, AuthRequest, AuthResult, AuthBody, MembershipState, PeerError, skew_window,
  consume_nonce, consume_checked, outside, check_time, check_handshake, verify_handshake_common,
  authenticate, verify_peer, set_secret, set_membership, set_replication_enabled, set_capabilities,
  check_member, check_signature, outside_window,
}

abbrev pub is_ok {ℓ} : {A : Type ℓ} → Result PeerError A → Bool
is_ok (ok _) = true
is_ok (err _) = false

is_ok-then {ℓ κ} :
    {A : Type ℓ} {B : Type κ} (x : Result PeerError A) (b : B)
    → is_ok x ≡ false
    → is_ok (x >>= λ _. ok b) ≡ false
is_ok-then (ok a) b h = cc
is_ok-then (err e) b h = refl

-- What may happen at an authenticator.
pub data Event : Type 0 where
  accepts : AuthRequest → ℕ → Event
  dials : String → AuthRequest → ℕ → Event
  gets_secret : String → String → Event
  gets_state : String → MembershipState → Event
  gets_enabled : String → Bool → Event
  gets_capabilities : String → Capabilities → Event

-- No handshake after a time.
abbrev pub By : ℕ → Event → Type 0
By t (accepts r now) = now ≤ t
By t (dials id r now) = now ≤ t
By t _ = Unit

By-weaken : (t t' : ℕ) → t ≤ t' → (e : Event) → By t e → By t' e
By-weaken t t' le (accepts r now) h = omega (arith, h, le)
By-weaken t t' le (dials id r now) h = omega (arith, h, le)
By-weaken t t' le (gets_secret id x) h = tt
By-weaken t t' le (gets_state id x) h = tt
By-weaken t t' le (gets_enabled id x) h = tt
By-weaken t t' le (gets_capabilities id x) h = tt

module _ (crypto : Crypto) (marshal : AuthBody → Option crypto.Bytes)
    (parse_time : String → Option ℕ) where
  pub after_event : Event → Authenticator → Authenticator
  unfolding set_secret set_membership set_replication_enabled set_capabilities
  after_event (accepts r now) m = (authenticate crypto marshal parse_time r now m).0
  after_event (dials id r now) m = (verify_peer crypto marshal parse_time id r now m).0
  after_event (gets_secret id s) m = set_secret id s m
  after_event (gets_state id s) m = set_membership id s m
  after_event (gets_enabled id b) m = set_replication_enabled id b m
  after_event (gets_capabilities id c) m = set_capabilities id c m

  pub after_events : List Event → Authenticator → Authenticator
  unfolding after_event
  after_events [] m = m
  after_events (e ∷ es) m = after_events es (after_event e m)

  verify_handshake_common-keeps :
      (id nonce : String) (exp : ℕ) (r : AuthRequest) (now : ℕ) (m : Authenticator)
      → now ≤ exp
      → expiry id nonce m ≡ some exp
      → expiry id nonce (verify_handshake_common crypto marshal parse_time r now m).0 ≡ some exp
  unfolding verify_handshake_common
  verify_handshake_common-keeps id nonce exp r now m le h =
      keeps (check_handshake crypto marshal parse_time r now m)
    where
      keeps :
          (o : Result PeerError (Unit {0}))
          → expiry id nonce (consume_checked crypto marshal parse_time r now m o).0 ≡ some exp
      keeps (err e) = h
      keeps (ok u) = consume_nonce-keeps id nonce r.node_id r.nonce now exp m le h

  verify_peer-keeps :
      (id nonce : String) (exp : ℕ) (peer : String) (r : AuthRequest) (now : ℕ) (m : Authenticator)
      → now ≤ exp
      → expiry id nonce m ≡ some exp
      → expiry id nonce (verify_peer crypto marshal parse_time peer r now m).0 ≡ some exp
  unfolding verify_peer
  verify_peer-keeps id nonce exp peer r now m le h = elim (Bool-cases (str_eq peer "")) [
    | inl e ↦ rw e h
    | inr e ↦
        rw e
          (elim (Bool-cases (not (str_eq r.node_id peer) || not (str_eq r.raft_server_id peer))) [
            | inl f ↦ rw f h
            | inr f ↦ rw f (verify_handshake_common-keeps id nonce exp r now m le h)
          ])
  ]

  after_event-keeps :
      (id nonce : String) (exp : ℕ) (e : Event) (m : Authenticator)
      → By exp e
      → expiry id nonce m ≡ some exp
      → expiry id nonce (after_event e m) ≡ some exp
  unfolding after_event authenticate expiry set_secret set_membership set_replication_enabled
      set_capabilities
  after_event-keeps id nonce exp (accepts r now) m le h =
      verify_handshake_common-keeps id nonce exp r now m le h
  after_event-keeps id nonce exp (dials peer r now) m le h =
      verify_peer-keeps id nonce exp peer r now m le h
  after_event-keeps id nonce exp (gets_secret at x) m le h = h
  after_event-keeps id nonce exp (gets_state at x) m le h = h
  after_event-keeps id nonce exp (gets_enabled at x) m le h = h
  after_event-keeps id nonce exp (gets_capabilities at x) m le h = h

  after_events-keeps :
      (id nonce : String) (exp : ℕ) (es : List Event) (m : Authenticator)
      → All (By exp) es
      → expiry id nonce m ≡ some exp
      → expiry id nonce (after_events es m) ≡ some exp
  unfolding after_events
  after_events-keeps id nonce exp [] m all h = h
  after_events-keeps id nonce exp (e ∷ es) m (le, all) h =
      after_events-keeps id nonce exp es (after_event e m) all
        (after_event-keeps id nonce exp e m le h)

  -- A handshake whose time has run out does not pass.
  late-refused :
      (r : AuthRequest) (stamp now : ℕ) (m : Authenticator)
      → parse_time r.timestamp ≡ some stamp
      → stamp + skew_window < now
      → is_ok (check_handshake crypto marshal parse_time r now m) ≡ false
  unfolding check_handshake check_time outside
  late-refused r stamp now m parsed late = refused (check_member r m)
    where
      over : check_time crypto marshal parse_time now r ≡ err outside_window
      over = rw parsed (rw (lt→ltb (stamp + skew_window) now late) refl)

      refused :
          (o : Result PeerError String)
          → is_ok (
              o >>= λ secret.
              check_time crypto marshal parse_time now r
              >> check_signature crypto marshal parse_time secret r)
            ≡ false
      refused (err e) = refl
      refused (ok secret) = rw over refl

  -- What an accepted handshake leaves.
  authenticate-stores :
      (r : AuthRequest) (now : ℕ) (m : Authenticator) (res : AuthResult)
      → (authenticate crypto marshal parse_time r now m).1 ≡ ok res
      → expiry r.node_id r.nonce (authenticate crypto marshal parse_time r now m).0
        ≡ some (now + skew_window)
  unfolding authenticate verify_handshake_common
  authenticate-stores r now m res h = stores (check_handshake crypto marshal parse_time r now m) h
    where
      stores :
          (o : Result PeerError (Unit {0}))
          → ((consume_checked crypto marshal parse_time r now m o).1 >>= λ _.
              ok (record { allowed = true; server_address = r.raft_server_addr; reason = "" }))
            ≡ ok res
          → expiry r.node_id r.nonce (consume_checked crypto marshal parse_time r now m o).0
            ≡ some (now + skew_window)
      stores (err e) k = cc
      stores (ok u) k =
          consume_nonce-stores r.node_id r.nonce now m
            (>>=-eq-ok (consume_nonce r.node_id r.nonce now m).1 _ k).1

  verify_handshake_common-refused :
      (r : AuthRequest) (stamp now exp : ℕ) (m : Authenticator)
      → parse_time r.timestamp ≡ some stamp
      → stamp + skew_window ≤ exp
      → (now ≤ exp → expiry r.node_id r.nonce m ≡ some exp)
      → is_ok (verify_handshake_common crypto marshal parse_time r now m).1 ≡ false
  unfolding verify_handshake_common
  verify_handshake_common-refused r stamp now exp m parsed le used =
      refused (check_handshake crypto marshal parse_time r now m)
        (λ late. late-refused r stamp now m parsed (omega (arith, late)))
    where
      refused :
          (o : Result PeerError (Unit {0}))
          → (exp < now → is_ok o ≡ false)
          → is_ok (consume_checked crypto marshal parse_time r now m o).1 ≡ false
      refused (err e) late = refl
      refused (ok u) late = elim (dec_le now exp) [
        | yes in_time ↦
            rw (consume_nonce-refused r.node_id r.nonce now exp m in_time (used in_time)) refl
        | no after ↦ absurd (ground (arith, late, after))
      ]

  -- A handshake that was accepted, with a time stamp that is not later than the acceptance, is never
  -- accepted again, whatever the authenticator does in between up to the second attempt.
  pub authenticate-once :
      (r again : AuthRequest) (stamp now later : ℕ) (es : List Event) (m : Authenticator)
      (res : AuthResult)
      → (authenticate crypto marshal parse_time r now m).1 ≡ ok res
      → again.node_id ≡ r.node_id
      → again.nonce ≡ r.nonce
      → parse_time again.timestamp ≡ some stamp
      → stamp ≤ now
      → All (By later) es
      → is_ok
          (authenticate crypto marshal parse_time again later
            (after_events es (authenticate crypto marshal parse_time r now m).0)).1
        ≡ false
  unfolding authenticate
  authenticate-once r again stamp now later es m res accepted same same_nonce parsed early times =
      is_ok-then _ _ (
        verify_handshake_common-refused again stamp later (now + skew_window) _ parsed
          (omega (arith, early)) used)
    where
      used :
          later ≤ now + skew_window
          → expiry again.node_id again.nonce
              (after_events es (authenticate crypto marshal parse_time r now m).0)
            ≡ some (now + skew_window)
      used le = rw same (
          rw same_nonce (
            after_events-keeps r.node_id r.nonce (now + skew_window) es _
              (All-weaken (By later) (By (now + skew_window))
                (By-weaken later (now + skew_window) le) es times)
              (authenticate-stores r now m res accepted)))
