-- ===== src/Replication/Peers.antt =====
-- Handshakes between replication peers, with the consumed nonces, and the reference membership store
-- (replication/auth.go). Times are nanoseconds. Cryptography, encoding/json and the format of package
-- time are parameters, and so is the clock.
pub mod Nonces
pub mod Replay
pub mod Again
pub mod Signed
pub mod Tests
use Prim.Native.String.{◌++◌ as append_str}
use mathlib.Core.Option
use gantry_core.Base.{
  ℕ, ◌+◌, ◌*◌, ltb, Bool, true, false, ◌||◌, not, if◌then◌else◌, String, Option, none, some, [],
  ◌∷◌, str_eq, is_some, Assoc, lookup, insert,
}
use gantry_core.Base.Crypto.{Crypto}
use gantry_core.Base.Int.{ℤ, eq_ℤ}
use gantry_core.Base.Result.{Result, ok, err, ◌>>=◌, ◌>>◌, guard}
use gantry_core.Replication.Node.{Capabilities}

pub data MembershipState : Type 0 where
  active disabled revoked : MembershipState

pub record MembershipStatus : Type 0 where
  pub state : MembershipState
  pub capabilities : Capabilities
  pub protocol : ℤ
  pub replication_enabled : Bool

pub record AuthRequest : Type 0 where
  pub node_id : String
  pub raft_server_id : String
  pub raft_server_addr : String
  pub protocol : ℤ
  pub capabilities : Capabilities
  pub timestamp : String
  pub nonce : String
  pub signature : String
  pub presented_secret : String

pub record AuthResult : Type 0 where
  pub allowed : Bool
  pub server_address : String
  pub reason : String

pub record AuthBody : Type 0 where
  pub node_id : String
  pub raft_server_id : String
  pub raft_server_addr : String
  pub protocol : ℤ
  pub capabilities : Capabilities

pub data PeerError : Type 0 where
  identity_mismatch protocol_incompatible member_unknown member_inactive not_authorized : PeerError
  timestamp_invalid outside_window body_unencodable signature_invalid nonce_replayed : PeerError
  expected_empty peer_unexpected : PeerError

-- `handshakeSkewWindow`, five minutes.
abbrev pub skew_window : ℕ
skew_window = 300 * 1_000_000_000

-- `MemoryPeerAuthenticator`
pub record Authenticator : Type 0 where
  pub secrets : Assoc String
  pub states : Assoc MembershipState
  pub enabled : Assoc Bool
  pub caps : Assoc Capabilities
  pub seen : Assoc (Assoc ℕ)
  pub protocol : ℤ

-- `NewMemoryPeerAuthenticator`
unfoldable pub new_authenticator : ℤ → Authenticator
new_authenticator protocol = record {
  secrets = [];
  states = [];
  enabled = [];
  caps = [];
  seen = [];
  protocol = protocol;
}

-- `SetSecret`
unfoldable pub set_secret : String → String → Authenticator → Authenticator
unfolding insert
set_secret id secret m = record m { secrets = insert id secret m.secrets }

-- `SetMembership`
unfoldable pub set_membership : String → MembershipState → Authenticator → Authenticator
unfolding insert
set_membership id state m = record m { states = insert id state m.states }

-- `SetReplicationEnabled`
unfoldable pub set_replication_enabled : String → Bool → Authenticator → Authenticator
unfolding insert
set_replication_enabled id enabled m = record m { enabled = insert id enabled m.enabled }

-- `SetCapabilities`
unfoldable pub set_capabilities : String → Capabilities → Authenticator → Authenticator
unfolding insert
set_capabilities id c m = record m { caps = insert id c m.caps }

-- The loop that deletes what expired before now.
unfoldable pub prune : ℕ → Assoc ℕ → Assoc ℕ
prune now [] = []
prune now ((n, exp) ∷ seen) =
    let rest = prune now seen in if ltb exp now then rest else (n, exp) ∷ rest

unfoldable pub consume_from :
    String → String → ℕ → Authenticator → Assoc ℕ → Authenticator × Result PeerError (Unit {0})
unfolding lookup insert
consume_from id nonce now m seen =
    if is_some (lookup nonce seen)
    then (record m { seen = insert id seen m.seen }, err nonce_replayed)
    else (record m { seen = insert id (insert nonce (now + skew_window) seen) m.seen }, ok tt)

unfoldable pub consume_found :
    String
    → String
    → ℕ
    → Authenticator
    → Option (Assoc ℕ)
    → Authenticator × Result PeerError (Unit {0})
unfolding consume_from prune
consume_found id nonce now m none = consume_from id nonce now m []
consume_found id nonce now m (some seen) = consume_from id nonce now m (prune now seen)

-- `consumeNonce`. The pruned map is the one in the store, also where the nonce is refused.
unfoldable pub consume_nonce :
    String → String → ℕ → Authenticator → Authenticator × Result PeerError (Unit {0})
unfolding consume_found lookup
consume_nonce id nonce now m = consume_found id nonce now m (lookup id m.seen)

-- The secret of a member that may replicate.
unfoldable pub member_secret :
    Option String → Option MembershipState → Option Bool → Result PeerError String
member_secret (some secret) (some active) (some enabled) = guard enabled not_authorized >> ok secret
member_secret (some secret) (some _) (some enabled) = err member_inactive
member_secret _ _ _ = err member_unknown

abbrev pub found {ℓ} : {A : Type ℓ} → PeerError → Option A → Result PeerError A
found e none = err e
found e (some a) = ok a

-- `at.Before(now.Add(-w)) || at.After(now.Add(w))`
unfoldable pub outside : ℕ → ℕ → Bool
outside now stamp = ltb (stamp + skew_window) now || ltb (now + skew_window) stamp

abbrev pub body_of : AuthRequest → AuthBody
body_of r = record {
  node_id = r.node_id;
  raft_server_id = r.raft_server_id;
  raft_server_addr = r.raft_server_addr;
  protocol = r.protocol;
  capabilities = r.capabilities;
}

abbrev line : String → String → String
line s rest = append_str s (append_str "\n" rest)

unfoldable pub check_member : AuthRequest → Authenticator → Result PeerError String
unfolding member_secret lookup
check_member r m =
    guard (str_eq r.raft_server_id r.node_id) identity_mismatch
    >> guard (eq_ℤ r.protocol m.protocol) protocol_incompatible
    >> member_secret (lookup r.node_id m.secrets) (lookup r.node_id m.states)
        (lookup r.node_id m.enabled)

module _ (crypto : Crypto) (marshal : AuthBody → Option crypto.Bytes) where
  -- `handshakeSignatureBytes`
  unfoldable pub signature_bytes : String → String → String → String → crypto.Bytes → crypto.Digest
  signature_bytes secret timestamp nonce request_id body = crypto.hmac_sha256 secret (
      line "REPLICATE" (
        line "/replicate/handshake" (
          line timestamp
            (line nonce (line request_id (line "replication" (crypto.hex (crypto.sha256 body))))))))

  -- `handshakeSignature`
  unfoldable pub handshake_signature : String → String → String → String → crypto.Bytes → String
  unfolding signature_bytes
  handshake_signature secret timestamp nonce request_id body =
      crypto.encode (signature_bytes secret timestamp nonce request_id body)

  -- `verifyHandshakeSignature`
  unfoldable pub signature_fits :
      String → String → String → String → crypto.Bytes → Option crypto.Digest → Bool
  unfolding signature_bytes
  signature_fits secret timestamp nonce request_id body none = false
  signature_fits secret timestamp nonce request_id body (some got) =
      crypto.equal got (signature_bytes secret timestamp nonce request_id body)

  -- `SignHandshake`, which is `buildHandshake`, on the time in its format
  unfoldable pub sign_handshake :
      String
      → String
      → String
      → String
      → ℤ
      → Capabilities
      → String
      → String
      → Result PeerError AuthRequest
  unfolding handshake_signature
  sign_handshake secret node_id raft_id addr protocol caps nonce timestamp = do
    body ← found body_unencodable (
        marshal (record {
          node_id = node_id;
          raft_server_id = raft_id;
          raft_server_addr = addr;
          protocol = protocol;
          capabilities = caps;
        }))
    ok (record {
      node_id = node_id;
      raft_server_id = raft_id;
      raft_server_addr = addr;
      protocol = protocol;
      capabilities = caps;
      timestamp = timestamp;
      nonce = nonce;
      signature = handshake_signature secret timestamp nonce node_id body;
      presented_secret = secret;
    })

  unfoldable pub body_signed : String → AuthRequest → Option crypto.Bytes → Bool
  unfolding signature_fits
  body_signed secret r none = false
  body_signed secret r (some body) =
      signature_fits secret r.timestamp r.nonce r.node_id body (crypto.decode r.signature)

  -- `VerifyHandshakeSignature`
  unfoldable pub verify_handshake_signature : String → AuthRequest → Bool
  unfolding body_signed
  verify_handshake_signature secret r = body_signed secret r (marshal (body_of r))

  module _ (parse_time : String → Option ℕ) where
    unfoldable pub check_time : ℕ → AuthRequest → Result PeerError (Unit {0})
    unfolding outside
    check_time now r = do
      stamp ← found timestamp_invalid (parse_time r.timestamp)
      guard (not (outside now stamp)) outside_window

    unfoldable pub check_signature : String → AuthRequest → Result PeerError (Unit {0})
    unfolding signature_fits
    check_signature secret r = do
      body ← found body_unencodable (marshal (body_of r))
      guard (signature_fits secret r.timestamp r.nonce r.node_id body (crypto.decode r.signature))
          signature_invalid

    -- All of `verifyHandshakeCommon` before the nonce.
    unfoldable pub check_handshake : AuthRequest → ℕ → Authenticator → Result PeerError (Unit {0})
    unfolding check_member check_time check_signature
    check_handshake r now m =
        check_member r m >>= λ secret. check_time now r >> check_signature secret r

    unfoldable pub consume_checked :
        AuthRequest
        → ℕ
        → Authenticator
        → Result PeerError (Unit {0})
        → Authenticator × Result PeerError (Unit {0})
    unfolding consume_nonce
    consume_checked r now m (err e) = (m, err e)
    consume_checked r now m (ok _) = consume_nonce r.node_id r.nonce now m

    -- `verifyHandshakeCommon`
    unfoldable pub verify_handshake_common :
        AuthRequest → ℕ → Authenticator → Authenticator × Result PeerError (Unit {0})
    unfolding check_handshake consume_checked
    verify_handshake_common r now m = consume_checked r now m (check_handshake r now m)

    -- `Authenticate`
    unfoldable pub authenticate :
        AuthRequest → ℕ → Authenticator → Authenticator × Result PeerError AuthResult
    unfolding verify_handshake_common
    authenticate r now m =
        let (m', verified) = verify_handshake_common r now m in
        (
          m',
          verified >>= λ _.
              ok (record { allowed = true; server_address = r.raft_server_addr; reason = "" }),
        )

    -- `VerifyPeer`
    unfoldable pub verify_peer :
        String → AuthRequest → ℕ → Authenticator → Authenticator × Result PeerError (Unit {0})
    unfolding verify_handshake_common
    verify_peer expected r now m =
        if str_eq expected ""
        then (m, err expected_empty)
        else if not (str_eq r.node_id expected) || not (str_eq r.raft_server_id expected)
        then (m, err peer_unexpected)
        else verify_handshake_common r now m

-- `Set` on the map of a `MemoryMembership`
unfoldable pub set_status :
    String → MembershipStatus → Assoc MembershipStatus → Assoc MembershipStatus
unfolding insert
set_status = insert

-- `Membership`
unfoldable pub membership : String → Assoc MembershipStatus → Result PeerError MembershipStatus
unfolding lookup
membership id m = found member_unknown (lookup id m)

-- `CapabilitiesOf`
unfoldable pub capabilities_of : String → Assoc MembershipStatus → Option Capabilities
unfolding lookup
capabilities_of id m = Option.map (λ s. s.capabilities) (lookup id m)
