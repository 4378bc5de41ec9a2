-- ===== src/Replication/Peers/Tests.antt =====
-- Handshakes at concrete inputs.
use Prim.Native.Char.{nul}
use Prim.Native.String.{len, ◌++◌ as append_str}
use gantry_core.Base.{
  ℕ, ◌*◌, ◌≡◌, refl, true, false, String, Option, none, some, [], ◌∷◌, str_eq, str_eq-false,
  eq_refl, if◌then◌else◌, lookup, insert, arith,
}
use gantry_core.Base.Crypto.{Crypto, IsCrypto}
use gantry_core.Base.Int.{pos}
use gantry_core.Base.Result.{ok, Holds}
use gantry_core.Replication.Node.{Capabilities}
use gantry_core.Replication.Peers.{
  Authenticator, AuthRequest, AuthBody, AuthResult, active, authenticate, sign_handshake,
  new_authenticator, set_secret, set_membership, set_replication_enabled,
}
use gantry_core.Replication.Peers.Nonces.{expiry}
use gantry_core.Replication.Peers.Replay.{
  accepts, gets_state, is_ok, after_events, authenticate-once,
}
use gantry_core.Replication.Peers.Again.{authenticate-replayed}
use gantry_core.Replication.Peers.Signed.{sign_handshake-authenticates}

-- Digests that are their messages.
abbrev undigest : String → Option String
undigest String.[] = none
undigest (String.◌∷◌ c s) = some s

abbrev pub plain : Crypto
plain = record {
  Bytes = String;
  Digest = String;
  bytes = λ s. s;
  size = len;
  sha256 = λ s. s;
  hmac_sha256 = λ s m. append_str s m;
  hex = λ s. s;
  encode = String.◌∷◌ nul;
  decode = undigest;
  equal = str_eq;
}

pub plain-IsCrypto : IsCrypto plain
plain-IsCrypto = record {
  decode-encode = λ d. refl;
  encode-ne = λ d. str_eq-false (String.◌∷◌ nul d) "" (λ e. cc);
  equal_refl = eq_refl;
}

abbrev body : AuthBody → Option String
body b = some b.node_id

-- The clock of the tests: the stamp "early" is at a thousand seconds, "ahead" four minutes later.
abbrev parse_time : String → Option ℕ
parse_time s =
    if str_eq s "early"
    then some (1_000 * 1_000_000_000)
    else if str_eq s "ahead"
    then some (1_240 * 1_000_000_000)
    else none

abbrev no_capabilities : Capabilities
no_capabilities = record {
  id = "n1";
  operation_schema_versions = [];
  snapshot_format_versions = [];
  features = [];
}

abbrev known : Authenticator
known =
    set_replication_enabled "n1" true
      (set_membership "n1" active (set_secret "n1" "secret" (new_authenticator (pos 1))))

abbrev shake : String → AuthRequest
shake timestamp = record {
  node_id = "n1";
  raft_server_id = "n1";
  raft_server_addr = "n1:7000";
  protocol = pos 1;
  capabilities = no_capabilities;
  timestamp = timestamp;
  nonce = "x";
  signature =
      append_str (String.◌∷◌ nul "secretREPLICATE\n/replicate/handshake\n")
        (append_str timestamp "\nx\nn1\nreplication\nn1");
  presented_secret = "secret";
}

abbrev seconds : ℕ → ℕ
seconds n = n * 1_000_000_000

abbrev let_in : AuthResult
let_in = record { allowed = true; server_address = "n1:7000"; reason = "" }

-- What the runs compute with.
unfoldable peers_open : ℕ
unfolding authenticate sign_handshake new_authenticator set_secret set_membership
    set_replication_enabled lookup insert expiry
peers_open = 0

first_accepted :
    (authenticate plain body parse_time (shake "early") (seconds 1_000) known).1 ≡ ok let_in
unfolding peers_open
first_accepted = refl

authenticate-once_example :
    is_ok
      (authenticate plain body parse_time (shake "early") (seconds 1_200) (
        after_events plain body parse_time
          (accepts (shake "early") (seconds 1_100) ∷ gets_state "n1" active ∷ [])
          (authenticate plain body parse_time (shake "early") (seconds 1_000) known).0)).1
    ≡ false
unfolding peers_open
authenticate-once_example =
    authenticate-once plain body parse_time (shake "early") (shake "early") (seconds 1_000)
      (seconds 1_000) (seconds 1_200)
      (accepts (shake "early") (seconds 1_100) ∷ gets_state "n1" active ∷ []) known let_in
      first_accepted refl refl refl (omega arith) (omega arith, (tt, tt))

-- Four minutes ahead of the clock, the handshake is accepted now and after six minutes again.
authenticate-replayed_example :
    (authenticate plain body parse_time
      (shake "ahead")
      (seconds 1_360)
      (authenticate plain body parse_time (shake "ahead") (seconds 1_000) known).0).1
    ≡ ok let_in
unfolding peers_open
authenticate-replayed_example =
    authenticate-replayed plain body parse_time (shake "ahead") (seconds 1_240) (seconds 1_000)
      (seconds 1_360) known let_in refl refl refl (omega arith) (omega arith) (omega arith)

sign_handshake-authenticates_example :
    Holds
      (λ r. (authenticate plain body parse_time r (seconds 1_000) known).1 ≡ ok let_in)
      (sign_handshake plain body "secret" "n1" "n1" "n1:7000" (pos 1) no_capabilities "x" "early")
unfolding peers_open
sign_handshake-authenticates_example =
    sign_handshake-authenticates plain plain-IsCrypto body parse_time "secret" "n1" "n1:7000"
      no_capabilities "x" "early" (seconds 1_000) (seconds 1_000) known refl refl
      (record { secret_known = refl; is_active = refl; is_enabled = refl }) refl
