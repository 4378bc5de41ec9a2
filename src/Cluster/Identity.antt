-- ===== src/Cluster/Identity.antt =====
-- Identities of nodes, members and their health, capabilities and compatibility (cluster/model.go).
-- Times are nanoseconds. url.Parse, the random bytes and the generation of keys are parameters.
use Prim.Native.String.{◌++◌ as append_str}
use gantry_core.Base.{
  ℕ, ◌+◌, ltb, ◌==◌, length, Bool, false, ◌&&◌, ◌||◌, not, if◌then◌else◌, String, Option, none,
  some, List, [], ◌∷◌, ◌++◌, str_eq, has,
}
use gantry_core.Base.Int.{ℤ, pos, negsuc, eq_ℤ, ltb_ℤ}
use gantry_core.Base.Result.{Result, ok, err, ◌>>=◌, ◌>>◌, guard}
use gantry_core.Base.Sort.{sort_by, str_leb}
use gantry_core.Base.Text.{trim_space}

pub record Identity : Type 0 where
  pub node_id : String
  pub installation_id : String
  pub display_name : String
  pub public_endpoint : String
  pub public_key : String
  pub capabilities : List String
  pub protocol_version : ℤ
  pub product_version : String
  pub created_at : ℕ
  pub paired_at : Option ℕ
  pub last_seen_at : Option ℕ
  pub revoked_at : Option ℕ

pub data ClusterError : Type 0 where
  ids_required protocol_required endpoint_invalid endpoint_plaintext endpoint_scheme : ClusterError
  key_required protocol_incompatible capability_unavailable entropy_required : ClusterError
  random_failed : ClusterError

-- What `url.Parse` finds.
pub record Url : Type 0 where
  pub scheme : String
  pub host : String

-- `ProtocolVersion`
abbrev pub protocol_version : ℤ
protocol_version = pos 1

module _ (parse_url : String → Option Url) where
  unfoldable pub check_url : Bool → Option Url → Result ClusterError (Unit {0})
  check_url plaintext none = err endpoint_invalid
  check_url plaintext (some u) =
      if str_eq u.host ""
      then err endpoint_invalid
      else if str_eq u.scheme "https"
      then ok tt
      else if str_eq u.scheme "http"
      then guard plaintext endpoint_plaintext
      else err endpoint_scheme

  -- `ValidatePublicEndpoint`
  unfoldable pub validate_public_endpoint : String → Bool → Result ClusterError (Unit {0})
  unfolding check_url
  validate_public_endpoint endpoint plaintext =
      if str_eq (trim_space endpoint) "" then ok tt else check_url plaintext (parse_url endpoint)

  -- `Identity.ValidateEndpoint`
  unfoldable pub validate_endpoint : Identity → Bool → Result ClusterError (Unit {0})
  unfolding validate_public_endpoint
  validate_endpoint i plaintext =
      guard (not (str_eq (trim_space i.node_id) "" || str_eq (trim_space i.installation_id) ""))
        ids_required
      >> guard (ltb_ℤ (pos 0) i.protocol_version) protocol_required
      >> validate_public_endpoint i.public_endpoint plaintext
      >> guard (not (str_eq i.public_key "")) key_required

  -- `Identity.Validate`
  unfoldable pub validate_identity : Identity → Result ClusterError (Unit {0})
  unfolding validate_endpoint
  validate_identity i = validate_endpoint i false

pub record ClusterMember : Type 0 where
  pub identity : Identity
  pub state : String
  pub last_latency_ms : ℤ
  pub disabled_at : Option ℕ
  pub credential_version : ℤ

unfoldable pub seen_health : ℕ → ℤ → Option ℕ → String
seen_health now offline_after none = "offline"
seen_health now (negsuc n) (some seen) = "online"
seen_health now (pos n) (some seen) = if ltb 0 n && ltb (seen + n) now then "offline" else "online"

-- `Member.Health`
unfoldable pub health : ClusterMember → ℕ → ℤ → String
unfolding seen_health
health m now offline_after =
    if str_eq m.state "disabled"
    then "disabled"
    else if str_eq m.state "revoked"
    then "revoked"
    else if str_eq m.state "active"
    then seen_health now offline_after m.identity.last_seen_at
    else "degraded"

-- The loop of `NormalizeCapabilities`, with what it has put out so far.
unfoldable pub normalize_from : List String → List String → List String
normalize_from [] out = out
normalize_from (v ∷ vs) out =
    normalize_from vs
      (let t = trim_space v in if str_eq t "" || has t out then out else out ++ (t ∷ []))

-- `NormalizeCapabilities`
unfoldable pub normalize_capabilities : List String → List String
unfolding normalize_from
normalize_capabilities vs = sort_by str_leb (normalize_from vs [])

-- `HasCapability`
unfoldable pub has_required : List String → String → Bool
has_required values required = str_eq required "" || has required values

-- `Compatible`
unfoldable pub compatible :
    ℤ → ℤ → List String → List String → String → Result ClusterError (Unit {0})
unfolding has_required
compatible local remote local_caps remote_caps required =
    guard (ltb_ℤ (pos 0) local && ltb_ℤ (pos 0) remote && eq_ℤ local remote) protocol_incompatible
    >> guard
        (str_eq required ""
          || has_required local_caps required && has_required remote_caps required)
        capability_unavailable

-- `NewID`, on the text of the random bytes, if there are any.
unfoldable pub new_id : String → ℤ → Option String → Result ClusterError String
new_id prefix n none = guard (ltb_ℤ (pos 0) n) entropy_required >> err random_failed
new_id prefix n (some text) =
    guard (ltb_ℤ (pos 0) n) entropy_required >> ok (append_str prefix text)

pub record GeneratedIdentity (Key : Type 0) : Type 0 where
  pub identity : Identity
  pub private_key : Key

-- `ed25519.GenerateKey` and the text of the public key
unfoldable pub generated {ℓ} : {A : Type ℓ} → Option A → Result ClusterError A
generated none = err random_failed
generated (some a) = ok a

-- `GenerateIdentity`, on what the three calls for random bytes give.
unfoldable pub generate_identity :
    {Key : Type 0}
    → String
    → String
    → List String
    → ℤ
    → String
    → ℕ
    → Option (String × Key)
    → Option String
    → Option String
    → Result ClusterError (GeneratedIdentity Key)
unfolding generated new_id normalize_capabilities
generate_identity node_prefix installation_prefix caps version product now keys node_text
      installation_text =
    do
      _ ← guard (ltb_ℤ (pos 0) version) protocol_required
      pair ← generated keys
      node_id ← new_id node_prefix (pos 16) node_text
      installation_id ← new_id installation_prefix (pos 16) installation_text
      ok (record {
        identity = record {
          node_id = node_id;
          installation_id = installation_id;
          display_name = "";
          public_endpoint = "";
          public_key = pair.0;
          capabilities = normalize_capabilities caps;
          protocol_version = version;
          product_version = product;
          created_at = now;
          paired_at = none;
          last_seen_at = none;
          revoked_at = none;
        };
        private_key = pair.1;
      })

-- `Fingerprint`: the bytes that are decoded before an error, if there is one, and the digits of the
-- first eight bytes of a digest.
unfoldable pub fingerprint : (String → List ℕ) → (List ℕ → String) → Identity → String
fingerprint decoded short_digest i =
    let key = decoded i.public_key in if length key == 0 then "" else short_digest key
