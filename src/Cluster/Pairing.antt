-- ===== src/Cluster/Pairing.antt =====
-- The pairing of nodes: invitations, join requests and their states (cluster/pairing.go). Times are
-- nanoseconds. Random bytes are arguments.
pub mod Lifecycle
use Prim.Native.String.{len}
use gantry_core.Base.{
  ℕ, ◌+◌, ◌*◌, ltb, leb, Bool, false, ◌&&◌, ◌||◌, not, if◌then◌else◌, String, Option, none, some,
  str_eq,
}
use gantry_core.Base.Crypto.{Crypto}
use gantry_core.Base.Int.{ℤ, pos, ltb_ℤ}
use gantry_core.Base.Result.{Result, ok, err, ◌>>=◌, ◌>>◌, guard}
use gantry_core.Base.Text.{trim_space}
use gantry_core.Cluster.Identity.{
  Identity, ClusterError, Url, validate_endpoint, validate_public_endpoint, new_id, generated,
}

pub record Invitation : Type 0 where
  pub id : String
  pub token : String
  pub state : String
  pub expires_at : ℕ
  pub created_at : ℕ

pub record JoinSubmission : Type 0 where
  pub invitation_token : String
  pub identity : Identity
  pub credential_for_host : String

pub data PairingError : Type 0 where
  token_required endpoint_required credential_short invitation_unavailable : PairingError
  invitation_expired transition_invalid : PairingError
  identity_invalid : ClusterError → PairingError

-- `PairingLifetime`, ten minutes, and `MinimumCredentialBytes`.
abbrev pub pairing_lifetime : ℕ
pairing_lifetime = 600 * 1_000_000_000

abbrev pub minimum_credential_bytes : ℕ
minimum_credential_bytes = 32

unfoldable pub identity_checked {ℓ} : {A : Type ℓ} → Result ClusterError A → Result PairingError A
identity_checked (ok a) = ok a
identity_checked (err e) = err (identity_invalid e)

module _ (parse_url : String → Option Url) where
  -- `ValidateJoinSubmissionWithPolicy`, which does not read its time.
  unfoldable pub validate_join_submission_with_policy :
      JoinSubmission → ℕ → Bool → Result PairingError (Unit {0})
  unfolding identity_checked validate_endpoint validate_public_endpoint
  validate_join_submission_with_policy s now plaintext =
      guard (not (str_eq (trim_space s.invitation_token) "")) token_required
      >> identity_checked (validate_endpoint parse_url s.identity plaintext)
      >> identity_checked (validate_public_endpoint parse_url s.identity.public_endpoint plaintext)
      >> guard (not (str_eq (trim_space s.identity.public_endpoint) "")) endpoint_required
      >> guard (leb minimum_credential_bytes (len s.credential_for_host)) credential_short

  -- `ValidateJoinSubmission`
  unfoldable pub validate_join_submission : JoinSubmission → ℕ → Result PairingError (Unit {0})
  unfolding validate_join_submission_with_policy
  validate_join_submission s now = validate_join_submission_with_policy s now false

-- `ValidateInvitation`
unfoldable pub validate_invitation : Invitation → ℕ → Result PairingError (Unit {0})
validate_invitation i now =
    guard (str_eq i.state "pending") invitation_unavailable
    >> guard (ltb now i.expires_at) invitation_expired

-- `allowed[from][to]`
unfoldable pub transition_allowed : String → String → Bool
transition_allowed from to =
    if str_eq from "pending"
    then str_eq to "approved" || str_eq to "rejected" || str_eq to "expired" || str_eq to "used"
    else str_eq from "approved" && str_eq to "used"

-- `ValidateTransition`
unfoldable pub validate_transition : String → String → Result PairingError (Unit {0})
unfolding transition_allowed
validate_transition from to = guard (transition_allowed from to) transition_invalid

-- `NewSecret`, on the text of so many random bytes, if there are any.
unfoldable pub new_secret : ℤ → (ℤ → Option String) → Result ClusterError String
unfolding generated
new_secret n random =
    generated
      (random (if ltb_ℤ n (pos minimum_credential_bytes) then pos minimum_credential_bytes else n))

-- `NewInvitation`
unfoldable pub new_invitation :
    ℕ → Option String → (ℤ → Option String) → Result ClusterError (Invitation × String)
unfolding new_id new_secret
new_invitation now id_text random = do
  id ← new_id "inv_" (pos 12) id_text
  token ← new_secret (pos minimum_credential_bytes) random
  ok (
    record {
      id = id;
      token = "";
      state = "pending";
      expires_at = now + pairing_lifetime;
      created_at = now;
    },
    token,
  )

module _ (crypto : Crypto) where
  -- `SecretDigest`
  unfoldable pub secret_digest : String → crypto.Digest
  secret_digest secret = crypto.sha256 (crypto.bytes secret)

  -- `VerifySecretDigest`. An absent digest equals none.
  unfoldable pub verify_secret_digest : String → Option crypto.Digest → Bool
  unfolding secret_digest
  verify_secret_digest secret none = false
  verify_secret_digest secret (some digest) = crypto.equal (secret_digest secret) digest
