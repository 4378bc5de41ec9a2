-- ===== src/Cluster/Security.antt =====
-- Signed requests between nodes (cluster/security.go). Times are nanoseconds; strconv and the format
-- of package time are parameters, as cryptography is.
pub mod Accepted
pub mod Written
use Prim.Native.String.{◌++◌ as append_str}
use gantry_core.Base.{
  ℕ, ◌+◌, ◌*◌, ltb, leb, ◌≡◌, Bool, false, ◌&&◌, ◌||◌, not, String, Option, none, some, List,
  str_eq, Assoc, lookup, insert, is_some,
}
use gantry_core.Base.Crypto.{Crypto}
use gantry_core.Base.Int.{ℤ, eq_ℤ}
use gantry_core.Base.Result.{Result, ok, err, ◌>>=◌, ◌>>◌, guard}
use gantry_core.Cluster.Identity.{protocol_version, has_required}
use gantry_core.Cluster.Pairing.{verify_secret_digest}

-- `strconv.Itoa` and `Atoi`, and a time in the format RFC3339Nano and back.
pub record Formats : Type 0 where
  pub itoa : ℤ → String
  pub atoi : String → Option ℤ
  pub format_time : ℕ → String
  pub parse_time : String → Option ℕ

pub record IsFormats (f : Formats) : Type 0 where
  pub atoi-itoa : (n : ℤ) → f.atoi (f.itoa n) ≡ some n
  pub parse_time-format_time : (t : ℕ) → f.parse_time (f.format_time t) ≡ some t

pub record RequestEnvelope : Type 0 where
  pub node_id : String
  pub timestamp : ℕ
  pub nonce : String
  pub request_id : String
  pub protocol : ℤ
  pub capability : String
  pub signature : String

pub data RequestError : Type 0 where
  protocol_incompatible timestamp_invalid authentication_required outside_window : RequestError
  member_unavailable capability_unavailable capability_mismatch request_large : RequestError
  credential_rejected signature_invalid : RequestError

-- `MaxRequestBytes` and `ClockSkew`, five minutes.
abbrev pub max_request_bytes : ℕ
max_request_bytes = 256 * 1024

abbrev pub clock_skew : ℕ
clock_skew = 300 * 1_000_000_000

unfoldable pub outside : ℕ → ℕ → Bool
outside now stamp = ltb (stamp + clock_skew) now || ltb (now + clock_skew) stamp

-- `http.Header`, by the names of the seven constants. `Get` of an absent name is empty.
abbrev or_empty : Option String → String
or_empty none = ""
or_empty (some v) = v

unfoldable pub header : Assoc String → String → String
unfolding lookup
header h name = or_empty (lookup name h)

abbrev line : String → String → String
line s rest = append_str s (append_str "\n" rest)

abbrev pub found {ℓ} : {A : Type ℓ} → RequestError → Option A → Result RequestError A
found e none = err e
found e (some a) = ok a

module _ (formats : Formats) where
  -- `ReadEnvelope`
  unfoldable pub read_envelope : Assoc String → ℕ → Result RequestError RequestEnvelope
  unfolding header outside
  read_envelope h now = do
    protocol ← found protocol_incompatible (formats.atoi (header h "X-Gantry-Protocol"))
    stamp ← found timestamp_invalid (formats.parse_time (header h "X-Gantry-Timestamp"))
    _ ←
        guard
          (not (
            str_eq (header h "X-Gantry-Node") ""
            || str_eq (header h "X-Gantry-Nonce") ""
            || str_eq (header h "X-Gantry-Request-ID") ""
            || str_eq (header h "X-Gantry-Signature") ""))
          authentication_required
    _ ← guard (not (outside now stamp)) outside_window
    ok (record {
      node_id = header h "X-Gantry-Node";
      timestamp = stamp;
      nonce = header h "X-Gantry-Nonce";
      request_id = header h "X-Gantry-Request-ID";
      protocol = protocol;
      capability = header h "X-Gantry-Capability";
      signature = header h "X-Gantry-Signature";
    })

module _ (crypto : Crypto) where
  -- `Sign`
  unfoldable pub sign :
      String → String → String → String → String → String → String → crypto.Bytes → crypto.Digest
  sign secret method request_uri timestamp nonce request_id capability body =
      crypto.hmac_sha256 secret (
        line method (
          line request_uri (
            line timestamp
              (line nonce (line request_id (line capability (crypto.hex (crypto.sha256 body))))))))

  -- `Signature`
  unfoldable pub signature :
      String → String → String → String → String → String → String → crypto.Bytes → String
  unfolding sign
  signature secret method request_uri timestamp nonce request_id capability body =
      crypto.encode (sign secret method request_uri timestamp nonce request_id capability body)

  unfoldable pub equals : Option crypto.Digest → crypto.Digest → Bool
  equals none digest = false
  equals (some got) digest = crypto.equal got digest

  -- `VerifySignature`
  unfoldable pub verify_signature :
      String → String → String → String → String → String → String → String → crypto.Bytes → Bool
  unfolding equals sign
  verify_signature secret given method request_uri timestamp nonce request_id capability body =
      equals (crypto.decode given)
        (sign secret method request_uri timestamp nonce request_id capability body)

  -- `WriteEnvelope`
  unfoldable pub write_envelope :
      Formats
      → Assoc String
      → (node_id secret method request_uri capability : String) → ℤ
      → crypto.Bytes
      → ℕ
      → (nonce request_id : String) → Assoc String
  unfolding insert signature
  write_envelope formats h node_id secret method request_uri capability protocol body now nonce
        request_id =
      let timestamp = formats.format_time now in
      insert "X-Gantry-Signature"
        (signature secret method request_uri timestamp nonce request_id capability body)
        (insert "X-Gantry-Capability" capability (
          insert "X-Gantry-Protocol" (formats.itoa protocol) (
            insert "X-Gantry-Request-ID" request_id (
              insert "X-Gantry-Nonce" nonce
                (insert "X-Gantry-Timestamp" timestamp (insert "X-Gantry-Node" node_id h))))))

  pub record AuthMaterial : Type 0 where
    pub state : String
    pub protocol : ℤ
    pub capabilities : List String
    pub current_hash : Option crypto.Digest
    pub pending_hash : Option crypto.Digest
    pub pending_expires : Option ℕ

  pub record VerifyRequestInput : Type 0 where
    pub material : AuthMaterial
    pub required_capability : String
    pub presented_secret : String
    pub method : String
    pub request_uri : String
    pub envelope : RequestEnvelope
    pub body : crypto.Bytes
    pub now : ℕ

pub record VerifyRequestResult : Type 0 where
  pub promote_pending : Bool

abbrev pub after_time : Option ℕ → ℕ → Bool
after_time none now = false
after_time (some t) now = ltb now t

module _ (crypto : Crypto) (formats : Formats) (r : VerifyRequestInput crypto) where
  -- `current` and, where it is not, `pending`
  unfoldable pub current : Bool
  unfolding verify_secret_digest
  current = verify_secret_digest crypto r.presented_secret r.material.current_hash

  unfoldable pub pending : Bool
  unfolding current
  pending =
      not current
      && is_some r.material.pending_hash
      && after_time r.material.pending_expires r.now
      && verify_secret_digest crypto r.presented_secret r.material.pending_hash

  -- `VerifyIncoming`
  unfoldable pub verify_incoming : Result RequestError VerifyRequestResult
  unfolding current pending verify_signature outside has_required
  verify_incoming = do
    _ ← guard (str_eq r.material.state "active") member_unavailable
    _ ←
        guard
          (eq_ℤ r.envelope.protocol r.material.protocol
            && eq_ℤ r.envelope.protocol protocol_version)
          protocol_incompatible
    _ ← guard (has_required r.material.capabilities r.required_capability) capability_unavailable
    _ ←
        guard
          (str_eq r.envelope.capability "" || str_eq r.envelope.capability r.required_capability)
          capability_mismatch
    _ ← guard (leb (crypto.size r.body) max_request_bytes) request_large
    _ ← guard (not (outside r.now r.envelope.timestamp)) outside_window
    _ ← guard (current || pending) credential_rejected
    _ ←
        guard
          (verify_signature crypto r.presented_secret r.envelope.signature r.method r.request_uri
            (formats.format_time r.envelope.timestamp) r.envelope.nonce r.envelope.request_id
            r.required_capability r.body)
          signature_invalid
    ok (record { promote_pending = pending })
