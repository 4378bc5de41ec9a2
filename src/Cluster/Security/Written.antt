-- ===== src/Cluster/Security/Written.antt =====
-- A request that a member writes is read and accepted.
use gantry_core.Base.{
  ℕ, ◌≤◌, leb, ◌≡◌, ap, ◌∙◌, true, false, ◌||◌, String, Option, some, List, str_eq, str_eq-false,
  ◌≢◌, eq_refl, Assoc, lookup-insert, arith,
}
use gantry_core.Base.Crypto.{Crypto, IsCrypto}
use gantry_core.Base.Result.{ok, ◌>>=◌}
use gantry_core.Cluster.Identity.{protocol_version, has_required}
use gantry_core.Cluster.Pairing.{secret_digest, verify_secret_digest}
use gantry_core.Cluster.Security.{
  Formats, IsFormats, RequestEnvelope, max_request_bytes, outside, header, read_envelope, signature,
  verify_signature, write_envelope, equals, VerifyRequestInput, current, pending, verify_incoming,
}

-- What a node that writes a request gives.
pub record Sending (crypto : Crypto) : Type 0 where
  pub node_id : String
  pub secret : String
  pub method : String
  pub request_uri : String
  pub capability : String
  pub body : crypto.Bytes
  pub sent : ℕ
  pub nonce : String
  pub request_id : String

module _ (crypto : Crypto) (formats : Formats) (s : Sending crypto) where
  pub written : Assoc String → Assoc String
  unfolding write_envelope
  written h =
      write_envelope crypto formats h s.node_id s.secret s.method s.request_uri s.capability
        protocol_version s.body s.sent s.nonce s.request_id

  -- The envelope that the headers carry.
  pub carried : RequestEnvelope
  carried = record {
    node_id = s.node_id;
    timestamp = s.sent;
    nonce = s.nonce;
    request_id = s.request_id;
    protocol = protocol_version;
    capability = s.capability;
    signature =
        signature crypto s.secret s.method s.request_uri (formats.format_time s.sent) s.nonce
          s.request_id s.capability s.body;
  }

  read_envelope-written :
      (h : Assoc String) (now : ℕ)
      → IsCrypto crypto
      → IsFormats formats
      → s.node_id ≢ ""
      → s.nonce ≢ ""
      → s.request_id ≢ ""
      → outside now s.sent ≡ false
      → read_envelope formats (written h) now ≡ ok carried
  unfolding read_envelope written write_envelope header carried signature
  read_envelope-written h now laws texts node nonce request fresh = simp (
    lookup-insert,
    texts.atoi-itoa,
    texts.parse_time-format_time,
    laws.encode-ne,
    str_eq-false s.node_id "" node,
    str_eq-false s.nonce "" nonce,
    str_eq-false s.request_id "" request,
    fresh,
  )

  verify_signature-signature :
      IsCrypto crypto
      → verify_signature crypto s.secret carried.signature s.method s.request_uri
          (formats.format_time s.sent)
          s.nonce
          s.request_id
          s.capability
          s.body
        ≡ true
  unfolding verify_signature signature equals carried
  verify_signature-signature laws = simp (laws.decode-encode, laws.equal_refl)

  -- What the receiver checks: the envelope, the request as it was sent, and what it knows of the
  -- sender, with any pending secret.
  abbrev pub received :
      List String
      → Option crypto.Digest
      → Option ℕ
      → ℕ
      → RequestEnvelope
      → VerifyRequestInput crypto
  received capabilities pending_hash expires now e = record {
    material = record {
      state = "active";
      protocol = protocol_version;
      capabilities = capabilities;
      current_hash = some (secret_digest crypto s.secret);
      pending_hash = pending_hash;
      pending_expires = expires;
    };
    required_capability = s.capability;
    presented_secret = s.secret;
    method = s.method;
    request_uri = s.request_uri;
    envelope = e;
    body = s.body;
    now = now;
  }

  verify_incoming-carried :
      (now : ℕ) (pending_hash : Option crypto.Digest) (expires : Option ℕ)
      (capabilities : List String)
      → IsCrypto crypto
      → outside now s.sent ≡ false
      → has_required capabilities s.capability ≡ true
      → crypto.size s.body ≤ max_request_bytes
      → verify_incoming crypto formats (received capabilities pending_hash expires now carried)
        ≡ ok (record { promote_pending = false })
  unfolding verify_incoming current pending verify_secret_digest carried
  verify_incoming-carried now pending_hash expires capabilities laws fresh capable small =
      let fits : leb (crypto.size s.body) max_request_bytes ≡ true = ground (arith, small) in
      let own : (str_eq s.capability "" || str_eq s.capability s.capability) ≡ true =
        ground (arith, eq_refl s.capability) in
      simp (laws.equal_refl, fresh, capable, fits, own, verify_signature-signature laws)

  -- A request that a node writes in its name, and that arrives inside the window with the body that
  -- was signed, is read and accepted by a node that knows the sender as an active member with this
  -- secret, the same protocol and the capability; no pending secret is promoted. The sender's id, the
  -- nonce and the request id are not empty, and the body is not too large.
  pub verify_incoming-written :
      (h : Assoc String) (now : ℕ) (pending_hash : Option crypto.Digest) (expires : Option ℕ)
      (capabilities : List String)
      → IsCrypto crypto
      → IsFormats formats
      → s.node_id ≢ ""
      → s.nonce ≢ ""
      → s.request_id ≢ ""
      → outside now s.sent ≡ false
      → has_required capabilities s.capability ≡ true
      → crypto.size s.body ≤ max_request_bytes
      → (read_envelope formats (written h) now >>= λ e.
          verify_incoming crypto formats (received capabilities pending_hash expires now e))
        ≡ ok (record { promote_pending = false })
  verify_incoming-written h now pending_hash expires capabilities laws texts node nonce request
        fresh capable small =
      ap
        (λ r. r >>= λ e.
          verify_incoming crypto formats (received capabilities pending_hash expires now e))
        (read_envelope-written h now laws texts node nonce request fresh)
      ∙ verify_incoming-carried now pending_hash expires capabilities laws fresh capable small
