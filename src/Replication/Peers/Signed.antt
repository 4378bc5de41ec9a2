-- ===== src/Replication/Peers/Signed.antt =====
-- A handshake that a member signs with its secret is accepted.
use gantry_core.Base.{
  ℕ, ◌≡◌, refl, ap, ◌∙◌, true, false, String, Option, none, some, eq_refl, lookup,
}
use gantry_core.Base.Crypto.{Crypto, IsCrypto}
use gantry_core.Base.Int.{eq_ℤ_iff}
use gantry_core.Base.Result.{ok, ◌>>=◌, ◌>>◌, Holds, holds, Holds->>=, Holds-self}
use gantry_core.Replication.Node.{Capabilities}
use gantry_core.Replication.Peers.{
  Authenticator, AuthRequest, AuthBody, active, PeerError, body_unencodable, outside, found,
  body_of, member_secret, sign_handshake, signature_fits, signature_bytes, handshake_signature,
  check_member, check_time, check_signature, check_handshake, consume_nonce,
  verify_handshake_common, authenticate,
}
use gantry_core.Replication.Peers.Nonces.{expiry, consume_nonce-new}
use gantry_core.Replication.Peers.Again.{check_time-fresh}

-- The member that signs may replicate with this authenticator.
pub record Admitted (id secret : String) (m : Authenticator) : Type 0 where
  pub secret_known : lookup id m.secrets ≡ some secret
  pub is_active : lookup id m.states ≡ some active
  pub is_enabled : lookup id m.enabled ≡ some true

check_member-Admitted :
    (r : AuthRequest) (secret : String) (m : Authenticator)
    → r.raft_server_id ≡ r.node_id
    → r.protocol ≡ m.protocol
    → Admitted r.node_id secret m
    → check_member r m ≡ ok secret
unfolding check_member member_secret
check_member-Admitted r secret m same version a = rw same (
    rw (eq_refl r.node_id) (
      rw version (
        rw ((eq_ℤ_iff m.protocol m.protocol).1 refl)
          (rw a.secret_known (rw a.is_active (rw a.is_enabled refl))))))

found-eq-ok {ℓ} :
    {A : Type ℓ} {a : A} (e : PeerError) (o : Option A) → found e o ≡ ok a → o ≡ some a
found-eq-ok e none h = cc
found-eq-ok e (some b) h = cc

module _ (crypto : Crypto) (laws : IsCrypto crypto) (marshal : AuthBody → Option crypto.Bytes)
    (parse_time : String → Option ℕ) where
  check_signature-signed :
      (secret : String) (r : AuthRequest) (body : crypto.Bytes)
      → marshal (body_of r) ≡ some body
      → r.signature ≡ handshake_signature crypto marshal secret r.timestamp r.nonce r.node_id body
      → check_signature crypto marshal parse_time secret r ≡ ok tt
  unfolding check_signature signature_fits handshake_signature
  check_signature-signed secret r body encoded signed = rw encoded (
      rw signed (
        rw
          (laws.decode-encode
            (signature_bytes crypto marshal secret r.timestamp r.nonce r.node_id body))
          (rw
            (laws.equal_refl
              (signature_bytes crypto marshal secret r.timestamp r.nonce r.node_id body))
            refl)))

  authenticate-passes :
      (r : AuthRequest) (now : ℕ) (m : Authenticator)
      → check_handshake crypto marshal parse_time r now m ≡ ok tt
      → (consume_nonce r.node_id r.nonce now m).1 ≡ ok tt
      → (authenticate crypto marshal parse_time r now m).1
        ≡ ok (record { allowed = true; server_address = r.raft_server_addr; reason = "" })
  unfolding authenticate verify_handshake_common
  authenticate-passes r now m checked new = rw checked (rw new refl)

  check_handshake-passes :
      (r : AuthRequest) (secret : String) (now : ℕ) (m : Authenticator)
      → check_member r m ≡ ok secret
      → check_time crypto marshal parse_time now r ≡ ok tt
      → check_signature crypto marshal parse_time secret r ≡ ok tt
      → check_handshake crypto marshal parse_time r now m ≡ ok tt
  unfolding check_handshake
  check_handshake-passes r secret now m member in_time signed =
      ap
        (λ o. o >>= λ s.
          check_time crypto marshal parse_time now r
          >> check_signature crypto marshal parse_time s r)
        member
      ∙ ap (λ o. o >> check_signature crypto marshal parse_time secret r) in_time
      ∙ signed

  -- A handshake that a node signs in its own name with its secret, at a time inside the window of the
  -- authenticator's clock, is accepted with the address it gives, if the authenticator knows that
  -- secret, the member is active and may replicate, and the nonce is not in the store.
  pub sign_handshake-authenticates :
      (secret id addr : String) (caps : Capabilities) (nonce timestamp : String) (stamp now : ℕ)
      (m : Authenticator)
      → parse_time timestamp ≡ some stamp
      → outside now stamp ≡ false
      → Admitted id secret m
      → expiry id nonce m ≡ none
      → Holds
          (λ r.
            (authenticate crypto marshal parse_time r now m).1
            ≡ ok (record { allowed = true; server_address = addr; reason = "" }))
          (sign_handshake crypto marshal secret id id addr m.protocol caps nonce timestamp)
  unfolding sign_handshake
  sign_handshake-authenticates secret id addr caps nonce timestamp stamp now m parsed fresh member
        new =
      Holds->>= _ (Holds-self (found body_unencodable (marshal _))) (λ body encoded. holds (
        authenticate-passes _ now m
          (check_handshake-passes _ secret now m (check_member-Admitted _ secret m refl refl member)
            (check_time-fresh crypto marshal parse_time _ stamp now parsed fresh)
            (check_signature-signed secret _ body (found-eq-ok body_unencodable _ encoded) refl))
          (consume_nonce-new id nonce now m new)))
