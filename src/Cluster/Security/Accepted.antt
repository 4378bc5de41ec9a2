-- ===== src/Cluster/Security/Accepted.antt =====
-- Which requests a node accepts.
use Prim.Native.String.{◌++◌ as append_str}
use mathlib.Core.List.{Memᴰ}
use gantry_core.Base.{
  ℕ, ◌+◌, ◌≤◌, ◌<◌, leb, ◌≡◌, ◌↔◌, ◌⊎◌, inl, inr, refl, sym, ap, ◌∙◌, subst, Bool, Bool-cases, true,
  false, ◌&&◌, ◌||◌, not, String, Option, none, some, List, [], ◌∷◌, has, str_eq, eq_iff, arith,
}
use gantry_core.Base.Crypto.{Crypto}
use gantry_core.Base.Int.{eq_ℤ, eq_ℤ_iff}
use gantry_core.Base.Result.{Holds, holds, Holds-guard}
use gantry_core.Cluster.Identity.{protocol_version, has_required}
use gantry_core.Cluster.Pairing.{secret_digest, verify_secret_digest}
use gantry_core.Cluster.Security.{
  Formats, max_request_bytes, outside, sign, equals, after_time, verify_signature,
  VerifyRequestInput, current, pending, verify_incoming,
}

-- A secret whose digest is the one that is stored.
abbrev pub Fits : (crypto : Crypto) → String → Option crypto.Digest → Type 0
Fits crypto secret stored =
    (d : crypto.Digest) × (stored ≡ some d)
    × (crypto.equal (crypto.sha256 (crypto.bytes secret)) d ≡ true)

-- The lines of a text, without a newline at its end.
abbrev pub lines : List String → String
lines [] = ""
lines (s ∷ []) = s
lines (s ∷ t ∷ ts) = append_str s (append_str "\n" (lines (t ∷ ts)))

-- What is signed: the method, the address, the time, the nonce, the request id, the capability that
-- is required and the digest of the body.
abbrev pub signed_text : (crypto : Crypto) → Formats → VerifyRequestInput crypto → String
signed_text crypto formats r = lines (
    r.method
    ∷ r.request_uri
    ∷ formats.format_time r.envelope.timestamp
    ∷ r.envelope.nonce
    ∷ r.envelope.request_id
    ∷ r.required_capability
    ∷ crypto.hex (crypto.sha256 r.body)
    ∷ [])

-- The secret is the current one, or not that one but the pending one before it expires.
pub data Credential (crypto : Crypto) (r : VerifyRequestInput crypto) : Bool → Type 0 where
  by_current : Fits crypto r.presented_secret r.material.current_hash → Credential crypto r false
  by_pending :
      ¬ Fits crypto r.presented_secret r.material.current_hash
      → Fits crypto r.presented_secret r.material.pending_hash
      → (t : ℕ) → r.material.pending_expires ≡ some t
      → r.now < t
      → Credential crypto r true

-- What an accepted request shows. The window is five minutes of nanoseconds either way.
pub record Authentic (crypto : Crypto) (formats : Formats) (r : VerifyRequestInput crypto)
    : Type 0 where
  pub member_active : r.material.state ≡ "active"
  pub same_protocol :
      (r.envelope.protocol ≡ r.material.protocol) × (r.envelope.protocol ≡ protocol_version)
  pub capable : (r.required_capability ≡ "") ⊎ Memᴰ r.required_capability r.material.capabilities
  pub same_capability :
      (r.envelope.capability ≡ "") ⊎ (r.envelope.capability ≡ r.required_capability)
  pub small : crypto.size r.body ≤ 262_144
  pub in_window :
      (r.now ≤ r.envelope.timestamp + 300_000_000_000)
      × (r.envelope.timestamp ≤ r.now + 300_000_000_000)
  pub signed :
      (d : crypto.Digest) × (crypto.decode r.envelope.signature ≡ some d)
      × (crypto.equal d (crypto.hmac_sha256 r.presented_secret (signed_text crypto formats r))
          ≡ true)

has-Mem : (k : String) (xs : List String) → has k xs ≡ true → Memᴰ k xs
has-Mem k [] h = absurd (cc)
has-Mem k (x ∷ xs) h = elim (Bool-cases (str_eq x k)) [
  | inl e ↦ Memᴰ.head (sym ((eq_iff x k).0 e))
  | inr e ↦ Memᴰ.tail (has-Mem k xs (ground (arith, h, e)))
]

has_required-Mem :
    (values : List String) (required : String)
    → has_required values required ≡ true
    → (required ≡ "") ⊎ Memᴰ required values
unfolding has_required
has_required-Mem values required h = elim (Bool-cases (str_eq required "")) [
  | inl e ↦ inl ((eq_iff required "").0 e)
  | inr e ↦ inr (has-Mem required values (ground (arith, h, e)))
]

either_text : (s t u : String) → (str_eq s t || str_eq s u) ≡ true → (s ≡ t) ⊎ (s ≡ u)
either_text s t u h = elim (Bool-cases (str_eq s t)) [
  | inl e ↦ inl ((eq_iff s t).0 e)
  | inr e ↦ inr ((eq_iff s u).0 (ground (arith, h, e)))
]

outside-window :
    (now stamp : ℕ)
    → not (outside now stamp) ≡ true
    → (now ≤ stamp + 300_000_000_000) × (stamp ≤ now + 300_000_000_000)
unfolding outside
outside-window now stamp h = (ground (arith, h), ground (arith, h))

module _ (crypto : Crypto) where
  verify_secret_digest-Fits :
      (secret : String) (stored : Option crypto.Digest)
      → (verify_secret_digest crypto secret stored ≡ true) ↔ Fits crypto secret stored
  unfolding verify_secret_digest secret_digest
  verify_secret_digest-Fits secret none = (λ h. absurd (cc), λ (d, e, h). absurd (cc))
  verify_secret_digest-Fits secret (some d) = (
    λ h. (d, refl, h),
    λ (d', e, h).
        let same : d' ≡ d = cc in
        ap (crypto.equal (crypto.sha256 (crypto.bytes secret))) (sym same) ∙ h,
  )

  after_time-before :
      (o : Option ℕ) (now : ℕ) → after_time o now ≡ true → (t : ℕ) × (o ≡ some t) × (now < t)
  after_time-before none now h = absurd (cc)
  after_time-before (some t) now h = (t, refl, ground (arith, h))

  equals-some :
      (o : Option crypto.Digest) (d : crypto.Digest)
      → equals crypto o d ≡ true
      → (got : crypto.Digest) × (o ≡ some got) × (crypto.equal got d ≡ true)
  unfolding equals
  equals-some none d h = absurd (cc)
  equals-some (some got) d h = (got, refl, h)

  module _ (formats : Formats) (r : VerifyRequestInput crypto) where
    pending-Credential :
        current crypto formats r ≡ false
        → pending crypto formats r ≡ true
        → Credential crypto r true
    unfolding pending current
    pending-Credential unfit h =
        let held = (verify_secret_digest-Fits r.presented_secret r.material.current_hash) in
        let fits =
          (verify_secret_digest-Fits r.presented_secret r.material.pending_hash).0
            (ground (arith, h)) in
        let (t, e, l) = after_time-before r.material.pending_expires r.now (ground (arith, h)) in
        by_pending (λ f. let y = held.1 f in absurd (cc)) fits t e l

    presented-Credential :
        (current crypto formats r || pending crypto formats r) ≡ true
        → Credential crypto r (pending crypto formats r)
    unfolding pending current
    presented-Credential h = elim (Bool-cases (current crypto formats r)) [
      | inl e ↦
          subst (Credential crypto r) (ground (arith, e)) (
            by_current ((verify_secret_digest-Fits r.presented_secret r.material.current_hash).0 e))
      | inr e ↦
          let y : pending crypto formats r ≡ true = ground (arith, h, e) in
          subst (Credential crypto r) (sym y) (pending-Credential e y)
    ]

-- A request that is accepted comes from an active member of the same protocol that has the required
-- capability, is not too large and within the window, and carries the signature of its parts for the
-- required capability with the secret that it presents. That secret is the member's current one, or,
-- where it is not, the pending one before its time, and the second is promoted.
pub verify_incoming-Authentic :
    (crypto : Crypto) (formats : Formats) (r : VerifyRequestInput crypto)
    → Holds
        (λ out. Authentic crypto formats r × Credential crypto r out.promote_pending)
        (verify_incoming crypto formats r)
unfolding verify_incoming verify_signature sign
verify_incoming-Authentic crypto formats r =
    Holds-guard (str_eq r.material.state "active") _ _ (λ is_active.
      Holds-guard
        (eq_ℤ r.envelope.protocol r.material.protocol && eq_ℤ r.envelope.protocol protocol_version)
        _ _
        (λ same.
          Holds-guard (has_required r.material.capabilities r.required_capability) _ _ (λ capable.
            Holds-guard
              (str_eq r.envelope.capability ""
                || str_eq r.envelope.capability r.required_capability)
              _ _
              (λ fits. Holds-guard (leb (crypto.size r.body) max_request_bytes) _ _ (λ small.
                Holds-guard (not (outside r.now r.envelope.timestamp)) _ _ (λ in_window.
                  Holds-guard (current crypto formats r || pending crypto formats r) _ _
                    (λ credential.
                      Holds-guard
                        (verify_signature crypto r.presented_secret r.envelope.signature r.method
                          r.request_uri (formats.format_time r.envelope.timestamp) r.envelope.nonce
                          r.envelope.request_id r.required_capability r.body)
                        _ _
                        (λ signed. holds (
                          record {
                            member_active = (eq_iff r.material.state "active").0 is_active;
                            same_protocol = (
                              (eq_ℤ_iff r.envelope.protocol r.material.protocol).0
                                  (ground (arith, same)),
                              (eq_ℤ_iff r.envelope.protocol protocol_version).0
                                  (ground (arith, same)),
                            );
                            capable =
                                has_required-Mem r.material.capabilities r.required_capability
                                  capable;
                            same_capability =
                                either_text r.envelope.capability "" r.required_capability fits;
                            small = ground (arith, small);
                            in_window = outside-window r.now r.envelope.timestamp in_window;
                            signed =
                                equals-some crypto (crypto.decode r.envelope.signature)
                                  (crypto.hmac_sha256 r.presented_secret
                                    (signed_text crypto formats r))
                                  signed;
                          },
                          presented-Credential crypto formats r credential,
                        )))))))))
