-- ===== src/Propagation/Plan/Validated.antt =====
-- What validation leaves of an envelope (propagation/model.go: Envelope.Validate).
use gantry_core.Base.{
  ◌≡◌, refl, ◌≢◌, not, ◌&&◌, ◌||◌, String, Option, none, some, [], str_eq, arith,
}
use gantry_core.Base.Text.{trim_space}
use gantry_core.Base.Int.{pos, leb_ℤ, ◌≤ℤ◌}
use gantry_core.Base.Result.{
  Result, ok, err, Holds, holds, failed, Holds-guard, Holds->>=, Holds-self,
}
use gantry_core.Propagation.Plan.{
  Envelope, ConflictPolicy, check_policy, check_secrets, payload_invalid, with_sorted, PlanError,
  reject, source_wins, destination_wins, manual, authoritative, merge, unsupported,
  validate_envelope,
}

-- What validation leaves of an envelope: positive versions, a known policy and the digest of its
-- payload.
pub record Valid (canonical_digest : String → Option String) (e : Envelope) : Type 0 where
  pub positive : (pos 1 ≤ℤ e.schema_version) × (pos 1 ≤ℤ e.revision)
  pub known_policy : (name : String) → e.conflict ≢ unsupported name
  pub own_digest : canonical_digest e.payload ≡ some e.digest

check_policy-known :
    (p : ConflictPolicy) → Holds (λ _. (name : String) → p ≢ unsupported name) (check_policy p)
unfolding check_policy
check_policy-known (unsupported name) = failed
check_policy-known reject = holds (λ name e. cc)
check_policy-known source_wins = holds (λ name e. cc)
check_policy-known destination_wins = holds (λ name e. cc)
check_policy-known manual = holds (λ name e. cc)
check_policy-known authoritative = holds (λ name e. cc)
check_policy-known merge = holds (λ name e. cc)

digest_found :
    (o : Option String)
    → Holds
        (λ d. o ≡ some d)
        (elim o as (λ _. Result PlanError String) [ none ↦ err payload_invalid | some d ↦ ok d ])
digest_found none = failed
digest_found (some d) = holds refl

module _ (canonical_digest : String → Option String) where
  pub validate_envelope-Valid :
      (e : Envelope) → Holds (Valid canonical_digest) (validate_envelope canonical_digest e)
  unfolding validate_envelope with_sorted
  validate_envelope-Valid e =
      Holds-guard (not (str_eq (trim_space e.kind) "" || str_eq (trim_space e.id) "")) _ _ (λ _.
        Holds-guard (leb_ℤ (pos 1) e.schema_version && leb_ℤ (pos 1) e.revision) _ _ (λ versions.
          Holds-guard
            (not (str_eq (trim_space e.source_node) "" || str_eq (trim_space e.target) "")) _ _
            (λ _. Holds->>= _ (check_policy-known e.conflict) (λ _ known.
              Holds-guard (not (str_eq e.payload "")) _ _ (λ _.
                Holds->>= _ (digest_found (canonical_digest e.payload)) (λ d own.
                  Holds-guard (str_eq e.digest "" || str_eq e.digest d) _ _ (λ _.
                    Holds->>= _ (Holds-self (check_secrets [] e.secrets)) (λ _ _.
                      holds {a = with_sorted (record e { digest = d })} (record {
                        positive = (ground (arith, versions), ground (arith, versions));
                        known_policy = known;
                        own_digest = own;
                      })))))))))
