-- ===== src/Auth/Policy.antt =====
-- Which credentials a product accepts (auth/policy.go).
use gantry_core.Base.{◌≡◌, Bool, true, ◌||◌, not, String, List, [], ◌∷◌, str_eq, has, All, arith}
use gantry_core.Base.Text.{trim_space}
use gantry_core.Base.Result.{Result, ok, ◌>>◌, guard, Holds, holds, Holds-guard, Holds-weaken}
use gantry_core.Auth.Accounts.Fresh.{Fresh}

pub record ProviderGrant : Type 0 where
  pub provider : String
  pub policy : String

pub data GrantError : Type 0 where
  provider_repeated policy_invalid : GrantError

-- `CredentialPolicy.Valid`
unfoldable pub credential_policy_valid : String → Bool
credential_policy_valid p =
    str_eq p "managed-only" || str_eq p "personal-allowed" || str_eq p "disabled"

unfoldable pub check_grants : List String → List ProviderGrant → Result GrantError (Unit {0})
unfolding credential_policy_valid
check_grants seen [] = ok tt
check_grants seen (g ∷ gs) =
    guard (not (str_eq (trim_space g.provider) "" || has (trim_space g.provider) seen))
      provider_repeated
    >> guard (credential_policy_valid g.policy) policy_invalid
    >> check_grants (trim_space g.provider ∷ seen) gs

-- `ValidateProviderGrants`
unfoldable pub validate_provider_grants : List ProviderGrant → Result GrantError (Unit {0})
unfolding check_grants
validate_provider_grants = check_grants []

abbrev pub providers : List ProviderGrant → List String
providers [] = []
providers (g ∷ gs) = trim_space g.provider ∷ providers gs

check_grants-Fresh :
    (seen : List String) (gs : List ProviderGrant)
    → Holds
        (λ _. Fresh seen (providers gs) × All (λ g. credential_policy_valid g.policy ≡ true) gs)
        (check_grants seen gs)
unfolding check_grants
check_grants-Fresh seen [] = holds (tt, tt)
check_grants-Fresh seen (g ∷ gs) =
    Holds-guard (not (str_eq (trim_space g.provider) "" || has (trim_space g.provider) seen)) _ _
      (λ new. Holds-guard (credential_policy_valid g.policy) _ _ (λ valid.
        Holds-weaken (check_grants-Fresh (trim_space g.provider ∷ seen) gs)
          (λ u (fresh, all). ((ground (arith, new), ground (arith, new), fresh), (valid, all)))))

-- Grants that pass name distinct providers, up to spaces, each with a policy that exists.
pub validate_provider_grants-Fresh :
    (gs : List ProviderGrant)
    → Holds
        (λ _. Fresh [] (providers gs) × All (λ g. credential_policy_valid g.policy ≡ true) gs)
        (validate_provider_grants gs)
unfolding validate_provider_grants
validate_provider_grants-Fresh = check_grants-Fresh []
