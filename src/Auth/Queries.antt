-- ===== src/Auth/Queries.antt =====
-- The questions that a model answers without a change (auth/model.go). `strings.EqualFold` and
-- `VerifyPassword` are parameters.
use gantry_core.Base.{
  ◌≡◌, refl, Bool, true, false, ◌&&◌, ◌||◌, String, Option, none, some, List, [], ◌∷◌, str_eq,
  if◌then◌else◌, Bool-cases, inl, inr,
}
use gantry_core.Base.Text.{trim_space}
use gantry_core.Auth.Accounts.{Identity, Account, Role}
use gantry_core.Auth.Capabilities.{effective_capabilities}

-- What is known of what a query finds.
abbrev Found {ℓ κ} : {A : Type ℓ} → (A → Type κ) → Option A → Type κ
Found P none = Unit
Found P (some a) = P a

-- The first identity of an account that a test accepts.
unfoldable pub first_identity : (Identity → Bool) → List Identity → Option Identity
first_identity test [] = none
first_identity test (i ∷ is) =
    let later = first_identity test is in if test i then some i else later

-- The loop over accounts, of those a test accepts.
unfoldable pub first_of :
    (Account → Bool) → (Identity → Bool) → List Account → Option (Account × Identity)
unfolding first_identity
first_of admits test [] = none
first_of admits test (a ∷ rest) =
    let later = first_of admits test rest in
    let here = if admits a then first_identity test a.identities else none in
    elim here [ some i ↦ some (a, i) | none ↦ later ]

-- `Identity`
unfoldable pub identity : String → List Account → Option (Account × Identity)
unfolding first_of
identity id = first_of (λ a. true) (λ i. str_eq i.id id)

-- `ProviderIdentity`
unfoldable pub provider_identity : String → String → List Account → Option (Account × Identity)
unfolding first_of
provider_identity type subject =
    first_of (λ a. a.enabled)
      (λ i. i.enabled && str_eq i.type type && str_eq i.provider_subject subject)

-- `AuthenticatePassword`
unfoldable pub authenticate_password :
    (String → String → Bool)
    → (String → String → Bool)
    → String
    → String
    → List Account
    → Option (Account × Identity)
unfolding first_of
authenticate_password equal_fold verify_password identifier password accounts =
    let wanted = trim_space identifier in
    if str_eq wanted ""
    then none
    else first_of (λ a. a.enabled)
        (λ i.
          i.enabled
          && str_eq i.type "password"
          && (equal_fold i.username wanted || equal_fold i.email wanted)
          && verify_password i.password_hash password)
        accounts

-- `SessionPrincipalActive`
unfoldable pub session_principal_active : String → String → List Account → Bool
unfolding first_of
session_principal_active account_id identity_id accounts =
    elim (first_of (λ a. str_eq a.id account_id && a.enabled) (λ i. str_eq i.id identity_id)
      accounts) [ none ↦ false | some (a, i) ↦ i.enabled ]

-- `Account`
unfoldable pub account : String → List Account → Option Account
account id [] = none
account id (a ∷ rest) = let later = account id rest in if str_eq a.id id then some a else later

-- `Capabilities`; no account is the nil slice.
unfoldable pub capabilities : String → List Account → List Role → List String
unfolding account
capabilities id accounts roles = elim (account id accounts) [
  | none ↦ []
  | some a ↦ effective_capabilities a roles
]

first_identity-test :
    (test : Identity → Bool) (is : List Identity)
    → Found (λ i. test i ≡ true) (first_identity test is)
unfolding first_identity
first_identity-test test [] = tt
first_identity-test test (i ∷ is) = elim (Bool-cases (test i)) [
  | inl e ↦ rw e e
  | inr e ↦ rw e (first_identity-test test is)
]

first_in :
    (admits : Account → Bool) (test : Identity → Bool) (a : Account)
    → Found
        (λ i. (admits a ≡ true) × (test i ≡ true))
        (if admits a then first_identity test a.identities else none)
first_in admits test a =
    go (admits a) (first_identity test a.identities) (first_identity-test test a.identities)
  where
    go :
        (b : Bool) (o : Option Identity)
        → Found (λ i. test i ≡ true) o
        → Found (λ i. (b ≡ true) × (test i ≡ true)) (if b then o else none)
    go true none h = tt
    go true (some i) h = (refl, h)
    go false o h = tt

first_of-tests :
    (admits : Account → Bool) (test : Identity → Bool) (rest : List Account)
    → Found (λ (a, i). (admits a ≡ true) × (test i ≡ true)) (first_of admits test rest)
unfolding first_of
first_of-tests admits test [] = tt
first_of-tests admits test (a ∷ rest) =
    go (if admits a then first_identity test a.identities else none) (first_of admits test rest)
      (first_in admits test a) (first_of-tests admits test rest)
  where
    go :
        (o : Option Identity) (later : Option (Account × Identity))
        → Found (λ i. (admits a ≡ true) × (test i ≡ true)) o
        → Found (λ (b, i). (admits b ≡ true) × (test i ≡ true)) later
        → Found
            (λ (b, i). (admits b ≡ true) × (test i ≡ true))
            (elim o [ some i ↦ some (a, i) | none ↦ later ])
    go none later h g = g
    go (some i) later h g = h

Found-given :
    (admits : Account → Bool) (test : Identity → Bool) (Q : Type 0)
    → Q
    → (o : Option (Account × Identity)) → Found (λ (a, i). (admits a ≡ true) × (test i ≡ true)) o
    → Found (λ (a, i). Q × (admits a ≡ true) × (test i ≡ true)) o
Found-given admits test Q q none h = tt
Found-given admits test Q q (some (a, i)) (h, g) = (q, h, g)

-- Whoever logs in by password has an enabled account and an enabled password identity, named by its
-- user name or mail address, whose stored hash the password verifies; an identifier of spaces logs
-- in nobody.
authenticate_password_lem :
    (equal_fold verify_password : String → String → Bool) (identifier password : String)
    (accounts : List Account)
    → Found
        (λ (a, i).
          (str_eq (trim_space identifier) "" ≡ false)
          × (a.enabled ≡ true)
          × (i.enabled
                && str_eq i.type "password"
                && (equal_fold i.username (trim_space identifier)
                    || equal_fold i.email (trim_space identifier))
                && verify_password i.password_hash password
              ≡ true))
        (authenticate_password equal_fold verify_password identifier password accounts)
unfolding authenticate_password
authenticate_password_lem equal_fold verify_password identifier password accounts =
    elim (Bool-cases (str_eq (trim_space identifier) "")) [
      | inl e ↦ rw e tt
      | inr e ↦
          let test = λ (i : Identity).
            i.enabled
            && str_eq i.type "password"
            && (equal_fold i.username (trim_space identifier)
                || equal_fold i.email (trim_space identifier))
            && verify_password i.password_hash password in
          rw e (
            Found-given (λ a. a.enabled) test _ refl (first_of (λ a. a.enabled) test accounts)
              (first_of-tests (λ a. a.enabled) test accounts))
    ]
