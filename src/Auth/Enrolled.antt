-- ===== src/Auth/Enrolled.antt =====
-- From the creation of an account to its first login (auth/model.go: CreateAccount,
-- AuthenticatePassword; auth/accounts.go: HashPassword, VerifyPassword).
use gantry_core.Base.{
  ℕ, ◌≡◌, refl, ap, ◌∙◌, inl, inr, Bool, true, false, ◌&&◌, ◌||◌, String, none, some, List, [], ◌∷◌,
  ◌++◌, str_eq, if◌then◌else◌, length, arith, Bool-cases, Option-cases,
}
use gantry_core.Base.Text.{trim_space}
use gantry_core.Base.Result.{Result, ok, err, Result-cases}
use gantry_core.Auth.Accounts.{Identity, Account, AccountsFile, Error, validate_accounts}
use gantry_core.Auth.Capabilities.{dedupe_strings}
use gantry_core.Auth.Model.{
  Persistence, Model, is_short, with_accounts, keep_users, save_users, commit_users, create_account,
}
use gantry_core.Auth.Queries.{first_identity, first_of, authenticate_password}
use gantry_core.Auth.Passwords.{Bytes, Encodings, hash_password, verify_password}
use gantry_core.Auth.Passwords.Accepted.{IsEncoding, verify_password-hash_password}
mod Tests

-- What CreateAccount makes of its arguments.
abbrev pub enrolled_identity : String → String → String → String → Identity
enrolled_identity id username email hash = record {
  id = id;
  type = "password";
  username = trim_space username;
  email = trim_space email;
  provider_subject = "";
  password_hash = hash;
  totp_enabled = false;
  recovery_code_hashes = [];
  enabled = true;
}

abbrev pub enrolled_account : String → String → List String → ℕ → Identity → Account
enrolled_account id display_name roles now i = record {
  id = id;
  display_name = trim_space display_name;
  enabled = true;
  roles = dedupe_strings roles;
  identities = i ∷ [];
  created_at = now;
}

-- The search goes on where the accounts before have nothing.
first_of-append :
    (admits : Account → Bool) (test : Identity → Bool) (xs ys : List Account)
    → first_of admits test xs ≡ none
    → first_of admits test (xs ++ ys) ≡ first_of admits test ys
unfolding first_of
first_of-append admits test [] ys h = refl
first_of-append admits test (a ∷ xs) ys h =
    elim (Option-cases (if admits a then first_identity test a.identities else none)) [
      | inl e ↦ rw (e, first_of) (first_of-append admits test xs ys (rw (e, first_of) at h))
      | inr (i, e) ↦ absurd (let k = rw (e, first_of) at h in cc)
    ]

module _ (lower : String → String) (P : Persistence) where
  keep-users :
      (a b : Account) (next : AccountsFile) (m : Model P) (x : P.Medium × Result Error (Unit {0}))
      → (keep_users lower P a next m x).1 ≡ ok b
      → ((keep_users lower P a next m x).0.users ≡ next) × (a ≡ b)
  unfolding keep_users
  keep-users a b next m (store, err e) h = absurd (cc)
  keep-users a b next m (store, ok done) h = (refl, cc)

  commit-users :
      (a b : Account) (next : AccountsFile) (m : Model P)
      → (commit_users lower P a next m).1 ≡ ok b
      → ((commit_users lower P a next m).0.users ≡ next) × (a ≡ b)
  unfolding commit_users save_users
  commit-users a b next m h = elim (Result-cases (validate_accounts lower next m.roles m.policy)) [
    | inl (e, y) ↦ absurd (let k = rw y at h in cc)
    | inr (u, y) ↦ rw y (keep-users a b next m (P.save_accounts next m.store) (rw y at h))
  ]

  created :
      (display_name username email password : String) (roles : List String) (hash : String)
      (account_id identity_id : String) (now : ℕ) (m : Model P) (b : Account)
      → let a =
          enrolled_account account_id display_name roles now
            (enrolled_identity identity_id username email hash) in
        let y =
          create_account lower P display_name username email password roles
            (ok hash)
            account_id
            identity_id
            now
            m in
        y.1 ≡ ok b
        → (str_eq (trim_space username) "" ≡ false)
          × (a ≡ b)
          × (y.0.users.accounts ≡ m.users.accounts ++ (a ∷ []))
  unfolding create_account
  created display_name username email password roles hash account_id identity_id now m b h =
      let a =
        enrolled_account account_id display_name roles now
          (enrolled_identity identity_id username email hash) in
      elim (Bool-cases (
        str_eq (trim_space display_name) ""
        || str_eq (trim_space username) ""
        || is_short password)) [
          | inl y ↦ absurd (let k = rw y at h in cc)
          | inr y ↦
              let (users, same) =
                commit-users a b (with_accounts m.users (m.users.accounts ++ (a ∷ []))) m
                  (rw y at h) in
              (ground (arith, y), same, rw y (ap (λ (f : AccountsFile). f.accounts) users))
        ]

  first_of-one :
      (admits : Account → Bool) (test : Identity → Bool) (a : Account) (i : Identity)
      → a.identities ≡ i ∷ []
      → admits a ≡ true
      → test i ≡ true
      → first_of admits test (a ∷ []) ≡ some (a, i)
  unfolding first_of first_identity
  first_of-one admits test a i is e f = simp (e, is, f, first_of, first_identity)

  -- The login among the accounts with a new one at their end.
  logged_in :
      (equal_fold verify : String → String → Bool) (identifier password : String)
      (accounts : List Account) (a : Account) (i : Identity)
      → str_eq (trim_space identifier) "" ≡ false
      → a.identities ≡ i ∷ []
      → a.enabled ≡ true
      → (i.enabled
          && str_eq i.type "password"
          && (equal_fold i.username (trim_space identifier)
              || equal_fold i.email (trim_space identifier))
          && verify i.password_hash password)
        ≡ true
      → authenticate_password equal_fold verify identifier password accounts ≡ none
      → authenticate_password equal_fold verify identifier password (accounts ++ (a ∷ []))
        ≡ some (a, i)
  unfolding authenticate_password
  logged_in equal_fold verify identifier password accounts a i n is on h nobody =
      let test = λ (i : Identity).
        i.enabled
        && str_eq i.type "password"
        && (equal_fold i.username (trim_space identifier)
            || equal_fold i.email (trim_space identifier))
        && verify i.password_hash password in
      rw n (
        first_of-append (λ a. a.enabled) test accounts (a ∷ []) (rw n at nobody)
        ∙ first_of-one (λ a. a.enabled) test a i is on h)

  module _ (e : Encodings) (lawful : IsEncoding e) (hmac : Bytes → Bytes → Bytes)
      (width : (k m : Bytes) → length (hmac k m) ≡ 32) (equal_fold : String → String → Bool)
      (folds : (s : String) → equal_fold s s ≡ true) where
    -- Once CreateAccount has stored an account with the hash of its password and a salt of 16 bytes,
    -- the user name and password log in as this account, provided the encodings are inverses that
    -- write no dollar, the HMAC has 32 bytes, a name equals itself, and they logged nobody in before.
    pub create_account-authenticates :
        (display_name username email password : String) (roles : List String) (salt : Bytes)
        (account_id identity_id : String) (now : ℕ) (m : Model P) (b : Account)
        → length salt ≡ 16
        → let hash = hash_password e hmac salt password in
          let y =
            create_account lower P display_name username email password roles
              (ok hash)
              account_id
              identity_id
              now
              m in
          y.1 ≡ ok b
          → authenticate_password equal_fold
              (verify_password e hmac)
              username
              password
              m.users.accounts
            ≡ none
          → authenticate_password equal_fold
              (verify_password e hmac)
              username
              password
              y.0.users.accounts
            ≡ some (b, enrolled_identity identity_id username email hash)
    create_account-authenticates display_name username email password roles salt account_id
          identity_id now m b long made nobody =
        let hash = hash_password e hmac salt password in
        let i = enrolled_identity identity_id username email hash in
        let a = enrolled_account account_id display_name roles now i in
        let (named, same, accounts) =
          created display_name username email password roles hash account_id identity_id now m b
            made in
        let accepted =
          (verify_password-hash_password e lawful hmac width salt password password long).0 in
        rw (accounts, ← same)
          (logged_in equal_fold (verify_password e hmac) username password m.users.accounts a i
            named refl refl (rw (folds (trim_space username), accepted) refl) nobody)
