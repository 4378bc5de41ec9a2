-- ===== src/Auth/Model/Step.antt =====
-- The operations that change accounts as steps of the model, and the invariant they keep: what the
-- persistence holds is what the model holds, and it is valid.
use gantry_core.Base.{
  ◌≡◌, refl, subst, ◌∙◌, ◌⊎◌, inl, inr, ℕ, Bool, true, false, ◌||◌, ◌&&◌, String, Option, none,
  some, List, [], ◌∷◌, ◌++◌, str_eq, if◌then◌else◌, length, length-append, arith, Bool-cases, ◌==◌,
  ltb,
}
use gantry_core.Base.Text.{trim_space}
use gantry_core.Base.Result.{Result, ok, err, Holds, Holds-ok}
use gantry_core.Auth.Accounts.{
  Identity, Account, AccountsFile, Role, RolesFile, Error, validate_accounts,
}
use gantry_core.Auth.Capabilities.{dedupe_strings}
use gantry_core.Auth.Edits.{update_first, edit_accounts, remove_identity_of, delete_first}
use gantry_core.Auth.Edits.Lengths.{
  Given, length-update_first, length-edit_accounts, length-remove_identity_of,
}
use gantry_core.Auth.Model.{
  Persistence, IsDurable, Model, is_short, keep_users, save_users, commit_users, keep_roles,
  save_role_file, create_account, update_account, delete_account, set_role, with_accounts, attempt,
  require, with_role,
}
use gantry_core.Auth.Model.Identities.{
  finish_edit, set_password, set_identity_totp, set_identity_enabled, add_identity,
  add_password_identity, remove_identity, tidy_identity,
}

abbrev pub nonempty : AccountsFile → Bool
nonempty f = ltb 0 (length f.accounts)

grown : (xs : List Account) (a : Account) → ltb 0 (length (xs ++ (a ∷ []))) ≡ true
grown xs a = ground (arith, length-append xs (a ∷ []))

Given-length :
    {n : ℕ} {o : Option (List Account)} (ys : List Account)
    → Given (λ zs. length zs ≡ n) o
    → o ≡ some ys
    → length ys ≡ n
Given-length {n} ys h e = subst (Given (λ (zs : List Account). length zs ≡ n)) e h

module _ (lower : String → String) (P : Persistence) where
  -- Memory and medium agree on a valid state.
  pub record Consistent (m : Model P) : Type 0 where
    pub valid : validate_accounts lower m.users m.roles m.policy ≡ ok tt
    pub accounts_stored : P.load_accounts m.store ≡ ok m.users
    pub roles_stored : P.load_roles m.store ≡ ok m.roles

  -- The state after an operation is consistent, and has accounts if there were some.
  abbrev pub Next : Model P → Model P → Type 0
  Next m m' = Consistent m' × (nonempty m.users ≡ true → nonempty m'.users ≡ true)

  module _ (durable : IsDurable P) (m : Model P) (fine : Consistent m) where
    pub stays : Next m m
    stays = (fine, λ h. h)

    pub keep_users-Next :
        {R : Type 0} (r : R) (next : AccountsFile) (saved : P.Medium × Result Error (Unit {0}))
        → P.save_accounts next m.store ≡ saved
        → validate_accounts lower next m.roles m.policy ≡ ok tt
        → (nonempty m.users ≡ true → nonempty next ≡ true)
        → Next m (keep_users lower P r next m saved).0
    unfolding keep_users
    keep_users-Next r next (store, err e) same valid grown =
        let (accounts, roles) = durable.failed_accounts next m.store store e same in
        (
          record {
            valid = fine.valid;
            accounts_stored = accounts ∙ fine.accounts_stored;
            roles_stored = roles ∙ fine.roles_stored;
          },
          λ h. h,
        )
    keep_users-Next r next (store, ok u) same valid grown =
        let (accounts, roles) = durable.saved_accounts next m.store store same in
        (
          record {
            valid = valid;
            accounts_stored = accounts;
            roles_stored = roles ∙ fine.roles_stored;
          },
          grown,
        )

    attempt-Next :
        {A : Type 0} {R : Type 0} (a : Result Error A) (next : A → Model P × Result Error R)
        → ((x : A) → a ≡ ok x → Next m (next x).0)
        → Next m (attempt m a next).0
    attempt-Next (err e) next h = stays
    attempt-Next (ok x) next h = h x refl

    require-Next :
        {A : Type 0} {R : Type 0} (e : Error) (a : Option A) (next : A → Model P × Result Error R)
        → ((x : A) → a ≡ some x → Next m (next x).0)
        → Next m (require m e a next).0
    require-Next e none next h = stays
    require-Next e (some x) next h = h x refl

    pub test-Next :
        {R : Type 0} (b : Bool) (e : Error) (next : Model P × Result Error R)
        → Next m next.0
        → Next m (if b then (m, err e) else next).0
    test-Next true e next h = stays
    test-Next false e next h = h

    commit_users-Next :
        {R : Type 0} (r : R) (next : AccountsFile)
        → (nonempty m.users ≡ true → nonempty next ≡ true)
        → Next m (commit_users lower P r next m).0
    unfolding commit_users save_users
    commit_users-Next r next h =
        attempt-Next (validate_accounts lower next m.roles m.policy) _
          (λ u same. keep_users-Next r next (P.save_accounts next m.store) refl same h)

    -- Lists of accounts of the same length.
    same_length :
        (xs ys : List Account)
        → length ys ≡ length xs
        → ltb 0 (length xs) ≡ true
        → ltb 0 (length ys) ≡ true
    same_length xs ys h g = ground (arith, h, g)

    pub create_account-Next :
        (display_name username email password : String) (roles : List String)
        (hash : Result Error String) (account_id identity_id : String) (now : ℕ)
        → Next m
            (create_account lower P display_name username email password roles hash account_id
              identity_id now m).0
    unfolding create_account
    create_account-Next display_name username email password roles hash account_id identity_id now =
        test-Next
          (str_eq (trim_space display_name) ""
            || str_eq (trim_space username) ""
            || is_short password)
          _ _
          (attempt-Next hash _ (λ h same. commit_users-Next _ _ (λ g. grown m.users.accounts _)))

    first-Next :
        {R : Type 0} (r : R) (id : String) (f : Account → Account)
        → Next m
            (require m Error.account_not_found
              (update_first id f m.users.accounts)
              (λ accounts. commit_users lower P r (with_accounts m.users accounts) m)).0
    first-Next r id f =
        require-Next Error.account_not_found (update_first id f m.users.accounts) _
          (λ accounts same. commit_users-Next r (with_accounts m.users accounts) (
            same_length m.users.accounts accounts
              (Given-length accounts (length-update_first id f m.users.accounts) same)))

    pub update_account-Next :
        (id display_name : String) (enabled : Bool) (roles : List String)
        → Next m (update_account lower P id display_name enabled roles m).0
    unfolding update_account
    update_account-Next id display_name enabled roles = first-Next tt id (λ a. record a {
      display_name = trim_space display_name;
      enabled = enabled;
      roles = dedupe_strings roles;
    })

    found-Next :
        {R : Type 0} (b : Bool) (e : Error) (next : Model P × Result Error R)
        → Next m next.0
        → Next m (if b then next else (m, err e)).0
    found-Next true e next h = h
    found-Next false e next h = stays

    finish_edit-Next :
        (missing : Error) (edited : Result Error (List Account × Bool))
        → Holds (λ (ys, found). length ys ≡ length m.users.accounts) edited
        → Next m (finish_edit lower P missing edited m).0
    unfolding finish_edit
    finish_edit-Next missing edited h = attempt-Next edited _ (λ (accounts, found) same.
        found-Next found missing _ (
          commit_users-Next tt (with_accounts m.users accounts)
            (same_length m.users.accounts accounts (Holds-ok (accounts, found) h same))))

    edit-Next :
        (missing : Error) (id : String) (matches : Identity → Bool)
        (f : Identity → Result Error Identity)
        → Next m (finish_edit lower P missing (edit_accounts id matches f m.users.accounts) m).0
    edit-Next missing id matches f =
        finish_edit-Next missing (edit_accounts id matches f m.users.accounts)
          (length-edit_accounts id matches f m.users.accounts)

    pub set_password-Next :
        (account_id identity_id password : String) (hash : Result Error String)
        → Next m (set_password lower P account_id identity_id password hash m).0
    unfolding set_password
    set_password-Next account_id identity_id password hash = test-Next (is_short password) _ _ (
        attempt-Next hash _ (λ h same.
          edit-Next Error.password_identity_not_found account_id
            (λ i. str_eq i.id identity_id && str_eq i.type "password")
            (λ i. ok (record i { password_hash = h }))))

    pub set_identity_totp-Next :
        (account_id identity_id : String) (enabled : Bool) (hashes : List String)
        → Next m (set_identity_totp lower P account_id identity_id enabled hashes m).0
    unfolding set_identity_totp
    set_identity_totp-Next account_id identity_id enabled hashes =
        edit-Next Error.identity_not_found account_id (λ i. str_eq i.id identity_id)
          (λ i.
            if str_eq i.type "password"
            then ok (record i { totp_enabled = enabled; recovery_code_hashes = hashes })
            else err Error.totp_unsupported)

    pub set_identity_enabled-Next :
        (account_id identity_id : String) (enabled : Bool)
        → Next m (set_identity_enabled lower P account_id identity_id enabled m).0
    unfolding set_identity_enabled
    set_identity_enabled-Next account_id identity_id enabled =
        edit-Next Error.identity_not_found account_id (λ i. str_eq i.id identity_id)
          (λ i. ok (record i { enabled = enabled }))

    pub add_identity-Next :
        (account_id : String) (identity : Identity) (fresh : String)
        → Next m (add_identity lower P account_id identity fresh m).0
    unfolding add_identity
    add_identity-Next account_id identity fresh =
        first-Next (tidy_identity identity fresh) account_id
          (λ a. record a { identities = a.identities ++ (tidy_identity identity fresh ∷ []) })

    pub add_password_identity-Next :
        (account_id username email password : String) (hash : Result Error String) (fresh : String)
        → Next m (add_password_identity lower P account_id username email password hash fresh m).0
    unfolding add_password_identity
    add_password_identity-Next account_id username email password hash fresh =
        test-Next (is_short password) _ _ (
          attempt-Next hash _ (λ h same.
            add_identity-Next account_id
              (record {
                id = "";
                type = "password";
                username = username;
                email = email;
                provider_subject = "";
                password_hash = h;
                totp_enabled = false;
                recovery_code_hashes = [];
                enabled = true;
              })
              fresh))

    pub remove_identity-Next :
        (account_id identity_id : String)
        → Next m (remove_identity lower P account_id identity_id m).0
    unfolding remove_identity
    remove_identity-Next account_id identity_id =
        attempt-Next (remove_identity_of account_id identity_id m.users.accounts) _
          (λ (removed, accounts) same. commit_users-Next removed (with_accounts m.users accounts) (
            same_length m.users.accounts accounts (
              Holds-ok (removed, accounts)
                (length-remove_identity_of account_id identity_id m.users.accounts) same)))

    pub delete_account-Next : (account_id : String) → Next m (delete_account lower P account_id m).0
    unfolding delete_account
    delete_account-Next account_id =
        require-Next Error.account_not_found (delete_first account_id m.users.accounts) _
          (λ (identities, accounts) same.
            left identities accounts (Bool-cases (length accounts == 0)))
      where
        left :
            (identities : List Identity) (accounts : List Account)
            → (length accounts == 0 ≡ true) ⊎ (length accounts == 0 ≡ false)
            → Next m
                (if length accounts == 0
                  then (m, err Error.last_account)
                  else commit_users lower P identities (with_accounts m.users accounts) m).0
        left identities accounts c = elim c [
          | inl e ↦ rw e stays
          | inr e ↦ rw e (
              commit_users-Next identities (with_accounts m.users accounts)
                (λ h. ground (arith, e)))
        ]

    keep_roles-Next :
        (next : RolesFile) (saved : P.Medium × Result Error (Unit {0}))
        → P.save_roles next m.store ≡ saved
        → validate_accounts lower m.users next m.policy ≡ ok tt
        → Next m (keep_roles lower P next m saved).0
    unfolding keep_roles
    keep_roles-Next next (store, err e) same valid =
        let (accounts, roles) = durable.failed_roles next m.store store e same in
        (
          record {
            valid = fine.valid;
            accounts_stored = accounts ∙ fine.accounts_stored;
            roles_stored = roles ∙ fine.roles_stored;
          },
          λ h. h,
        )
    keep_roles-Next next (store, ok u) same valid =
        let (roles, accounts) = durable.saved_roles next m.store store same in
        (
          record {
            valid = valid;
            accounts_stored = accounts ∙ fine.accounts_stored;
            roles_stored = roles;
          },
          λ h. h,
        )

    pub set_role-Next :
        (id name : String) (capabilities : List String) (built_in : Bool)
        → Next m (set_role lower P id name capabilities built_in m).0
    unfolding set_role save_role_file
    set_role-Next id name capabilities built_in =
        let new : Role = record {
          id = trim_space id;
          name = trim_space name;
          capabilities = dedupe_strings capabilities;
          built_in = built_in;
        } in
        test-Next (str_eq (trim_space id) "" || str_eq (trim_space name) "") Error.role_incomplete _
          (attempt-Next (validate_accounts lower m.users (with_role new m.roles) m.policy)
            (λ valid. save_role_file lower P (with_role new m.roles) m)
            (λ u same.
              keep_roles-Next (with_role new m.roles) (P.save_roles (with_role new m.roles) m.store)
                refl same))
