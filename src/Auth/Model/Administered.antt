-- ===== src/Auth/Model/Administered.antt =====
-- No operation of the model takes the last administrator away, whatever the persistence answers.
use gantry_core.Base.{
  ◌≡◌, refl, ap, ◌∙◌, ◌⊎◌, inl, inr, ℕ, Bool, true, not, ◌&&◌, String, Option, none, some, List, [],
  ◌∷◌, length, arith, ◌==◌, ltb, has,
}
use gantry_core.Base.Int.{eq_ℤ}
use gantry_core.Base.Result.{
  Result, ok, ◌>>=◌, guard, >>=-same, Holds-ok, Holds-self, Holds->>=, Holds, holds,
}
use gantry_core.Auth.Accounts.{
  Identity, Account, AccountsFile, RolesFile, AccountPolicy, Error, administrator, schema_version,
  administrator_missing, no_administrator, product_label, validate_accounts, check_accounts,
  check_roles, Seen, unseen,
}
use gantry_core.Auth.Accounts.Valid.{Valid, validate_accounts-Valid, some_admin}
use gantry_core.Auth.Edits.{consume_accounts}
use gantry_core.Auth.Edits.Lengths.{Given, length-consume_accounts}
use gantry_core.Auth.Edits.Recovery.{check_accounts-consume_accounts}
use gantry_core.Auth.Model.{
  Persistence, IsDurable, Model, save_users, load, reload, new_model, create_account,
  create_initial_administrator, update_account, delete_account, set_role, with_accounts,
}
use gantry_core.Auth.Model.Identities.{
  set_password, set_identity_totp, set_identity_enabled, add_identity, add_password_identity,
  consume_recovery_code, finish_consume, remove_identity,
}
use gantry_core.Auth.Model.Step.{
  Consistent, Next, nonempty, stays, keep_users-Next, test-Next, create_account-Next,
  update_account-Next, set_password-Next, set_identity_totp-Next, set_identity_enabled-Next,
  add_identity-Next, add_password_identity-Next, remove_identity-Next, delete_account-Next,
  set_role-Next,
}

-- Accounts of the same number that pass the same checks are valid together.
validate_accounts-same :
    (lower : String → String) (users : AccountsFile) (rest : List Account) (roles : RolesFile)
    (policy : AccountPolicy)
    → length rest ≡ length users.accounts
    → ((known : List String)
        → check_accounts lower known rest unseen ≡ check_accounts lower known users.accounts unseen)
    → validate_accounts lower (with_accounts users rest) roles policy
      ≡ validate_accounts lower users roles policy
unfolding validate_accounts
validate_accounts-same lower users rest roles policy count same =
    >>=-same
      (guard (eq_ℤ users.version policy.schema_version && eq_ℤ roles.version policy.schema_version)
        schema_version)
      _ _
      (λ u. >>=-same (check_roles policy.known_capability [] roles.roles) _ _ (λ known.
        >>=-same (guard (has administrator known) administrator_missing) _ _ (λ v.
          ap
            (λ r. r >>= λ s.
              guard (not (ltb 0 (length rest) && s.admins == 0))
                (no_administrator (product_label policy.product_name)))
            (same known)
          ∙ >>=-same (check_accounts lower known users.accounts unseen) _ _ (λ s.
            ap
              (λ n.
                guard (not (ltb 0 n && s.admins == 0))
                  (no_administrator (product_label policy.product_name)))
              count))))

administered :
    (rest : List Account)
    → ltb 0 (length rest) ≡ true
    → (length rest ≡ 0) ⊎ (some_admin rest ≡ true)
    → some_admin rest ≡ true
administered rest h (inl e) = ground (arith, h, e)
administered rest h (inr found) = found

module _ (lower : String → String) (P : Persistence) where
  -- The operations that change the model, with whatever their callers and the outside give them.
  pub data Step (m : Model P) : Model P → Type 0 where
    created_first :
        (display_name username email password : String) (hash : Result Error String)
        (account_id identity_id : String) (now : ℕ)
        → Step m
            (create_initial_administrator lower P display_name username email password hash
              account_id identity_id now m).0
    created :
        (display_name username email password : String) (roles : List String)
        (hash : Result Error String) (account_id identity_id : String) (now : ℕ)
        → Step m
            (create_account lower P display_name username email password roles hash account_id
              identity_id now m).0
    updated :
        (id display_name : String) (enabled : Bool) (roles : List String)
        → Step m (update_account lower P id display_name enabled roles m).0
    password_set :
        (account_id identity_id password : String) (hash : Result Error String)
        → Step m (set_password lower P account_id identity_id password hash m).0
    totp_set :
        (account_id identity_id : String) (enabled : Bool) (hashes : List String)
        → Step m (set_identity_totp lower P account_id identity_id enabled hashes m).0
    enabled_set :
        (account_id identity_id : String) (enabled : Bool)
        → Step m (set_identity_enabled lower P account_id identity_id enabled m).0
    identity_added :
        (account_id : String) (identity : Identity) (fresh : String)
        → Step m (add_identity lower P account_id identity fresh m).0
    password_added :
        (account_id username email password : String) (hash : Result Error String) (fresh : String)
        → Step m (add_password_identity lower P account_id username email password hash fresh m).0
    code_consumed :
        (account_id identity_id hash : String)
        → Step m (consume_recovery_code lower P account_id identity_id hash m).0
    identity_removed :
        (account_id identity_id : String)
        → Step m (remove_identity lower P account_id identity_id m).0
    deleted : (account_id : String) → Step m (delete_account lower P account_id m).0
    role_set :
        (id name : String) (capabilities : List String) (built_in : Bool)
        → Step m (set_role lower P id name capabilities built_in m).0
    reloaded : Step m (reload lower P m).0

  pub data Steps (m : Model P) : Model P → Type 0 where
    here : Steps m m
    next : {mid last : Model P} → Steps m mid → Step mid last → Steps m last

  module _ (durable : IsDurable P) (m : Model P) (fine : Consistent lower P m) where
    finish_consume-Next :
        (o : Option (List Account))
        → Given (λ ys. length ys ≡ length m.users.accounts) o
        → ((known : List String)
            → Given
                (λ rest.
                  (s : Seen)
                  → check_accounts lower known rest s
                    ≡ check_accounts lower known m.users.accounts s)
                o)
        → Next lower P m (finish_consume lower P o m).0
    unfolding finish_consume save_users
    finish_consume-Next none count same = stays lower P durable m fine
    finish_consume-Next (some rest) count same =
        keep_users-Next lower P durable m fine tt (with_accounts m.users rest)
          (P.save_accounts (with_accounts m.users rest) m.store) refl
          (validate_accounts-same lower m.users rest m.roles m.policy count
              (λ known. same known unseen)
            ∙ fine.valid)
          (λ h. ground (arith, count, h))

    consume_recovery_code-Next :
        (account_id identity_id hash : String)
        → Next lower P m (consume_recovery_code lower P account_id identity_id hash m).0
    unfolding consume_recovery_code
    consume_recovery_code-Next account_id identity_id hash =
        finish_consume-Next (consume_accounts account_id identity_id hash m.users.accounts)
          (length-consume_accounts account_id identity_id hash m.users.accounts)
          (λ known.
            check_accounts-consume_accounts lower known account_id identity_id hash
              m.users.accounts)

    reload-Next : Next lower P m (reload lower P m).0
    unfolding reload load
    reload-Next =
        rw (fine.accounts_stored, fine.roles_stored, fine.valid) (stays lower P durable m fine)

  -- Every operation keeps the invariant.
  pub Step-Next :
      IsDurable P → (m m' : Model P) → Consistent lower P m → Step m m' → Next lower P m m'
  unfolding create_initial_administrator
  Step-Next durable m _ fine
        (created_first display_name username email password hash account_id identity_id now) =
      test-Next lower P durable m fine (not (length m.users.accounts == 0)) Error.setup_complete _ (
        create_account-Next lower P durable m fine display_name username email password
          (administrator ∷ []) hash account_id identity_id now)
  Step-Next durable m _ fine
        (created display_name username email password roles hash account_id identity_id now) =
      create_account-Next lower P durable m fine display_name username email password roles hash
        account_id identity_id now
  Step-Next durable m _ fine (updated id display_name enabled roles) =
      update_account-Next lower P durable m fine id display_name enabled roles
  Step-Next durable m _ fine (password_set account_id identity_id password hash) =
      set_password-Next lower P durable m fine account_id identity_id password hash
  Step-Next durable m _ fine (totp_set account_id identity_id enabled hashes) =
      set_identity_totp-Next lower P durable m fine account_id identity_id enabled hashes
  Step-Next durable m _ fine (enabled_set account_id identity_id enabled) =
      set_identity_enabled-Next lower P durable m fine account_id identity_id enabled
  Step-Next durable m _ fine (identity_added account_id identity fresh) =
      add_identity-Next lower P durable m fine account_id identity fresh
  Step-Next durable m _ fine (password_added account_id username email password hash fresh) =
      add_password_identity-Next lower P durable m fine account_id username email password hash
        fresh
  Step-Next durable m _ fine (code_consumed account_id identity_id hash) =
      consume_recovery_code-Next durable m fine account_id identity_id hash
  Step-Next durable m _ fine (identity_removed account_id identity_id) =
      remove_identity-Next lower P durable m fine account_id identity_id
  Step-Next durable m _ fine (deleted account_id) =
      delete_account-Next lower P durable m fine account_id
  Step-Next durable m _ fine (role_set id name capabilities built_in) =
      set_role-Next lower P durable m fine id name capabilities built_in
  Step-Next durable m _ fine reloaded = reload-Next durable m fine

  Steps-Next :
      IsDurable P → (m m' : Model P) → Consistent lower P m → Steps m m' → Next lower P m m'
  Steps-Next durable m _ fine here = (fine, λ h. h)
  Steps-Next durable m last fine (next {mid} steps step) =
      let (fine', more) = Steps-Next durable m mid fine steps in
      let (fine'', more') = Step-Next durable mid last fine' step in (fine'', λ h. more' (more h))

  new_model-Consistent :
      (store : P.Medium) (policy : AccountPolicy)
      → Holds (Consistent lower P) (new_model lower P store policy)
  unfolding new_model load
  new_model-Consistent store policy =
      Holds->>=
        {P = λ (users, roles).
          (validate_accounts lower users roles policy ≡ ok tt)
          × (P.load_accounts store ≡ ok users)
          × (P.load_roles store ≡ ok roles)}
        _
        (Holds->>= _ (Holds-self (P.load_accounts store)) (λ users first.
          Holds->>= _ (Holds-self (P.load_roles store)) (λ roles second.
            Holds->>= _ (Holds-self (validate_accounts lower users roles policy))
              (λ u third. holds (third, first, second)))))
        (λ (users, roles) (valid, first, second).
          holds (record { valid = valid; accounts_stored = first; roles_stored = second }))

  -- A model that was loaded and has accounts: after any operations, and whichever of them the
  -- persistence refused, the accounts in memory are those stored, they pass validation, and one of
  -- them can log in by password as an administrator.
  pub Steps-administered :
      IsDurable P
      → (store : P.Medium) (policy : AccountPolicy) (m m' : Model P)
      → new_model lower P store policy ≡ ok m
      → nonempty m.users ≡ true
      → Steps m m'
      → Valid lower m'.users m'.roles m'.policy
        × (P.load_accounts m'.store ≡ ok m'.users)
        × (P.load_roles m'.store ≡ ok m'.roles)
        × (some_admin m'.users.accounts ≡ true)
  Steps-administered durable store policy m m' opened some_users steps =
      let fine = Holds-ok m (new_model-Consistent store policy) opened in
      let (fine', more) = Steps-Next durable m m' fine steps in
      let valid =
        Holds-ok tt (validate_accounts-Valid lower m'.users m'.roles m'.policy) fine'.valid in
      (
        valid,
        fine'.accounts_stored,
        fine'.roles_stored,
        administered m'.users.accounts (more some_users) valid.administered,
      )
