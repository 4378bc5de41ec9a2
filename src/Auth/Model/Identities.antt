-- ===== src/Auth/Model/Identities.antt =====
-- The operations on the identities of an account (auth/model.go).
use gantry_core.Base.{
  Bool, true, false, ◌&&◌, String, Option, none, some, List, [], ◌∷◌, ◌++◌, str_eq, if◌then◌else◌,
}
use gantry_core.Base.Text.{trim_space}
use gantry_core.Base.Result.{Result, ok, err}
use gantry_core.Auth.Accounts.{Identity, Account, Error}
use gantry_core.Auth.Edits.{update_first, edit_accounts, consume_accounts, remove_identity_of}
use gantry_core.Auth.Model.{
  Persistence, Model, is_short, with_accounts, attempt, require, save_users, commit_users,
}

-- The identity that `AddIdentity` stores.
unfoldable pub tidy_identity : Identity → String → Identity
tidy_identity identity fresh = record identity {
  id = if str_eq identity.id "" then fresh else identity.id;
  username = trim_space identity.username;
  email = trim_space identity.email;
}

module _ (lower : String → String) (P : Persistence) where
  -- The end of an operation that edits identities in place.
  unfoldable pub finish_edit :
      Error → Result Error (List Account × Bool) → Model P → Model P × Result Error (Unit {0})
  unfolding commit_users
  finish_edit missing edited m = attempt m edited (λ (accounts, found).
      if found
      then commit_users lower P tt (with_accounts m.users accounts) m
      else (m, err missing))

  -- `SetPassword`
  unfoldable pub set_password :
      String → String → String → Result Error String → Model P → Model P × Result Error (Unit {0})
  unfolding finish_edit edit_accounts
  set_password account_id identity_id password hash m =
      if is_short password
      then (m, err Error.password_short)
      else attempt m hash (λ h.
        finish_edit Error.password_identity_not_found
          (edit_accounts account_id (λ i. str_eq i.id identity_id && str_eq i.type "password")
            (λ i. ok (record i { password_hash = h })) m.users.accounts)
          m)

  -- `SetIdentityTOTP`
  unfoldable pub set_identity_totp :
      String → String → Bool → List String → Model P → Model P × Result Error (Unit {0})
  unfolding finish_edit edit_accounts
  set_identity_totp account_id identity_id enabled hashes m =
      let set = λ (i : Identity).
        if str_eq i.type "password"
        then ok (record i { totp_enabled = enabled; recovery_code_hashes = hashes })
        else err Error.totp_unsupported in
      finish_edit Error.identity_not_found
        (edit_accounts account_id (λ i. str_eq i.id identity_id) set m.users.accounts) m

  -- `SetIdentityEnabled`
  unfoldable pub set_identity_enabled :
      String → String → Bool → Model P → Model P × Result Error (Unit {0})
  unfolding finish_edit edit_accounts
  set_identity_enabled account_id identity_id enabled m =
      finish_edit Error.identity_not_found
        (edit_accounts account_id (λ i. str_eq i.id identity_id)
          (λ i. ok (record i { enabled = enabled })) m.users.accounts)
        m

  -- `AddIdentity`; the fresh id is used where the identity brings none.
  unfoldable pub add_identity :
      String → Identity → String → Model P → Model P × Result Error Identity
  unfolding commit_users update_first tidy_identity
  add_identity account_id identity fresh m =
      let new = tidy_identity identity fresh in
      require m Error.account_not_found
        (update_first account_id (λ a. record a { identities = a.identities ++ (new ∷ []) })
          m.users.accounts)
        (λ accounts. commit_users lower P new (with_accounts m.users accounts) m)

  -- `AddPasswordIdentity`
  unfoldable pub add_password_identity :
      String
      → String
      → String
      → String
      → Result Error String
      → String
      → Model P
      → Model P × Result Error Identity
  unfolding add_identity
  add_password_identity account_id username email password hash fresh m =
      if is_short password
      then (m, err Error.password_short)
      else attempt m hash (λ h.
        add_identity account_id
          (record {
            id = "";
            type = "password";
            username = username;
            email = email;
            provider_subject = "";
            password_hash = h;
            totp_enabled = false;
            recovery_code_hashes = [];
            enabled = true;
          })
          fresh m)

  -- The save in `ConsumeRecoveryCode`, which does not validate.
  unfoldable pub finish_consume : Option (List Account) → Model P → Model P × Bool
  unfolding save_users
  finish_consume none m = (m, false)
  finish_consume (some accounts) m =
      let (m', result) = save_users lower P tt (with_accounts m.users accounts) m in
      (m', elim result [ ok done ↦ true | err e ↦ false ])

  -- `ConsumeRecoveryCode`
  unfoldable pub consume_recovery_code : String → String → String → Model P → Model P × Bool
  unfolding finish_consume consume_accounts
  consume_recovery_code account_id identity_id hash m =
      finish_consume (consume_accounts account_id identity_id hash m.users.accounts) m

  -- `RemoveIdentity`
  unfoldable pub remove_identity : String → String → Model P → Model P × Result Error Identity
  unfolding commit_users remove_identity_of
  remove_identity account_id identity_id m =
      attempt m (remove_identity_of account_id identity_id m.users.accounts)
        (λ (removed, accounts). commit_users lower P removed (with_accounts m.users accounts) m)
