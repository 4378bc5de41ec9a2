-- ===== src/Auth/Model.antt =====
-- The model of accounts, identities and roles over an application's persistence (auth/model.go).
-- A lock is held through each operation, so an operation is one step. Cloning is the identity here.
-- What `NewID`, `time.Now` and `HashPassword` return are arguments.
pub mod Identities
pub mod Step
pub mod Consume
pub mod Administered
use Prim.Native.String.{count}
use gantry_core.Base.{
  ℕ, ◌≡◌, Bool, true, false, ◌||◌, not, String, Option, none, some, List, [], ◌∷◌, ◌++◌, str_eq,
  if◌then◌else◌, ltb, ◌==◌, length,
}
use gantry_core.Base.Text.{trim_space}
use gantry_core.Base.Sort.{sort_by, str_leb}
use gantry_core.Base.Result.{Result, ok, err, ◌>>=◌, ◌>>◌}
use gantry_core.Auth.Accounts.{
  Identity, Account, AccountsFile, Role, RolesFile, AccountPolicy, Error, administrator,
  validate_accounts,
}
use gantry_core.Auth.Capabilities.{dedupe_strings}
use gantry_core.Auth.Edits.{update_first, delete_first, upsert_role}

-- `AccountPersistence`, on the state of the medium.
pub record Persistence : Type 1 where
  pub Medium : Type 0
  pub load_accounts : Medium → Result Error AccountsFile
  pub load_roles : Medium → Result Error RolesFile
  pub save_accounts : AccountsFile → Medium → Medium × Result Error (Unit {0})
  pub save_roles : RolesFile → Medium → Medium × Result Error (Unit {0})

-- What the model relies on: what is saved is loaded, and a save that fails changes nothing.
pub record IsDurable (P : Persistence) : Type 0 where
  pub saved_accounts :
      (f : AccountsFile) (m m' : P.Medium)
      → P.save_accounts f m ≡ (m', ok tt)
      → (P.load_accounts m' ≡ ok f) × (P.load_roles m' ≡ P.load_roles m)
  pub saved_roles :
      (f : RolesFile) (m m' : P.Medium)
      → P.save_roles f m ≡ (m', ok tt)
      → (P.load_roles m' ≡ ok f) × (P.load_accounts m' ≡ P.load_accounts m)
  pub failed_accounts :
      (f : AccountsFile) (m m' : P.Medium) (e : Error)
      → P.save_accounts f m ≡ (m', err e)
      → (P.load_accounts m' ≡ P.load_accounts m) × (P.load_roles m' ≡ P.load_roles m)
  pub failed_roles :
      (f : RolesFile) (m m' : P.Medium) (e : Error)
      → P.save_roles f m ≡ (m', err e)
      → (P.load_accounts m' ≡ P.load_accounts m) × (P.load_roles m' ≡ P.load_roles m)

pub record Model (P : Persistence) : Type 0 where
  pub store : P.Medium
  pub policy : AccountPolicy
  pub users : AccountsFile
  pub roles : RolesFile

-- `len([]rune(password)) < 7`
abbrev pub is_short : String → Bool
is_short password = ltb (count password) 7

abbrev pub with_accounts : AccountsFile → List Account → AccountsFile
with_accounts f accounts = record f { accounts = accounts }

-- `if err != nil { return …, err }`, with the model as it is.
abbrev pub attempt {ℓ} :
    {P : Persistence} {A : Type ℓ} {R : Type 0}
    → Model P
    → Result Error A
    → (A → Model P × Result Error R)
    → Model P × Result Error R
attempt m (err e) next = (m, err e)
attempt m (ok a) next = next a

-- `if !found { return …, errors.New(…) }`
abbrev pub require {ℓ} :
    {P : Persistence} {A : Type ℓ} {R : Type 0}
    → Model P
    → Error
    → Option A
    → (A → Model P × Result Error R)
    → Model P × Result Error R
require m missing none next = (m, err missing)
require m missing (some a) next = next a

-- The role file that `SetRole` makes.
unfoldable pub with_role : Role → RolesFile → RolesFile
unfolding upsert_role
with_role new f = record f { roles = sort_by (λ r s. str_leb r.id s.id) (upsert_role new f.roles) }

module _ (lower : String → String) (P : Persistence) where
  unfoldable pub keep_users :
      {R : Type 0}
      → R
      → AccountsFile
      → Model P
      → P.Medium × Result Error (Unit {0})
      → Model P × Result Error R
  keep_users r next m (store, err e) = (record m { store = store }, err e)
  keep_users r next m (store, ok done) = (record m { store = store; users = next }, ok r)

  -- The end of an operation on accounts: save, and only then keep.
  unfoldable pub save_users : {R : Type 0} → R → AccountsFile → Model P → Model P × Result Error R
  unfolding keep_users
  save_users r next m = keep_users r next m (P.save_accounts next m.store)

  unfoldable pub commit_users : {R : Type 0} → R → AccountsFile → Model P → Model P × Result Error R
  unfolding save_users
  commit_users r next m =
      attempt m (validate_accounts lower next m.roles m.policy) (λ valid. save_users r next m)

  unfoldable pub keep_roles :
      RolesFile → Model P → P.Medium × Result Error (Unit {0}) → Model P × Result Error (Unit {0})
  keep_roles next m (store, err e) = (record m { store = store }, err e)
  keep_roles next m (store, ok done) = (record m { store = store; roles = next }, ok tt)

  unfoldable pub save_role_file : RolesFile → Model P → Model P × Result Error (Unit {0})
  unfolding keep_roles
  save_role_file next m = keep_roles next m (P.save_roles next m.store)

  -- Both loads and the validation.
  unfoldable pub load : AccountPolicy → P.Medium → Result Error (AccountsFile × RolesFile)
  load policy store = do
    users ← P.load_accounts store
    roles ← P.load_roles store
    validate_accounts lower users roles policy
    ok (users, roles)

  -- `NewModel`
  unfoldable pub new_model : P.Medium → AccountPolicy → Result Error (Model P)
  unfolding load
  new_model store policy = load policy store >>= λ (users, roles).
      ok (record { store = store; policy = policy; users = users; roles = roles })

  -- `Reload`
  unfoldable pub reload : Model P → Model P × Result Error (Unit {0})
  unfolding load
  reload m =
      attempt m (load m.policy m.store)
        (λ (users, roles). (record m { users = users; roles = roles }, ok tt))

  -- The part of a request that an administrator types.
  unfoldable pub create_account :
      String
      → String
      → String
      → String
      → List String
      → Result Error String
      → String
      → String
      → ℕ
      → Model P
      → Model P × Result Error Account
  unfolding commit_users
  create_account display_name username email password roles hash account_id identity_id now m =
      let name = trim_space display_name in
      let user = trim_space username in
      if str_eq name "" || str_eq user "" || is_short password
      then (m, err Error.account_incomplete)
      else attempt m hash (λ h.
        let identity : Identity = record {
          id = identity_id;
          type = "password";
          username = user;
          email = trim_space email;
          provider_subject = "";
          password_hash = h;
          totp_enabled = false;
          recovery_code_hashes = [];
          enabled = true;
        } in
        let account : Account = record {
          id = account_id;
          display_name = name;
          enabled = true;
          roles = dedupe_strings roles;
          identities = identity ∷ [];
          created_at = now;
        } in
        commit_users account (with_accounts m.users (m.users.accounts ++ (account ∷ []))) m)

  -- `CreateInitialAdministrator`
  unfoldable pub create_initial_administrator :
      String
      → String
      → String
      → String
      → Result Error String
      → String
      → String
      → ℕ
      → Model P
      → Model P × Result Error Account
  unfolding create_account
  create_initial_administrator display_name username email password hash account_id identity_id now
        m =
      if not (length m.users.accounts == 0)
      then (m, err Error.setup_complete)
      else create_account display_name username email password (administrator ∷ []) hash account_id
          identity_id now m

  -- `UpdateAccount`
  unfoldable pub update_account :
      String → String → Bool → List String → Model P → Model P × Result Error (Unit {0})
  unfolding commit_users update_first
  update_account id display_name enabled roles m =
      let change = λ (a : Account). record a {
        display_name = trim_space display_name;
        enabled = enabled;
        roles = dedupe_strings roles;
      } in
      require m Error.account_not_found (update_first id change m.users.accounts)
        (λ accounts. commit_users tt (with_accounts m.users accounts) m)

  -- `DeleteAccount`
  unfoldable pub delete_account : String → Model P → Model P × Result Error (List Identity)
  unfolding commit_users delete_first
  delete_account account_id m =
      require m Error.account_not_found (delete_first account_id m.users.accounts)
        (λ (identities, accounts).
          if length accounts == 0
          then (m, err Error.last_account)
          else commit_users identities (with_accounts m.users accounts) m)

  -- `SetRole`
  unfoldable pub set_role :
      String → String → List String → Bool → Model P → Model P × Result Error (Unit {0})
  unfolding save_role_file with_role
  set_role id name capabilities built_in m =
      let new : Role = record {
        id = trim_space id;
        name = trim_space name;
        capabilities = dedupe_strings capabilities;
        built_in = built_in;
      } in
      if str_eq (trim_space id) "" || str_eq (trim_space name) ""
      then (m, err Error.role_incomplete)
      else attempt m (validate_accounts lower m.users (with_role new m.roles) m.policy)
          (λ valid. save_role_file (with_role new m.roles) m)
