-- ===== src/Auth/Accounts.antt =====
-- Accounts, identities and roles, and their validation (auth/accounts.go). `strings.ToLower` is the
-- parameter `lower`, since its Unicode tables play no part in what is proved.
pub mod Fresh
pub mod Sound
pub mod Valid
use Prim.Native.String.{◌++◌}
use gantry_core.Base.{
  ℕ, ◌+◌, Bool, false, ◌&&◌, ◌||◌, not, String, Option, none, some, List, [], ◌∷◌, str_eq, has,
  if◌then◌else◌, ◌==◌, ltb, length,
}
use gantry_core.Base.Int.{ℤ, eq_ℤ}
use gantry_core.Base.Text.{trim_space}
use gantry_core.Base.Result.{Result, ok, err, ◌>>=◌, ◌>>◌, guard}

pub record Identity : Type 0 where
  pub id : String
  pub type : String
  pub username : String
  pub email : String
  pub provider_subject : String
  pub password_hash : String
  pub totp_enabled : Bool
  pub recovery_code_hashes : List String
  pub enabled : Bool

pub record Account : Type 0 where
  pub id : String
  pub display_name : String
  pub enabled : Bool
  pub roles : List String
  pub identities : List Identity
  pub created_at : ℕ

pub record AccountsFile : Type 0 where
  pub version : ℤ
  pub accounts : List Account

pub record Role : Type 0 where
  pub id : String
  pub name : String
  pub capabilities : List String
  pub built_in : Bool

pub record RolesFile : Type 0 where
  pub version : ℤ
  pub roles : List Role

pub record AccountPolicy : Type 0 where
  pub schema_version : ℤ
  pub product_name : String
  pub known_capability : Option (String → Bool)

pub data Error : Type 0 where
  schema_version role_id administrator_capabilities : Error
  unknown_capability : String → String → Error
  administrator_missing : Error
  account_id : String → Error
  display_name_missing : String → Error
  unknown_role : String → String → Error
  identity_id : String → Error
  password_incomplete : String → Error
  duplicate_username : String → Error
  duplicate_email : String → Error
  email_missing : String → Error
  subject_missing : String → Error
  duplicate_subject : String → Error
  unsupported_type : String → String → Error
  no_administrator : String → Error
  setup_complete account_incomplete password_short hash_failed : Error
  account_not_found identity_not_found password_identity_not_found : Error
  totp_unsupported last_login_identity last_account role_incomplete : Error
  save_failed load_failed : Error

abbrev pub administrator : String
administrator = "administrator"

-- `len(caps) == 1 && caps[0] == "*"`
unfoldable pub is_all : List String → Bool
is_all [] = false
is_all (c ∷ []) = str_eq c "*"
is_all (c ∷ d ∷ cs) = false

-- Whether the policy refuses a capability of a role.
unfoldable pub capability_unknown : Option (String → Bool) → String → Bool
capability_unknown none c = false
capability_unknown (some known) c = not (str_eq c "*") && not (known c)

unfoldable pub check_capabilities :
    Option (String → Bool) → String → List String → Result Error (Unit {0})
unfolding capability_unknown
check_capabilities known role [] = ok tt
check_capabilities known role (c ∷ cs) =
    guard (not (capability_unknown known c)) (unknown_capability role c)
    >> check_capabilities known role cs

-- The loop over the roles: `roleIDs` grows, latest first.
unfoldable pub check_roles :
    Option (String → Bool) → List String → List Role → Result Error (List String)
unfolding check_capabilities is_all
check_roles known seen [] = ok seen
check_roles known seen (r ∷ rs) =
    guard (not (str_eq r.id "" || has r.id seen)) role_id
    >> guard (not (str_eq r.id administrator && not (is_all r.capabilities)))
        administrator_capabilities
    >> check_capabilities known r.id r.capabilities
    >> check_roles known (r.id ∷ seen) rs

-- The maps that the loops over accounts and identities fill, and the count of administrators.
pub record Seen : Type 0 where
  pub account_ids : List String
  pub identity_ids : List String
  pub usernames : List String
  pub emails : List String
  pub subjects : List String
  pub admins : ℕ

abbrev pub unseen : Seen
unseen = record {
  account_ids = [];
  identity_ids = [];
  usernames = [];
  emails = [];
  subjects = [];
  admins = 0;
}

-- The roles of an account: whether one is the administrator's.
unfoldable pub check_account_roles : List String → String → Bool → List String → Result Error Bool
check_account_roles known account admin [] = ok admin
check_account_roles known account admin (r ∷ rs) =
    guard (has r known) (unknown_role account r)
    >> check_account_roles known account (admin || str_eq r administrator) rs

-- `hasEnabledPassword` for an enabled account.
unfoldable pub enabled_password : List Identity → Bool
enabled_password [] = false
enabled_password (i ∷ is) = str_eq i.type "password" && i.enabled || enabled_password is

-- The loop's last step for an account.
unfoldable pub count_admin : Account → Bool → Seen → Seen
unfolding enabled_password
count_admin a admin s =
    if a.enabled && admin && enabled_password a.identities
    then record s { admins = s.admins + 1 }
    else s

unfoldable pub product_label : String → String
product_label name = let p = trim_space name in if str_eq p "" then "application" else p

module _ (lower : String → String) where
  abbrev pub fold_case : String → String
  fold_case s = lower (trim_space s)

  unfoldable pub check_email : Identity → Seen → Result Error Seen
  check_email i s =
      let email = fold_case i.email in
      if str_eq email ""
      then ok s
      else if has email s.emails
      then err (duplicate_email i.email)
      else ok (record s { emails = email ∷ s.emails })

  -- `case "password"`
  unfoldable pub check_password : Identity → Seen → Result Error Seen
  unfolding check_email
  check_password i s =
      let username = fold_case i.username in
      if str_eq username "" || str_eq i.password_hash ""
      then err (password_incomplete i.id)
      else if has username s.usernames
      then err (duplicate_username i.username)
      else check_email i (record s { usernames = username ∷ s.usernames })

  abbrev pub subject_key : Identity → String
  subject_key i = i.type ++ "\0" ++ i.provider_subject

  -- `case "google"`
  unfoldable pub check_google : Identity → Seen → Result Error Seen
  check_google i s =
      if str_eq i.provider_subject ""
      then err (subject_missing i.id)
      else if has (subject_key i) s.subjects
      then err (duplicate_subject i.type)
      else ok (record s { subjects = subject_key i ∷ s.subjects })

  -- `case "email"`
  unfoldable pub check_email_identity : Identity → Seen → Result Error Seen
  check_email_identity i s =
      if str_eq (trim_space i.email) "" then err (email_missing i.id) else ok s

  -- `switch identity.Type`
  unfoldable pub check_type : Identity → Seen → Result Error Seen
  unfolding check_password check_google check_email_identity
  check_type i s =
      if str_eq i.type "password"
      then check_password i s
      else if str_eq i.type "email"
      then check_email_identity i s
      else if str_eq i.type "google"
      then check_google i s
      else err (unsupported_type i.id i.type)

  unfoldable pub check_identity : Identity → Seen → Result Error Seen
  unfolding check_type
  check_identity i s =
      if str_eq i.id "" || has i.id s.identity_ids
      then err (identity_id i.id)
      else check_type i (record s { identity_ids = i.id ∷ s.identity_ids })

  unfoldable pub check_identities : List Identity → Seen → Result Error Seen
  unfolding check_identity
  check_identities [] s = ok s
  check_identities (i ∷ is) s = check_identity i s >>= check_identities is

  unfoldable pub check_account : List String → Account → Seen → Result Error Seen
  unfolding check_account_roles check_identities count_admin
  check_account known a s = do
    guard (not (str_eq a.id "" || has a.id s.account_ids)) (account_id a.id)
    guard (not (str_eq (trim_space a.display_name) "")) (display_name_missing a.id)
    admin ← check_account_roles known a.id false a.roles
    s' ← check_identities a.identities (record s { account_ids = a.id ∷ s.account_ids })
    ok (count_admin a admin s')

  unfoldable pub check_accounts : List String → List Account → Seen → Result Error Seen
  unfolding check_account
  check_accounts known [] s = ok s
  check_accounts known (a ∷ rest) s = check_account known a s >>= check_accounts known rest

  -- `ValidateAccounts`
  unfoldable pub validate_accounts :
      AccountsFile → RolesFile → AccountPolicy → Result Error (Unit {0})
  unfolding check_roles check_accounts product_label
  validate_accounts users roles policy = do
    guard (eq_ℤ users.version policy.schema_version && eq_ℤ roles.version policy.schema_version)
        schema_version
    known ← check_roles policy.known_capability [] roles.roles
    guard (has administrator known) administrator_missing
    s ← check_accounts known users.accounts unseen
    guard (not (ltb 0 (length users.accounts) && s.admins == 0))
        (no_administrator (product_label policy.product_name))
