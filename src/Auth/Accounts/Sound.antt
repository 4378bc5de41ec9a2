-- ===== src/Auth/Accounts/Sound.antt =====
-- What accounts and roles that pass `ValidateAccounts` are.
use gantry_core.Base.{
  ℕ, ◌+◌, ◌≡◌, refl, ◌∙◌, Bool, true, false, ◌&&◌, ◌||◌, not, String, Option, List, [], ◌∷◌, ◌++◌,
  str_eq, has, if◌then◌else◌, arith, All,
}
use gantry_core.Base.Text.{trim_space}
use gantry_core.Base.Result.{failed, holds, Holds, Holds->>=, Holds-guard, Holds-if, Holds-weaken}
use gantry_core.Auth.Accounts.{
  Identity, Account, Role, Seen, administrator, is_all, capability_unknown, check_capabilities,
  check_roles, check_account_roles, check_email, check_password, check_google, check_email_identity,
  check_type, check_identity, check_identities, enabled_password, fold_case, subject_key,
}
use gantry_core.Auth.Accounts.Fresh.{Grows, Grows-append}

abbrev pub identity_ids : List Identity → List String
identity_ids [] = []
identity_ids (i ∷ is) = (i.id ∷ []) ++ identity_ids is

abbrev pub Kept : Seen → Seen → Type 0
Kept s t = (t.account_ids ≡ s.account_ids) × (t.admins ≡ s.admins)

-- One identity, or some, taken into the maps.
abbrev pub Took : List String → List String → Seen → Seen → Type 0
Took ids names s t =
    Kept s t × Grows s.identity_ids ids t.identity_ids × Grows s.usernames names t.usernames

module _ (lower : String → String) where
  -- The user names that an identity takes.
  abbrev pub username_of : Identity → List String
  username_of i = if str_eq i.type "password" then fold_case lower i.username ∷ [] else []

  abbrev pub usernames : List Identity → List String
  usernames [] = []
  usernames (i ∷ is) = username_of i ++ usernames is

  check_email-keeps :
      (i : Identity) (s : Seen)
      → Holds
          (λ t. Kept s t × (t.identity_ids ≡ s.identity_ids) × (t.usernames ≡ s.usernames))
          (check_email lower i s)
  unfolding check_email
  check_email-keeps i s =
      Holds-if (str_eq (fold_case lower i.email) "") _ _ (λ _. holds ((refl, refl), refl, refl))
        (λ _.
          Holds-if (has (fold_case lower i.email) s.emails) _ _ (λ _. failed)
            (λ _. holds ((refl, refl), refl, refl)))

  abbrev Takes : List String → Seen → Seen → Type 0
  Takes names s t =
      Kept s t × (t.identity_ids ≡ s.identity_ids) × Grows s.usernames names t.usernames

  check_password-Takes :
      (i : Identity) (s : Seen)
      → Holds (Takes (fold_case lower i.username ∷ []) s) (check_password lower i s)
  unfolding check_password
  check_password-Takes i s =
      let name = fold_case lower i.username in
      Holds-if (str_eq name "" || str_eq i.password_hash "") _ _ (λ _. failed)
        (λ filled.
          Holds-if (has name s.usernames) _ _ (λ _. failed)
            (λ new.
              Holds-weaken (check_email-keeps i (record s { usernames = name ∷ s.usernames }))
                (λ t (kept, ids, names). (kept, ids, ((ground (arith, filled), new, tt), names)))))

  check_google-Takes : (i : Identity) (s : Seen) → Holds (Takes [] s) (check_google lower i s)
  unfolding check_google
  check_google-Takes i s =
      Holds-if (str_eq i.provider_subject "") _ _ (λ _. failed)
        (λ _.
          Holds-if (has (subject_key lower i) s.subjects) _ _ (λ _. failed)
            (λ _. holds ((refl, refl), refl, (tt, refl))))

  check_type-Takes :
      (i : Identity) (s : Seen) → Holds (Takes (username_of i) s) (check_type lower i s)
  unfolding check_type check_email_identity
  check_type-Takes i s =
      Holds-if (str_eq i.type "password") _ _ (λ e. rw e (check_password-Takes i s))
        (λ e. rw e (
          Holds-if (str_eq i.type "email") _ _
            (λ _.
              Holds-if (str_eq (trim_space i.email) "") _ _ (λ _. failed)
                (λ _. holds ((refl, refl), refl, (tt, refl))))
            (λ _.
              Holds-if (str_eq i.type "google") _ _ (λ _. check_google-Takes i s) (λ _. failed))))

  check_identity-Took :
      (i : Identity) (s : Seen)
      → Holds (Took (i.id ∷ []) (username_of i) s) (check_identity lower i s)
  unfolding check_identity
  check_identity-Took i s =
      Holds-if (str_eq i.id "" || has i.id s.identity_ids) _ _ (λ _. failed)
        (λ e.
          Holds-weaken (check_type-Takes i (record s { identity_ids = i.id ∷ s.identity_ids }))
            (λ t (kept, ids, names).
              (kept, ((ground (arith, e), ground (arith, e), tt), ids), names)))

  pub check_identities-Took :
      (is : List Identity) (s : Seen)
      → Holds (Took (identity_ids is) (usernames is) s) (check_identities lower is s)
  unfolding check_identities
  check_identities-Took [] s = holds ((refl, refl), (tt, refl), (tt, refl))
  check_identities-Took (i ∷ is) s =
      Holds->>= (check_identities lower is) (check_identity-Took i s)
        (λ m ((accounts, admins), ids, names).
          Holds-weaken (check_identities-Took is m) (λ t ((accounts', admins'), ids', names'). (
            (accounts' ∙ accounts, admins' ∙ admins),
            Grows-append s.identity_ids m.identity_ids t.identity_ids (i.id ∷ []) (identity_ids is)
                ids ids',
            Grows-append s.usernames m.usernames t.usernames (username_of i) (usernames is) names
                names',
          )))

-- The boundary between an account and the rest of its file.
abbrev pub is_admin : Account → Bool
is_admin a = a.enabled && has administrator a.roles && enabled_password a.identities

abbrev pub RolesKnown : List String → List String → Type 0
RolesKnown known rs = All (λ r. has r known ≡ true) rs

pub check_account_roles-RolesKnown :
    (known : List String) (account : String) (admin : Bool) (rs : List String)
    → Holds
        (λ b. (b ≡ (admin || has administrator rs)) × RolesKnown known rs)
        (check_account_roles known account admin rs)
unfolding check_account_roles
check_account_roles-RolesKnown known account admin [] = holds (ground arith, tt)
check_account_roles-RolesKnown known account admin (r ∷ rs) = Holds-guard (has r known) _ _ (λ e.
    Holds-weaken (check_account_roles-RolesKnown known account (admin || str_eq r administrator) rs)
      (λ b (same, all). (same ∙ ground arith, (e, all))))

-- What `known` says of the roles.
abbrev pub RolesOk : Option (String → Bool) → List Role → Type 0
RolesOk known rs =
    All
      (λ r.
        (str_eq r.id administrator ≡ true → is_all r.capabilities ≡ true)
        × All (λ c. capability_unknown known c ≡ false) r.capabilities)
      rs

abbrev pub role_ids : List Role → List String
role_ids [] = []
role_ids (r ∷ rs) = r.id ∷ role_ids rs

check_capabilities-known :
    (known : Option (String → Bool)) (role : String) (cs : List String)
    → Holds
        (λ _. All (λ c. capability_unknown known c ≡ false) cs)
        (check_capabilities known role cs)
unfolding check_capabilities
check_capabilities-known known role [] = holds tt
check_capabilities-known known role (c ∷ cs) =
    Holds-guard (not (capability_unknown known c)) _ _ (λ e.
      Holds-weaken (check_capabilities-known known role cs) (λ u all. (ground (arith, e), all)))

pub check_roles-RolesOk :
    (known : Option (String → Bool)) (seen : List String) (rs : List Role)
    → Holds (λ out. Grows seen (role_ids rs) out × RolesOk known rs) (check_roles known seen rs)
unfolding check_roles
check_roles-RolesOk known seen [] = holds ((tt, refl), tt)
check_roles-RolesOk known seen (r ∷ rs) =
    Holds-guard (not (str_eq r.id "" || has r.id seen)) _ _ (λ new.
      Holds-guard (not (str_eq r.id administrator && not (is_all r.capabilities))) _ _ (λ admin.
        Holds->>= (λ _. check_roles known (r.id ∷ seen) rs)
          (check_capabilities-known known r.id r.capabilities)
          (λ u caps.
            Holds-weaken (check_roles-RolesOk known (r.id ∷ seen) rs) (λ out ((fresh, same), all). (
              ((ground (arith, new), ground (arith, new), fresh), same),
              (((λ h. ground (arith, admin, h)), caps), all),
            )))))

-- What is said of one account on its own.
abbrev pub AccountOk : List String → Account → Type 0
AccountOk known a = (str_eq (trim_space a.display_name) "" ≡ false) × RolesKnown known a.roles

abbrev pub account_ids : List Account → List String
account_ids [] = []
account_ids (a ∷ rest) = (a.id ∷ []) ++ account_ids rest

abbrev pub all_identity_ids : List Account → List String
all_identity_ids [] = []
all_identity_ids (a ∷ rest) = identity_ids a.identities ++ all_identity_ids rest

abbrev pub count_admins : List Account → ℕ
count_admins [] = 0
count_admins (a ∷ rest) = (if is_admin a then 1 else 0) + count_admins rest
