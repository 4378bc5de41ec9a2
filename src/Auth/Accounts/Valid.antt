-- ===== src/Auth/Accounts/Valid.antt =====
-- What `ValidateAccounts` promises of the accounts and roles together.
use gantry_core.Base.{
  ℕ, ◌+◌, ◌≡◌, refl, ap, subst, ◌∙◌, ◌⊎◌, inl, inr, Bool, true, false, ◌&&◌, ◌||◌, not, String,
  List, [], ◌∷◌, ◌++◌, str_eq, has, if◌then◌else◌, ◌==◌, ltb, length, arith, Bool-cases, All,
  All-weaken,
}
use gantry_core.Base.Int.{eq_ℤ}
use gantry_core.Base.Text.{trim_space}
use gantry_core.Base.Result.{ok, holds, Holds, Holds->>=, Holds-guard, Holds-test, Holds-weaken}
use gantry_core.Auth.Accounts.{
  Account, AccountsFile, Role, RolesFile, AccountPolicy, Seen, unseen, administrator,
  enabled_password, count_admin, check_account, check_accounts, validate_accounts,
}
use gantry_core.Auth.Accounts.Sound.{
  identity_ids, usernames, Took, is_admin, RolesOk, role_ids, AccountOk, account_ids,
  all_identity_ids, count_admins, check_identities-Took, check_account_roles-RolesKnown,
  check_roles-RolesOk,
}
use gantry_core.Auth.Accounts.Fresh.{Fresh, Grows, push_all, Grows-append, has-push_all}

module _ (lower : String → String) where
  abbrev pub all_usernames : List Account → List String
  all_usernames [] = []
  all_usernames (a ∷ rest) = usernames lower a.identities ++ all_usernames rest

  -- Some accounts taken into the maps, and their administrators counted.
  abbrev TookAccounts : List String → List Account → Seen → Seen → Type 0
  TookAccounts known rest s t =
      Grows s.account_ids (account_ids rest) t.account_ids
      × Grows s.identity_ids (all_identity_ids rest) t.identity_ids
      × Grows s.usernames (all_usernames rest) t.usernames
      × (t.admins ≡ s.admins + count_admins rest)
      × All (AccountOk known) rest

  abbrev TookAccount : List String → Account → Seen → Seen → Type 0
  TookAccount known a s t =
      Grows s.account_ids (a.id ∷ []) t.account_ids
      × Grows s.identity_ids (identity_ids a.identities) t.identity_ids
      × Grows s.usernames (usernames lower a.identities) t.usernames
      × (t.admins ≡ s.admins + (if is_admin a then 1 else 0))
      × AccountOk known a

  -- The last step counts the account, when what is known of its roles is right.
  count_admin-counts :
      (a : Account) (admin : Bool) (s : Seen)
      → admin ≡ has administrator a.roles
      → (count_admin a admin s).admins ≡ s.admins + (if is_admin a then 1 else 0)
  unfolding count_admin
  count_admin-counts a admin s h = ground (arith, h)

  count_admin-maps :
      (a : Account) (admin : Bool) (s : Seen)
      → ((count_admin a admin s).account_ids ≡ s.account_ids)
        × ((count_admin a admin s).identity_ids ≡ s.identity_ids)
        × ((count_admin a admin s).usernames ≡ s.usernames)
  unfolding count_admin
  count_admin-maps a admin s =
      elim (Bool-cases (a.enabled && admin && enabled_password a.identities)) [
        | inl e ↦ rw e (refl, refl, refl)
        | inr e ↦ rw e (refl, refl, refl)
      ]

  counted :
      (known : List String) (a : Account) (admin : Bool) (s t : Seen)
      → (str_eq a.id "" ≡ false) × (has a.id s.account_ids ≡ false)
      → AccountOk known a
      → admin ≡ has administrator a.roles
      → Took
          (identity_ids a.identities)
          (usernames lower a.identities)
          (record s { account_ids = a.id ∷ s.account_ids })
          t
      → TookAccount known a s (count_admin a admin t)
  counted known a admin s t (filled, new) fine same
        ((accounts, admins), (ids, ids'), (names, names')) =
      let (keep_accounts, keep_ids, keep_names) = count_admin-maps a admin t in
      (
        ((filled, new, tt), keep_accounts ∙ accounts),
        (ids, keep_ids ∙ ids'),
        (names, keep_names ∙ names'),
        count_admin-counts a admin t same ∙ rw admins refl,
        fine,
      )

  check_account-TookAccount :
      (known : List String) (a : Account) (s : Seen)
      → Holds (TookAccount known a s) (check_account lower known a s)
  unfolding check_account
  check_account-TookAccount known a s =
      Holds-guard (not (str_eq a.id "" || has a.id s.account_ids)) _ _ (λ new.
        Holds-guard (not (str_eq (trim_space a.display_name) "")) _ _ (λ named.
          Holds->>= _ (check_account_roles-RolesKnown known a.id false a.roles)
            (λ admin (same, roles).
              Holds->>= (λ t. ok (count_admin a admin t))
                (check_identities-Took lower a.identities
                  (record s { account_ids = a.id ∷ s.account_ids }))
                (λ t took. holds (
                  counted known a admin s t (ground (arith, new), ground (arith, new))
                    (ground (arith, named), roles) same took)))))

  joined :
      (known : List String) (a : Account) (rest : List Account) (s m t : Seen)
      → TookAccount known a s m
      → TookAccounts known rest m t
      → TookAccounts known (a ∷ rest) s t
  joined known a rest s m t (accounts, ids, names, count, fine)
        (accounts', ids', names', count', fine') =
      (
        Grows-append s.account_ids m.account_ids t.account_ids (a.id ∷ []) (account_ids rest)
            accounts accounts',
        Grows-append s.identity_ids m.identity_ids t.identity_ids (identity_ids a.identities)
            (all_identity_ids rest) ids ids',
        Grows-append s.usernames m.usernames t.usernames (usernames lower a.identities)
            (all_usernames rest) names names',
        omega (arith, count, count'),
        (fine, fine'),
      )

  pub check_accounts-TookAccounts :
      (known : List String) (rest : List Account) (s : Seen)
      → Holds (TookAccounts known rest s) (check_accounts lower known rest s)
  unfolding check_accounts
  check_accounts-TookAccounts known [] s =
      holds ((tt, refl), (tt, refl), (tt, refl), omega arith, tt)
  check_accounts-TookAccounts known (a ∷ rest) s =
      Holds->>= (check_accounts lower known rest) (check_account-TookAccount known a s) (λ m took.
        Holds-weaken (check_accounts-TookAccounts known rest m)
          (λ t took'. joined known a rest s m t took took'))

-- Among the accounts, one is enabled, has the administrator's role and a password that is enabled.
abbrev pub some_admin : List Account → Bool
some_admin [] = false
some_admin (a ∷ rest) = is_admin a || some_admin rest

count_admins-some_admin : (rest : List Account) → (count_admins rest ≡ 0) ⊎ (some_admin rest ≡ true)
count_admins-some_admin [] = inl refl
count_admins-some_admin (a ∷ rest) = elim (Bool-cases (is_admin a)) [
  | inl e ↦ inr (rw e refl)
  | inr e ↦ elim (count_admins-some_admin rest) [
    | inl zeros ↦ inl (rw e (omega (arith, zeros)))
    | inr found ↦ inr (rw e found)
  ]
]

-- What validation promises: the two files name one version; the roles have distinct ids, all known
-- capabilities, and among them the administrator's, which grants everything; accounts, identities
-- and password user names are each distinct; every account has a name and roles that exist; and
-- where there are accounts, one of them can log in by password as an administrator.
pub record Valid (lower : String → String) (users : AccountsFile) (roles : RolesFile)
    (policy : AccountPolicy) : Type 0 where
  pub same_version :
      (eq_ℤ users.version policy.schema_version && eq_ℤ roles.version policy.schema_version) ≡ true
  pub distinct_roles : Fresh [] (role_ids roles.roles)
  pub roles_ok : RolesOk policy.known_capability roles.roles
  pub has_administrator : has administrator (role_ids roles.roles) ≡ true
  pub distinct_accounts : Fresh [] (account_ids users.accounts)
  pub distinct_identities : Fresh [] (all_identity_ids users.accounts)
  pub distinct_usernames : Fresh [] (all_usernames lower users.accounts)
  pub accounts_ok : All (AccountOk (role_ids roles.roles)) users.accounts
  pub administered : (length users.accounts ≡ 0) ⊎ (some_admin users.accounts ≡ true)

AccountOk-roles :
    (rs : List Role) (rest : List Account)
    → All (AccountOk (push_all (role_ids rs) [])) rest
    → All (AccountOk (role_ids rs)) rest
AccountOk-roles rs = All-weaken _ _ (λ a (named, known). (
  named,
  All-weaken _ _ (λ r h. ground (arith, has-push_all r (role_ids rs) [], h)) a.roles known,
))

-- Where the last test passes and the count is right, someone administers the accounts.
administers :
    (rest : List Account) (admins : ℕ)
    → admins ≡ 0 + count_admins rest
    → not (ltb 0 (length rest) && admins == 0) ≡ true
    → (length rest ≡ 0) ⊎ (some_admin rest ≡ true)
administers rest admins same passed = elim (count_admins-some_admin rest) [
  | inl zeros ↦ inl (ground (arith, same, zeros, passed))
  | inr found ↦ inr found
]

-- Where validation lets accounts and roles through, both files have the version of the policy; the
-- roles have distinct ids, known capabilities, and among them an administrator's that grants
-- everything; accounts, identities and the user names of password identities are each distinct;
-- every account has a name and roles that exist; and there is no account, or one of them is enabled,
-- has the administrator's role and an enabled password identity.
pub validate_accounts-Valid :
    (lower : String → String) (users : AccountsFile) (roles : RolesFile) (policy : AccountPolicy)
    → Holds (λ _. Valid lower users roles policy) (validate_accounts lower users roles policy)
unfolding validate_accounts
validate_accounts-Valid lower users roles policy =
    Holds-guard
      (eq_ℤ users.version policy.schema_version && eq_ℤ roles.version policy.schema_version) _ _
      (λ version.
        Holds->>= _ (check_roles-RolesOk policy.known_capability [] roles.roles)
          (λ known ((fresh, same), fine). Holds-guard (has administrator known) _ _ (λ admin.
            Holds->>= _ (check_accounts-TookAccounts lower known users.accounts unseen)
              (λ s (accounts, ids, names, count, all).
                Holds-test (not (ltb 0 (length users.accounts) && s.admins == 0)) _ (λ last.
                  record {
                    same_version = version;
                    distinct_roles = fresh;
                    roles_ok = fine;
                    has_administrator = ground (
                      arith,
                      has-push_all administrator (role_ids roles.roles) [],
                      ap (has administrator) same,
                      admin,
                    );
                    distinct_accounts = accounts.0;
                    distinct_identities = ids.0;
                    distinct_usernames = names.0;
                    accounts_ok =
                        AccountOk-roles roles.roles users.accounts
                          (subst (λ k. All (AccountOk k) users.accounts) same all);
                    administered = administers users.accounts s.admins count last;
                  })))))
