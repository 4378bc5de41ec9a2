-- ===== src/Auth/Edits/Recovery.antt =====
-- What consuming a recovery code does to the accounts: it takes one saved hash, and validation does
-- not read those.
use gantry_core.Base.{
  ◌≡◌, refl, ap, ◌∙◌, ℕ, suc, ◌+◌, Bool, true, false, String, Option, none, some, List, [], ◌∷◌,
  str_eq, if◌then◌else◌, not, ◌||◌, has, arith, Bool-cases, inl, inr,
}
use gantry_core.Base.Text.{trim_space}
use gantry_core.Base.Result.{ok, ◌>>=◌, guard, >>=-same}
use gantry_core.Auth.Accounts.{
  Identity, Account, account_id, display_name_missing, Seen, check_account, check_account_roles,
  check_accounts, check_identity, check_identities, check_type, check_password, check_google,
  check_email_identity, check_email, count_admin, enabled_password,
}
use gantry_core.Auth.Edits.{consume_accounts, consume_identities, consume_hash}
use gantry_core.Auth.Edits.Lengths.{Given}

-- How often a hash is saved in a list, in the identities of one id, in the accounts of one id.
abbrev pub count_hash : String → List String → ℕ
count_hash hash [] = 0
count_hash hash (saved ∷ rest) = (if str_eq saved hash then 1 else 0) + count_hash hash rest

abbrev pub count_identities : String → String → List Identity → ℕ
count_identities id hash [] = 0
count_identities id hash (i ∷ is) =
    (if str_eq i.id id then count_hash hash i.recovery_code_hashes else 0)
    + count_identities id hash is

abbrev pub count_codes : String → String → String → List Account → ℕ
count_codes account id hash [] = 0
count_codes account id hash (a ∷ rest) =
    (if str_eq a.id account then count_identities id hash a.identities else 0)
    + count_codes account id hash rest

-- The number of codes falls by one, or there was none.
abbrev pub Falls {ℓ} : {A : Type ℓ} → (A → ℕ) → ℕ → Option A → Type 0
Falls count before none = before ≡ 0
Falls count before (some a) = before ≡ suc (count a)

-- The fall happens in the rest of a list, where the head has none.
Falls-later :
    {A : Type 0} (count : List A → ℕ) (x : A) (n before : ℕ)
    → n ≡ 0
    → ((ys : List A) → count (x ∷ ys) ≡ n + count ys)
    → (o : Option (List A)) → Falls count before o
    → Falls count (n + before) (elim o [ none ↦ none | some ys ↦ some (x ∷ ys) ])
Falls-later count x n before zeros split none h = omega (arith, zeros, h)
Falls-later count x n before zeros split (some ys) h = omega (arith, h, split ys)

consume_hash-Falls :
    (hash : String) (xs : List String)
    → Falls (count_hash hash) (count_hash hash xs) (consume_hash hash xs)
unfolding consume_hash
consume_hash-Falls hash [] = refl
consume_hash-Falls hash (x ∷ xs) = elim (Bool-cases (str_eq x hash)) [
  | inl e ↦ rw e (omega arith)
  | inr e ↦
      let rest =
        Falls-later (count_hash hash) x (if str_eq x hash then 1 else 0) (count_hash hash xs)
          (ground (arith, e)) (λ ys. refl) (consume_hash hash xs) (consume_hash-Falls hash xs) in
      rw e (rw e at rest)
]

-- The head's own codes fall, or it has none and the rest's do.
Falls-here :
    {A B : Type 0} (count : List A → ℕ) (part : B → ℕ) (put : B → A) (x : A) (xs : List A) (n : ℕ)
    → count (x ∷ xs) ≡ n + count xs
    → ((ys : List A) → count (x ∷ ys) ≡ n + count ys)
    → ((b : B) → count (put b ∷ xs) ≡ part b + count xs)
    → (here : Option B) → Falls part n here
    → (later : Option (List A)) → Falls count (count xs) later
    → Falls count (count (x ∷ xs)) (elim here [
      | some b ↦ some (put b ∷ xs)
      | none ↦ elim later [ none ↦ none | some ys ↦ some (x ∷ ys) ]
    ])
Falls-here count part put x xs n same split placed (some b) h later g =
    omega (arith, same, h, placed b)
Falls-here count part put x xs n same split placed none h none g = omega (arith, same, h, g)
Falls-here count part put x xs n same split placed none h (some ys) g =
    omega (arith, same, h, g, split ys)

Falls-if :
    {A : Type 0} (b : Bool) (count : A → ℕ) (before : ℕ) (o : Option A)
    → Falls count before o
    → Falls (λ x. if b then count x else 0) (if b then before else 0) (if b then o else none)
Falls-if true count before o h = h
Falls-if false count before o h = refl

consume_identities-Falls :
    (id hash : String) (is : List Identity)
    → Falls (count_identities id hash) (count_identities id hash is) (consume_identities id hash is)
unfolding consume_identities
consume_identities-Falls id hash [] = refl
consume_identities-Falls id hash (i ∷ is) =
    Falls-here (count_identities id hash)
      (λ hashes. if str_eq i.id id then count_hash hash hashes else 0)
      (λ hashes. record i { recovery_code_hashes = hashes }) i is
      (if str_eq i.id id then count_hash hash i.recovery_code_hashes else 0) refl (λ ys. refl)
      (λ b. refl) (if str_eq i.id id then consume_hash hash i.recovery_code_hashes else none)
      (Falls-if (str_eq i.id id) (count_hash hash) (count_hash hash i.recovery_code_hashes)
        (consume_hash hash i.recovery_code_hashes) (consume_hash-Falls hash i.recovery_code_hashes))
      (consume_identities id hash is) (consume_identities-Falls id hash is)

-- One saved copy of the hash goes, or there was none.
pub consume_accounts-Falls :
    (account id hash : String) (rest : List Account)
    → Falls
        (count_codes account id hash)
        (count_codes account id hash rest)
        (consume_accounts account id hash rest)
unfolding consume_accounts
consume_accounts-Falls account id hash [] = refl
consume_accounts-Falls account id hash (a ∷ rest) =
    Falls-here (count_codes account id hash)
      (λ is. if str_eq a.id account then count_identities id hash is else 0)
      (λ is. record a { identities = is }) a rest
      (if str_eq a.id account then count_identities id hash a.identities else 0) refl (λ ys. refl)
      (λ b. refl) (if str_eq a.id account then consume_identities id hash a.identities else none)
      (Falls-if (str_eq a.id account) (count_identities id hash)
        (count_identities id hash a.identities) (consume_identities id hash a.identities)
        (consume_identities-Falls id hash a.identities))
      (consume_accounts account id hash rest) (consume_accounts-Falls account id hash rest)

-- Validation of the identities is the same before and after.
SameIdentities : (String → String) → List Identity → List Identity → Type 0
SameIdentities lower is js =
    ((s : Seen) → check_identities lower js s ≡ check_identities lower is s)
    × (enabled_password js ≡ enabled_password is)

check_identity-hashes :
    (lower : String → String) (i : Identity) (hashes : List String) (s : Seen)
    → check_identity lower (record i { recovery_code_hashes = hashes }) s ≡ check_identity lower i s
unfolding check_identity check_type check_password check_google check_email_identity check_email
check_identity-hashes lower i hashes s = refl

consume_identities-Same :
    (lower : String → String) (id hash : String) (is : List Identity)
    → Given (SameIdentities lower is) (consume_identities id hash is)
unfolding consume_identities SameIdentities check_identities enabled_password
consume_identities-Same lower id hash [] = tt
consume_identities-Same lower id hash (i ∷ is) =
    placed (if str_eq i.id id then consume_hash hash i.recovery_code_hashes else none)
      (consume_identities id hash is) (consume_identities-Same lower id hash is)
  where
    placed :
        (here : Option (List String)) (later : Option (List Identity))
        → Given (SameIdentities lower is) later
        → Given (SameIdentities lower (i ∷ is)) (elim here [
          | some hashes ↦ some (record i { recovery_code_hashes = hashes } ∷ is)
          | none ↦ elim later [ none ↦ none | some is' ↦ some (i ∷ is') ]
        ])
    placed (some hashes) later h = (λ s. rw (check_identity-hashes lower i hashes s) refl, refl)
    placed none none h = tt
    placed none (some is') (same, enabled) = (
      λ s.
          >>=-same (check_identity lower i s) (check_identities lower is')
            (check_identities lower is) same,
      rw enabled refl,
    )

check_account-identities :
    (lower : String → String) (known : List String) (a : Account) (is : List Identity)
    → SameIdentities lower a.identities is
    → (s : Seen)
    → check_account lower known (record a { identities = is }) s ≡ check_account lower known a s
unfolding check_account SameIdentities count_admin
check_account-identities lower known a is (same, enabled) s =
    >>=-same (guard (not (str_eq a.id "" || has a.id s.account_ids)) (account_id a.id)) _ _ (λ u.
      >>=-same (guard (not (str_eq (trim_space a.display_name) "")) (display_name_missing a.id)) _ _
        (λ v. >>=-same (check_account_roles known a.id false a.roles) _ _ (λ admin.
          ap (λ r. r >>= λ t. ok (count_admin (record a { identities = is }) admin t))
            (same (record s { account_ids = a.id ∷ s.account_ids }))
          ∙ >>=-same
              (check_identities lower a.identities
                (record s { account_ids = a.id ∷ s.account_ids }))
              _ _ (λ t. rw enabled refl))))

-- Validation does not see that a recovery code was consumed.
pub check_accounts-consume_accounts :
    (lower : String → String) (known : List String) (account id hash : String) (rest : List Account)
    → Given
        (λ rest'.
          (s : Seen) → check_accounts lower known rest' s ≡ check_accounts lower known rest s)
        (consume_accounts account id hash rest)
unfolding consume_accounts check_accounts
check_accounts-consume_accounts lower known account id hash [] = tt
check_accounts-consume_accounts lower known account id hash (a ∷ rest) =
    placed (if str_eq a.id account then consume_identities id hash a.identities else none)
      (ident (str_eq a.id account)) (consume_accounts account id hash rest)
      (check_accounts-consume_accounts lower known account id hash rest)
  where
    ident :
        (b : Bool)
        → Given
            (SameIdentities lower a.identities)
            (if b then consume_identities id hash a.identities else none)
    ident true = consume_identities-Same lower id hash a.identities
    ident false = tt

    placed :
        (here : Option (List Identity))
        → Given (SameIdentities lower a.identities) here
        → (later : Option (List Account))
        → Given
            (λ rest'.
              (s : Seen) → check_accounts lower known rest' s ≡ check_accounts lower known rest s)
            later
        → Given
            (λ rest'.
              (s : Seen)
              → check_accounts lower known rest' s ≡ check_accounts lower known (a ∷ rest) s)
            (elim here [
              | some is ↦ some (record a { identities = is } ∷ rest)
              | none ↦ elim later [ none ↦ none | some rest' ↦ some (a ∷ rest') ]
            ])
    placed (some is) same later h = λ s. rw (check_account-identities lower known a is same s) refl
    placed none same none h = tt
    placed none same (some rest') h = λ s.
        >>=-same (check_account lower known a s) (check_accounts lower known rest')
          (check_accounts lower known rest) h
