-- ===== src/Auth/Edits.antt =====
-- The loops over accounts and identities inside the operations of the model (auth/model.go). Each
-- gives the changed list, and whether an element was found.
pub mod Lengths
pub mod Recovery
use gantry_core.Base.{
  Bool, true, false, ◌&&◌, ◌||◌, not, String, Option, none, some, List, [], ◌∷◌, str_eq,
  if◌then◌else◌, ℕ, ◌+◌, ltb,
}
use gantry_core.Base.Result.{Result, ok, err, ◌>>=◌}
use gantry_core.Auth.Accounts.{Identity, Account, Role, Error}

-- `for index := range next.Accounts { if … { …; found = true; break } }`
unfoldable pub update_first : String → (Account → Account) → List Account → Option (List Account)
update_first id f [] = none
update_first id f (a ∷ rest) =
    let later = update_first id f rest in
    if str_eq a.id id
    then some (f a ∷ rest)
    else elim later [ none ↦ none | some rest' ↦ some (a ∷ rest') ]

-- The loop over one account's identities, which changes every match and may return an error.
unfoldable pub edit_identities :
    (Identity → Bool)
    → (Identity → Result Error Identity)
    → List Identity
    → Result Error (List Identity × Bool)
edit_identities matches f [] = ok ([], false)
edit_identities matches f (i ∷ is) =
    let rest = edit_identities matches f is in
    if matches i
    then (f i >>= λ j. rest >>= λ (js, found). ok (j ∷ js, true))
    else rest >>= λ (js, found). ok (i ∷ js, found)

-- The loop over the accounts of this id, none skipped.
unfoldable pub edit_accounts :
    String
    → (Identity → Bool)
    → (Identity → Result Error Identity)
    → List Account
    → Result Error (List Account × Bool)
unfolding edit_identities
edit_accounts id matches f [] = ok ([], false)
edit_accounts id matches f (a ∷ rest) =
    let later = edit_accounts id matches f rest in
    if str_eq a.id id
    then (edit_identities matches f a.identities >>= λ (is, found).
        later >>= λ (rest', found'). ok (record a { identities = is } ∷ rest', found || found'))
    else later >>= λ (rest', found'). ok (a ∷ rest', found')

-- The first saved hash that equals the given one goes.
unfoldable pub consume_hash : String → List String → Option (List String)
consume_hash hash [] = none
consume_hash hash (saved ∷ rest) =
    let later = consume_hash hash rest in
    if str_eq saved hash
    then some rest
    else elim later [ none ↦ none | some rest' ↦ some (saved ∷ rest') ]

unfoldable pub consume_identities : String → String → List Identity → Option (List Identity)
unfolding consume_hash
consume_identities id hash [] = none
consume_identities id hash (i ∷ is) =
    let here = if str_eq i.id id then consume_hash hash i.recovery_code_hashes else none in
    let later = consume_identities id hash is in
    elim here [
      | some hashes ↦ some (record i { recovery_code_hashes = hashes } ∷ is)
      | none ↦ elim later [ none ↦ none | some is' ↦ some (i ∷ is') ]
    ]

-- The three loops of `ConsumeRecoveryCode`.
unfoldable pub consume_accounts : String → String → String → List Account → Option (List Account)
unfolding consume_identities
consume_accounts account id hash [] = none
consume_accounts account id hash (a ∷ rest) =
    let here = if str_eq a.id account then consume_identities id hash a.identities else none in
    let later = consume_accounts account id hash rest in
    elim here [
      | some is ↦ some (record a { identities = is } ∷ rest)
      | none ↦ elim later [ none ↦ none | some rest' ↦ some (a ∷ rest') ]
    ]

abbrev pub login_capable : Identity → Bool
login_capable i = str_eq i.type "password" || str_eq i.type "google"

unfoldable pub count_login : List Identity → ℕ
count_login [] = 0
count_login (i ∷ is) = (if login_capable i then 1 else 0) + count_login is

-- The identity of the largest index with this id, and the list without it.
unfoldable pub take_last : String → List Identity → Option (Identity × List Identity)
take_last id [] = none
take_last id (i ∷ is) =
    let later = take_last id is in
    elim later [
      | some (removed, rest) ↦ some (removed, i ∷ rest)
      | none ↦ if str_eq i.id id then some (i, is) else none
    ]

-- The body of `RemoveIdentity` for the account it found.
unfoldable pub remove_from : String → Account → Result Error (Identity × Account)
unfolding count_login take_last
remove_from id a = elim (take_last id a.identities) [
  | none ↦ err Error.identity_not_found
  | some (removed, rest) ↦
      if login_capable removed && not (ltb 1 (count_login a.identities))
      then err Error.last_login_identity
      else ok (removed, record a { identities = rest })
]

unfoldable pub remove_identity_of :
    String → String → List Account → Result Error (Identity × List Account)
unfolding remove_from
remove_identity_of account id [] = err Error.account_not_found
remove_identity_of account id (a ∷ rest) =
    let later = remove_identity_of account id rest in
    if str_eq a.id account
    then (remove_from id a >>= λ (removed, a'). ok (removed, a' ∷ rest))
    else later >>= λ (removed, rest'). ok (removed, a ∷ rest')

-- The first account of this id goes; its identities are reported.
unfoldable pub delete_first : String → List Account → Option (List Identity × List Account)
delete_first id [] = none
delete_first id (a ∷ rest) =
    let later = delete_first id rest in
    if str_eq a.id id
    then some (a.identities, rest)
    else elim later [ none ↦ none | some (is, rest') ↦ some (is, a ∷ rest') ]

-- The loop of `SetRole`, and the append when no role was found.
unfoldable pub upsert_role : Role → List Role → List Role
upsert_role new [] = new ∷ []
upsert_role new (r ∷ rs) =
    let later = upsert_role new rs in
    if str_eq r.id new.id
    then record r { name = new.name; capabilities = new.capabilities } ∷ rs
    else r ∷ later
