-- ===== src/Auth/Edits/Lengths.antt =====
-- The edits inside an account leave the number of accounts; no edit but a deletion makes it smaller.
use gantry_core.Base.{
  ◌≡◌, refl, ap, suc, Bool, String, Option, none, some, List, [], ◌∷◌, str_eq, if◌then◌else◌,
  length, Bool-cases, inl, inr,
}
use gantry_core.Base.Result.{Result, ok, err, Holds, failed, holds, Holds->>=, Holds-if}
use gantry_core.Auth.Accounts.{Identity, Account, Error}
use gantry_core.Auth.Edits.{
  update_first, edit_identities, edit_accounts, consume_accounts, remove_identity_of,
  consume_identities, remove_from,
}

-- What holds of the value of an option, if it has one.
abbrev pub Given {ℓ κ} : {A : Type ℓ} → (A → Type κ) → Option A → Type κ
Given P none = Unit
Given P (some a) = P a

-- A list that grows at the same place as its rest.
Given-later :
    {A : Type 0} (x : A) (xs : List A) (o : Option (List A))
    → Given (λ ys. length ys ≡ length xs) o
    → Given (λ ys. length ys ≡ suc (length xs)) (elim o [ none ↦ none | some ys ↦ some (x ∷ ys) ])
Given-later x xs none h = tt
Given-later x xs (some ys) h = ap suc h

pub length-update_first :
    (id : String) (f : Account → Account) (xs : List Account)
    → Given (λ ys. length ys ≡ length xs) (update_first id f xs)
unfolding update_first
length-update_first id f [] = tt
length-update_first id f (a ∷ rest) = elim (Bool-cases (str_eq a.id id)) [
  | inl e ↦ rw e refl
  | inr e ↦ rw e (Given-later a rest (update_first id f rest) (length-update_first id f rest))
]

-- Of any result at all.
always : {A : Type 0} (r : Result Error A) → Holds (λ (_ : A). Unit {0}) r
always (ok a) = holds tt
always (err e) = failed

pub length-edit_accounts :
    (id : String) (matches : Identity → Bool) (f : Identity → Result Error Identity)
    (xs : List Account)
    → Holds (λ (ys, found). length ys ≡ length xs) (edit_accounts id matches f xs)
unfolding edit_accounts
length-edit_accounts id matches f [] = holds refl
length-edit_accounts id matches f (a ∷ rest) =
    let later = length-edit_accounts id matches f rest in
    Holds-if (str_eq a.id id) _ _
      (λ e.
        Holds->>= _ (always (edit_identities matches f a.identities))
          (λ found u. Holds->>= _ later (λ ys h. holds (ap suc h))))
      (λ e. Holds->>= _ later (λ ys h. holds (ap suc h)))

consumed :
    (a : Account) (rest : List Account) (here : Option (List Identity))
    (later : Option (List Account))
    → Given (λ ys. length ys ≡ length rest) later
    → Given
        (λ ys. length ys ≡ suc (length rest))
        (elim here [
          | some is ↦ some (record a { identities = is } ∷ rest)
          | none ↦ elim later [ none ↦ none | some rest' ↦ some (a ∷ rest') ]
        ])
consumed a rest (some is) later h = refl
consumed a rest none later h = Given-later a rest later h

pub length-consume_accounts :
    (account id hash : String) (xs : List Account)
    → Given (λ ys. length ys ≡ length xs) (consume_accounts account id hash xs)
unfolding consume_accounts
length-consume_accounts account id hash [] = tt
length-consume_accounts account id hash (a ∷ rest) =
    consumed a rest (if str_eq a.id account then consume_identities id hash a.identities else none)
      (consume_accounts account id hash rest) (length-consume_accounts account id hash rest)

pub length-remove_identity_of :
    (account id : String) (xs : List Account)
    → Holds (λ (removed, ys). length ys ≡ length xs) (remove_identity_of account id xs)
unfolding remove_identity_of
length-remove_identity_of account id [] = failed
length-remove_identity_of account id (a ∷ rest) =
    let later = length-remove_identity_of account id rest in
    Holds-if (str_eq a.id account) _ _
      (λ e. Holds->>= _ (always (remove_from id a)) (λ found u. holds refl))
      (λ e. Holds->>= _ later (λ ys h. holds (ap suc h)))
