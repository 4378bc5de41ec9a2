-- ===== src/Auth/Sessions/Owned.antt =====
-- The sessions of an account that a login looks at.
use gantry_core.Base.{
  ◌≡◌, refl, sym, ap, subst, inl, inr, ℕ, suc, ◌+◌, ◌≤◌, Bool, true, false, ◌&&◌, if◌then◌else◌,
  Bool-cases, length, String, Option, none, some, List, [], ◌∷◌, str_eq, eq_iff, eq_refl, has, Once,
  All, arith, Assoc, lookup, insert, remove,
}
use gantry_core.Auth.Sessions.{Session, Candidate, keys, add_owned, owned}
use gantry_core.Auth.Sessions.Keys.{remove-missing}

abbrev pub count : String → Assoc Session → ℕ
count account [] = 0
count account ((id, s) ∷ m) = (if str_eq s.account_id account then 1 else 0) + count account m

abbrev pub ids : List Candidate → List String
ids [] = []
ids ((id, created) ∷ cs) = id ∷ ids cs

-- Whether the session at a key is of the account.
abbrev pub is_of : String → Option Session → Bool
is_of account none = false
is_of account (some s) = str_eq s.account_id account

abbrev pub Owns : String → Assoc Session → Candidate → Type 0
Owns account m c = is_of account (lookup c.0 m) ≡ true

pub add_owned-yes :
    (account k : String) (o : Option Session) (rest : List Candidate)
    → is_of account o ≡ true
    → (t : ℕ) × (add_owned account k o rest ≡ (k, t) ∷ rest)
unfolding add_owned
add_owned-yes account k none rest h = cc
add_owned-yes account k (some s) rest h = (s.created, rw h refl)

pub add_owned-no :
    (account k : String) (o : Option Session) (rest : List Candidate)
    → is_of account o ≡ false
    → add_owned account k o rest ≡ rest
unfolding add_owned
add_owned-no account k none rest h = refl
add_owned-no account k (some s) rest h = rw h refl

-- To prove something of the listed sessions: it holds of none, and a session of the account keeps it.
pub owned-by {ℓ} :
    (P : List String → List Candidate → Type ℓ) (account : String) (m : Assoc Session)
    → P [] []
    → ((k : String) (ks : List String) (t : ℕ) (cs : List Candidate)
        → is_of account (lookup k m) ≡ true
        → P ks cs
        → P (k ∷ ks) ((k, t) ∷ cs))
    → ((k : String) (ks : List String) (cs : List Candidate)
        → is_of account (lookup k m) ≡ false
        → P ks cs
        → P (k ∷ ks) cs)
    → (ks : List String) → P ks (owned account ks m)
unfolding owned
owned-by P account m none_yet yes_step no_step [] = none_yet
owned-by P account m none_yet yes_step no_step (k ∷ ks) =
    let before = owned-by P account m none_yet yes_step no_step ks in
    elim (Bool-cases (is_of account (lookup k m))) [
      | inl e ↦
          let (t, same) = add_owned-yes account k (lookup k m) (owned account ks m) e in
          subst (P (k ∷ ks)) (sym same) (yes_step k ks t _ e before)
      | inr e ↦
          subst (P (k ∷ ks)) (sym (add_owned-no account k (lookup k m) (owned account ks m) e))
            (no_step k ks _ e before)
    ]

pub owned-Owns :
    (account : String) (ks : List String) (m : Assoc Session)
    → All (Owns account m) (owned account ks m)
owned-Owns account ks m =
    owned-by (λ _ cs. All (Owns account m) cs) account m tt (λ k ks t cs e all. (e, all))
      (λ k ks cs e all. all) ks

-- A key that is not looked at, or whose session is another account's, is not listed.
pub owned-missing :
    (account j : String) (ks : List String) (m : Assoc Session)
    → (has j ks && is_of account (lookup j m)) ≡ false
    → has j (ids (owned account ks m)) ≡ false
owned-missing account j ks m =
    owned-by (λ ks cs. (has j ks && is_of account (lookup j m)) ≡ false → has j (ids cs) ≡ false)
      account m (λ h. refl)
      (λ k ks t cs e before h. elim (Bool-cases (str_eq k j)) [
        | inl f ↦
            let same = ap (λ x. is_of account (lookup x m)) ((eq_iff k j).0 f) in
            ground (arith, e, same, h, f)
        | inr f ↦ rw f (before (ground (arith, h, f)))
      ])
      (λ k ks cs e before h. before (ground (arith, h))) ks

pub owned-Once :
    (account : String) (ks : List String) (m : Assoc Session)
    → Once ks
    → Once (ids (owned account ks m))
owned-Once account ks m once =
    (owned-by
        (λ ks cs.
          (Once ks → Once (ids cs)) × ((j : String) → has j ks ≡ false → has j (ids cs) ≡ false))
        account m (λ h. tt, λ j h. refl)
        (λ k ks t cs e (listed, missing). (
          λ (own, rest). (missing k own, listed rest),
          λ j h. ground (arith, h, missing j (ground (arith, h))),
        ))
        (λ k ks cs e (listed, missing).
          (λ (own, rest). listed rest, λ j h. missing j (ground (arith, h))))
        ks).0
      once

pub owned-skip :
    (account k : String) (v : Session) (ks : List String) (m : Assoc Session)
    → has k ks ≡ false
    → owned account ks ((k, v) ∷ m) ≡ owned account ks m
unfolding owned lookup
owned-skip account k v [] m h = refl
owned-skip account k v (j ∷ ks) m h =
    let away : str_eq k j ≡ false = ground (arith, h, eq_iff k j, eq_iff j k) in
    rw away
      (ap (add_owned account j (lookup j m)) (owned-skip account k v ks m (ground (arith, h))))

pub length-owned :
    (account : String) (m : Assoc Session)
    → Once (keys m)
    → length (owned account (keys m) m) ≡ count account m
unfolding owned add_owned lookup
length-owned account [] once = refl
length-owned account ((k, v) ∷ m) (own, once) =
    rw (eq_refl k)
      (rw (owned-skip account k v (keys m) m own) (ground (arith, length-owned account m once)))

pub count-remove :
    (account k : String) (m : Assoc Session)
    → Once (keys m)
    → is_of account (lookup k m) ≡ true
    → count account m ≡ suc (count account (remove k m))
unfolding remove lookup
count-remove account k [] once h = cc
count-remove account k ((j, v) ∷ m) (own, once) h = elim (Bool-cases (str_eq j k)) [
  | inl e ↦
      let gone : remove k m ≡ m =
        remove-missing k m (subst (λ x. has x (keys m) ≡ false) ((eq_iff j k).0 e) own) in
      rw e (rw gone (ground (arith, rw e at h)))
  | inr e ↦ rw e (ground (arith, count-remove account k m once (rw e at h)))
]

pub count-insert :
    (account k : String) (v : Session) (m : Assoc Session)
    → count account (insert k v m) ≤ suc (count account m)
unfolding insert
count-insert account k v [] = ground arith
count-insert account k v ((j, w) ∷ m) = ground (arith, count-insert account k v m)
