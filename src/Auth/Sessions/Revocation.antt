-- ===== src/Auth/Sessions/Revocation.antt =====
-- What a revocation leaves of the sessions.
use gantry_core.Base.{
  ◌≡◌, refl, sym, ap, subst, ◌∙◌, ◌⊎◌, inl, inr, Bool, true, false, not, ◌&&◌, if◌then◌else◌,
  Bool-cases, String, none, List, [], ◌∷◌, str_eq, eq_iff, eq_refl, has, arith, Assoc, lookup,
  remove, lookup-remove,
}
use gantry_core.Auth.Sessions.{
  Session, SessionStore, keys, dropped, purge, purge_all, save_locked, revoke_account,
  revoke_identity_except,
}

module _ {ℓ} {V : Type ℓ} (d : String → V → Bool) where
  lookup-purge :
      (j : String) (ks : List String) (m : Assoc V)
      → lookup j (purge d ks m)
        ≡ (if has j ks && dropped d j (lookup j m) then none else lookup j m)
  unfolding purge
  lookup-purge j [] m = refl
  lookup-purge j (k ∷ ks) m = elim (Bool-cases (str_eq k j)) [
    | inl f ↦
        let same : k ≡ j = ground (arith, eq_iff k j, f) in
        rw f (
          subst
            (λ x.
              lookup j (if dropped d x (lookup x m) then remove x (purge d ks m) else purge d ks m)
              ≡ (if dropped d j (lookup j m) then none else lookup j m))
            (sym same)
            (at_key j ks m (lookup-purge j ks m) (Bool-cases (dropped d j (lookup j m)))))
    | inr f ↦ rw f (elsewhere k j (dropped d k (lookup k m)) (purge d ks m) f ∙ lookup-purge j ks m)
  ]
    where
      elsewhere :
          (k j : String) (b : Bool) (rest : Assoc V)
          → str_eq k j ≡ false
          → lookup j (if b then remove k rest else rest) ≡ lookup j rest
      elsewhere k j true rest f = lookup-remove k j rest ∙ rw f refl
      elsewhere k j false rest f = refl

      at_key :
          (j : String) (ks : List String) (m : Assoc V)
          → lookup j (purge d ks m)
            ≡ (if has j ks && dropped d j (lookup j m) then none else lookup j m)
          → (dropped d j (lookup j m) ≡ true) ⊎ (dropped d j (lookup j m) ≡ false)
          → lookup j (if dropped d j (lookup j m) then remove j (purge d ks m) else purge d ks m)
            ≡ (if dropped d j (lookup j m) then none else lookup j m)
      at_key j ks m h (inl e) = rw e (lookup-remove j j (purge d ks m) ∙ rw (eq_refl j) refl)
      at_key j ks m h (inr e) = rw e (h ∙ rw e (ground arith))

  missing : (j : String) (m : Assoc V) → has j (keys m) ≡ false → lookup j m ≡ none
  unfolding lookup
  missing j [] h = refl
  missing j ((k, v) ∷ m) h =
      let away : str_eq k j ≡ false = ground (arith, h) in rw away (missing j m (ground (arith, h)))

  -- A key keeps what it had, unless the loop drops that.
  pub lookup-purge_all :
      (j : String) (m : Assoc V)
      → lookup j (purge_all d m) ≡ (if dropped d j (lookup j m) then none else lookup j m)
  lookup-purge_all j m = lookup-purge j (keys m) m ∙ elim (Bool-cases (has j (keys m))) [
    | inl e ↦ rw e refl
    | inr e ↦ rw (e, missing j m e) refl
  ]

pub sessions-save_locked :
    (saved : Bool) (s : SessionStore) → (save_locked saved s).sessions ≡ s.sessions
unfolding save_locked
sessions-save_locked true s = refl
sessions-save_locked false s = refl

-- Revoking an account ends its sessions, and leaves every other session as it was.
pub lookup-revoke_account :
    (account : String) (saved : Bool) (id : String) (s : SessionStore)
    → lookup id (revoke_account account saved s).sessions ≡ (
        if dropped (λ i (x : Session). str_eq x.account_id account) id (lookup id s.sessions)
        then none
        else lookup id s.sessions)
unfolding revoke_account
lookup-revoke_account account saved id s =
    ap (lookup id) (sessions-save_locked saved _)
    ∙ lookup-purge_all (λ i (x : Session). str_eq x.account_id account) id s.sessions

-- Revoking an identity but for one session ends its sessions other than that one, and leaves the rest.
pub lookup-revoke_identity_except :
    (identity kept : String) (saved : Bool) (id : String) (s : SessionStore)
    → lookup id (revoke_identity_except identity kept saved s).sessions ≡ (
        if dropped
          (λ i (x : Session). str_eq x.identity_id identity && not (str_eq i kept))
          id
          (lookup id s.sessions)
        then none
        else lookup id s.sessions)
unfolding revoke_identity_except
lookup-revoke_identity_except identity kept saved id s =
    ap (lookup id) (sessions-save_locked saved _)
    ∙ lookup-purge_all (λ i (x : Session). str_eq x.identity_id identity && not (str_eq i kept)) id
        s.sessions
