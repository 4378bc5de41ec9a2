-- ===== src/Auth/Sessions/Keys.antt =====
-- The keys of a map that changes.
use gantry_core.Base.{
  ◌≡◌, refl, ap, subst, ◌∙◌, inl, inr, Bool, false, ◌||◌, Bool-cases, String, List, [], ◌∷◌, str_eq,
  eq_iff, has, Once, arith, Assoc, lookup, insert, remove,
}
use gantry_core.Auth.Sessions.{keys, dropped, purge}

module _ {ℓ} {V : Type ℓ} where
  pub has-keys-remove :
      (j k : String) (m : Assoc V) → has j (keys m) ≡ false → has j (keys (remove k m)) ≡ false
  unfolding remove
  has-keys-remove j k [] h = refl
  has-keys-remove j k ((i, v) ∷ m) h = ground (arith, has-keys-remove j k m, h)

  pub remove-Once : (k : String) (m : Assoc V) → Once (keys m) → Once (keys (remove k m))
  unfolding remove
  remove-Once k [] once = tt
  remove-Once k ((i, v) ∷ m) (own, once) = elim (Bool-cases (str_eq i k)) [
    | inl e ↦ rw e (remove-Once k m once)
    | inr e ↦ rw e (has-keys-remove i k m own, remove-Once k m once)
  ]

  pub remove-missing : (k : String) (m : Assoc V) → has k (keys m) ≡ false → remove k m ≡ m
  unfolding remove
  remove-missing k [] h = refl
  remove-missing k ((i, v) ∷ m) h =
      let away : str_eq i k ≡ false = ground (arith, h) in
      rw away (ap (λ l. (i, v) ∷ l) (remove-missing k m (ground (arith, h))))

  pub has-keys-insert :
      (j k : String) (v : V) (m : Assoc V)
      → has j (keys (insert k v m)) ≡ (str_eq k j || has j (keys m))
  unfolding insert
  has-keys-insert j k v [] = refl
  has-keys-insert j k v ((i, w) ∷ m) =
      ground (arith, has-keys-insert j k v m, eq_iff i k, eq_iff i j, eq_iff k j)

  pub insert-Once : (k : String) (v : V) (m : Assoc V) → Once (keys m) → Once (keys (insert k v m))
  unfolding insert
  insert-Once k v [] once = (refl, tt)
  insert-Once k v ((i, w) ∷ m) (own, once) = elim (Bool-cases (str_eq i k)) [
    | inl e ↦ rw e (subst (λ x. has x (keys m) ≡ false) ((eq_iff i k).0 e) own, once)
    | inr e ↦ rw e (
      has-keys-insert i k v m ∙ ground (arith, own, e, eq_iff i k, eq_iff k i),
      insert-Once k v m once,
    )
  ]

  pub purge-Once :
      (d : String → V → Bool) (ks : List String) (m : Assoc V)
      → Once (keys m)
      → Once (keys (purge d ks m))
  unfolding purge
  purge-Once d [] m once = once
  purge-Once d (k ∷ ks) m once = elim (Bool-cases (dropped d k (lookup k m))) [
    | inl e ↦ rw e (remove-Once k (purge d ks m) (purge-Once d ks m once))
    | inr e ↦ rw e (purge-Once d ks m once)
  ]
