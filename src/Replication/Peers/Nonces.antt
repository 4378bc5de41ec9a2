-- ===== src/Replication/Peers/Nonces.antt =====
-- The store of consumed nonces.
use gantry_core.Base.{
  ℕ, ◌+◌, ◌≤◌, ◌<◌, ◌≡◌, refl, ap, sym, subst, ◌∙◌, inl, inr, if◌then◌else◌, lt→ltb, Bool-cases,
  String, Option, none, some, [], ◌∷◌, str_eq, eq_iff, is_some, Assoc, lookup, insert,
  lookup-insert, lookup-insert_self, arith,
}
use gantry_core.Base.Result.{ok, err}
use gantry_core.Replication.Peers.{
  Authenticator, skew_window, prune, consume_from, consume_found, consume_nonce, nonce_replayed,
}

lookup-prune :
    (now exp : ℕ) (nonce : String) (seen : Assoc ℕ)
    → now ≤ exp
    → lookup nonce seen ≡ some exp
    → lookup nonce (prune now seen) ≡ some exp
unfolding lookup prune
lookup-prune now exp nonce [] le h = cc
lookup-prune now exp nonce ((n, e) ∷ seen) le h = ground (arith, lookup-prune now exp nonce seen le)

-- When the nonce of a node expires in the store.
expiry_in : String → Option (Assoc ℕ) → Option ℕ
unfolding lookup
expiry_in nonce none = none
expiry_in nonce (some seen) = lookup nonce seen

unfoldable pub expiry : String → String → Authenticator → Option ℕ
unfolding expiry_in lookup
expiry id nonce m = expiry_in nonce (lookup id m.seen)

expiry_held :
    (id nonce : String) (m : Authenticator) (exp : ℕ)
    → expiry id nonce m ≡ some exp
    → expiry_in nonce (lookup id m.seen) ≡ some exp
unfolding expiry
expiry_held id nonce m exp h = h

-- Another map stored for a node keeps the expiry, if that map has it where the node is the same.
stored-keeps :
    (id nonce at : String) (exp : ℕ) (m : Authenticator) (seen : Assoc ℕ)
    → expiry id nonce m ≡ some exp
    → (at ≡ id → lookup nonce seen ≡ some exp)
    → expiry id nonce (record m { seen = insert at seen m.seen }) ≡ some exp
unfolding expiry expiry_in
stored-keeps id nonce at exp m seen h own =
    ap (expiry_in nonce) (lookup-insert at id seen m.seen) ∙ split
  where
    split : expiry_in nonce (if str_eq at id then some seen else lookup id m.seen) ≡ some exp
    split = elim (Bool-cases (str_eq at id)) [
      | inl e ↦ rw e (own ((eq_iff at id).0 e))
      | inr e ↦ rw e h
    ]

consume_from-keeps :
    (id nonce at fresh : String) (now exp : ℕ) (m : Authenticator) (seen : Assoc ℕ)
    → expiry id nonce m ≡ some exp
    → (at ≡ id → lookup nonce seen ≡ some exp)
    → expiry id nonce (consume_from at fresh now m seen).0 ≡ some exp
unfolding consume_from
consume_from-keeps id nonce at fresh now exp m seen h own =
    elim (Bool-cases (is_some (lookup fresh seen))) [
      | inl e ↦ rw e (stored-keeps id nonce at exp m seen h own)
      | inr e ↦ rw e (
          stored-keeps id nonce at exp m (insert fresh (now + skew_window) seen) h (λ same. ground (
            arith,
            own same,
            eq_iff fresh nonce,
            lookup-insert fresh nonce (now + skew_window) seen,
          )))
    ]

consume_found-keeps :
    (id nonce at fresh : String) (now exp : ℕ) (m : Authenticator) (o : Option (Assoc ℕ))
    → now ≤ exp
    → expiry id nonce m ≡ some exp
    → (at ≡ id → expiry_in nonce o ≡ some exp)
    → expiry id nonce (consume_found at fresh now m o).0 ≡ some exp
unfolding consume_found expiry_in
consume_found-keeps id nonce at fresh now exp m none le h own =
    consume_from-keeps id nonce at fresh now exp m [] h (λ same. let e = own same in cc)
consume_found-keeps id nonce at fresh now exp m (some seen) le h own =
    consume_from-keeps id nonce at fresh now exp m (prune now seen) h
      (λ same. lookup-prune now exp nonce seen le (own same))

-- No attempt up to its expiry takes a nonce out of the store.
pub consume_nonce-keeps :
    (id nonce at fresh : String) (now exp : ℕ) (m : Authenticator)
    → now ≤ exp
    → expiry id nonce m ≡ some exp
    → expiry id nonce (consume_nonce at fresh now m).0 ≡ some exp
unfolding consume_nonce
consume_nonce-keeps id nonce at fresh now exp m le h =
    consume_found-keeps id nonce at fresh now exp m (lookup at m.seen) le h (λ same.
      subst (λ k. expiry_in nonce (lookup k m.seen) ≡ some exp) (sym same)
        (expiry_held id nonce m exp h))

pub consume_nonce-refused :
    (id nonce : String) (now exp : ℕ) (m : Authenticator)
    → now ≤ exp
    → expiry id nonce m ≡ some exp
    → (consume_nonce id nonce now m).1 ≡ err nonce_replayed
unfolding consume_nonce expiry consume_found consume_from expiry_in
consume_nonce-refused id nonce now exp m le h = refused (lookup id m.seen) h
  where
    refused :
        (o : Option (Assoc ℕ))
        → expiry_in nonce o ≡ some exp
        → (consume_found id nonce now m o).1 ≡ err nonce_replayed
    refused none e = cc
    refused (some seen) e = rw (lookup-prune now exp nonce seen le e) refl

-- An accepted nonce is stored until the window has passed.
pub consume_nonce-stores :
    (id nonce : String) (now : ℕ) (m : Authenticator)
    → (consume_nonce id nonce now m).1 ≡ ok tt
    → expiry id nonce (consume_nonce id nonce now m).0 ≡ some (now + skew_window)
unfolding consume_nonce consume_found consume_from expiry expiry_in
consume_nonce-stores id nonce now m h = stores (lookup id m.seen) h
  where
    from :
        (seen : Assoc ℕ)
        → (consume_from id nonce now m seen).1 ≡ ok tt
        → expiry id nonce (consume_from id nonce now m seen).0 ≡ some (now + skew_window)
    from seen e = elim (Bool-cases (is_some (lookup nonce seen))) [
      | inl t ↦ let e' : err nonce_replayed ≡ ok tt = rw t at e in cc
      | inr t ↦ rw t (
          ap (expiry_in nonce)
            (lookup-insert_self id (insert nonce (now + skew_window) seen) m.seen)
          ∙ lookup-insert_self nonce (now + skew_window) seen)
    ]

    stores :
        (o : Option (Assoc ℕ))
        → (consume_found id nonce now m o).1 ≡ ok tt
        → expiry id nonce (consume_found id nonce now m o).0 ≡ some (now + skew_window)
    stores none e = from [] e
    stores (some seen) e = from (prune now seen) e

-- The first nonce of a node.
abbrev pub first_seen : String → String → ℕ → Authenticator → Assoc (Assoc ℕ)
first_seen id nonce now m = insert id (insert nonce (now + skew_window) []) m.seen

pub consume_nonce-first :
    (id nonce : String) (now : ℕ) (m : Authenticator)
    → lookup id m.seen ≡ none
    → consume_nonce id nonce now m ≡ (record m { seen = first_seen id nonce now m }, ok tt)
unfolding consume_nonce consume_found consume_from lookup
consume_nonce-first id nonce now m h = rw h refl

pub consume_nonce-expired :
    (id nonce : String) (now later : ℕ) (m : Authenticator)
    → now + skew_window < later
    → (consume_nonce id nonce later (record m { seen = first_seen id nonce now m })).1 ≡ ok tt
unfolding consume_nonce consume_found consume_from prune lookup insert
consume_nonce-expired id nonce now later m passed =
    ap (λ o. (consume_found id nonce later (record m { seen = first_seen id nonce now m }) o).1)
      (lookup-insert_self id (insert nonce (now + skew_window) []) m.seen)
    ∙ pruned
  where
    pruned :
        (consume_found id nonce later
          (record m { seen = first_seen id nonce now m })
          (some (insert nonce (now + skew_window) []))).1
        ≡ ok tt
    pruned = rw (lt→ltb (now + skew_window) later passed) refl

lookup-prune-none :
    (now : ℕ) (nonce : String) (seen : Assoc ℕ)
    → lookup nonce seen ≡ none
    → lookup nonce (prune now seen) ≡ none
unfolding lookup prune
lookup-prune-none now nonce [] h = refl
lookup-prune-none now nonce ((n, e) ∷ seen) h = ground (arith, lookup-prune-none now nonce seen)

-- A nonce that is not in the store is accepted.
pub consume_nonce-new :
    (id nonce : String) (now : ℕ) (m : Authenticator)
    → expiry id nonce m ≡ none
    → (consume_nonce id nonce now m).1 ≡ ok tt
unfolding consume_nonce expiry expiry_in consume_found consume_from lookup
consume_nonce-new id nonce now m h = accepted (lookup id m.seen) h
  where
    accepted :
        (o : Option (Assoc ℕ))
        → expiry_in nonce o ≡ none
        → (consume_found id nonce now m o).1 ≡ ok tt
    accepted none e = refl
    accepted (some seen) e = rw (lookup-prune-none now nonce seen e) refl
