-- ===== src/Auth/Sessions/Capped.antt =====
-- How many sessions an account has after a login.
use gantry_core.Base.{
  ◌≡◌, refl, sym, ap, subst, ◌∙◌, inl, inr, ℕ, suc, ◌≤◌, Bool, true, false, Bool-cases, ltb, leb,
  length, String, List, [], ◌∷◌, str_eq, eq_iff, has, Once, All, arith, Assoc, lookup, insert,
  remove, lookup-remove, lookup-insert, lookup-insert_self,
}
use gantry_core.Base.Sort.{sort_by}
use gantry_core.Auth.Sessions.{
  Session, SessionStore, Candidate, keys, dropped, purge_all, owned, evict, create_session,
}
use gantry_core.Auth.Sessions.Keys.{remove-Once, insert-Once, purge-Once}
use gantry_core.Auth.Sessions.Owned.{
  count, ids, is_of, Owns, owned-Owns, owned-missing, owned-Once, length-owned, count-remove,
  count-insert,
}
use gantry_core.Auth.Sessions.Sorted.{has-sort_by-ids, sort_by-Once, sort_by-All, length-sort_by}
use gantry_core.Auth.Sessions.Revocation.{sessions-save_locked, lookup-purge_all}

still-Owns :
    (account id : String) (m : Assoc Session) (cs : List Candidate)
    → has id (ids cs) ≡ false
    → All (Owns account m) cs
    → All (Owns account (remove id m)) cs
still-Owns account id m [] h all = tt
still-Owns account id m (c ∷ cs) h (own, all) =
    let away : str_eq id c.0 ≡ false = ground (arith, h, eq_iff id c.0, eq_iff c.0 id) in
    (
      ap (is_of account) (lookup-remove id c.0 m ∙ rw away refl) ∙ own,
      still-Owns account id m cs (ground (arith, h)) all,
    )

-- The eviction leaves room for one more session of the account.
evict-room :
    (account : String) (max : ℕ) (cs : List Candidate) (m : Assoc Session)
    → 1 ≤ max
    → Once (keys m)
    → Once (ids cs)
    → All (Owns account m) cs
    → length cs ≡ count account m
    → suc (count account (evict max cs m)) ≤ max
unfolding evict
evict-room account max [] m some_room once listed all same = omega (arith, same, some_room)
evict-room account max (c ∷ cs) m some_room once (own, listed) (owns, all) same =
    elim (Bool-cases (leb max (suc (length cs)))) [
      | inl e ↦
          let fewer = count-remove account c.0 m once owns in
          rw e (
            evict-room account max cs (remove c.0 m) some_room (remove-Once c.0 m once) listed
              (still-Owns account c.0 m cs own all) (omega (arith, same, fewer)))
      | inr e ↦ rw e (ground (arith, same, e))
    ]

lookup-evict :
    (j : String) (max : ℕ) (cs : List Candidate) (m : Assoc Session)
    → has j (ids cs) ≡ false
    → lookup j (evict max cs m) ≡ lookup j m
unfolding evict
lookup-evict j max [] m h = refl
lookup-evict j max (c ∷ cs) m h = elim (Bool-cases (leb max (suc (length cs)))) [
  | inl e ↦
      let away : str_eq c.0 j ≡ false = ground (arith, h) in
      rw e (
        lookup-evict j max cs (remove c.0 m) (ground (arith, h))
        ∙ lookup-remove c.0 j m
        ∙ rw away refl)
  | inr e ↦ rw e refl
]

evict-Once :
    (max : ℕ) (cs : List Candidate) (m : Assoc Session)
    → Once (keys m)
    → Once (keys (evict max cs m))
unfolding evict
evict-Once max [] m once = once
evict-Once max (c ∷ cs) m once = elim (Bool-cases (leb max (suc (length cs)))) [
  | inl e ↦ rw e (evict-Once max cs (remove c.0 m) (remove-Once c.0 m once))
  | inr e ↦ rw e once
]

-- What the sessions are before the new one is stored.
abbrev live_at : ℕ → SessionStore → Assoc Session
live_at now s = purge_all (λ id c. ltb c.expires now) s.sessions

abbrev by_age : Candidate → Candidate → Bool
by_age x y = leb x.1 y.1

abbrev candidates : String → ℕ → SessionStore → List Candidate
candidates account now s = sort_by by_age (owned account (keys (live_at now s)) (live_at now s))

abbrev room_for : String → ℕ → SessionStore → Assoc Session
room_for account now s =
    evict s.options.max_sessions_per_account (candidates account now s) (live_at now s)

module _ (session_id csrf ip agent : String) (now : ℕ) (account identity : String) (saved : Bool)
    (s : SessionStore) where
  -- What is said of the sessions after the login.
  abbrev pub Capped : Assoc Session → Type 0
  Capped m =
      (count account m ≤ s.options.max_sessions_per_account)
      × (is_of account (lookup session_id m) ≡ true)
      × ((id : String)
          → str_eq session_id id ≡ false
          → is_of account (lookup id s.sessions) ≡ false
          → dropped (λ i (c : Session). ltb c.expires now) id (lookup id s.sessions) ≡ false
          → lookup id m ≡ lookup id s.sessions)
      × Once (keys m)

  room_for-capped :
      1 ≤ s.options.max_sessions_per_account
      → Once (keys s.sessions)
      → suc (count account (room_for account now s)) ≤ s.options.max_sessions_per_account
  room_for-capped some_room once =
      let live = live_at now s in
      let listed = owned account (keys live) live in
      let live_once = purge-Once (λ id c. ltb c.expires now) (keys s.sessions) s.sessions once in
      evict-room account s.options.max_sessions_per_account (candidates account now s) live
        some_room live_once
        (sort_by-Once by_age listed (owned-Once account (keys live) live live_once))
        (sort_by-All (Owns account live) by_age listed (owned-Owns account (keys live) live))
        (length-sort_by by_age listed ∙ length-owned account live live_once)

  lookup-room_for :
      (id : String)
      → is_of account (lookup id s.sessions) ≡ false
      → dropped (λ i (c : Session). ltb c.expires now) id (lookup id s.sessions) ≡ false
      → lookup id (room_for account now s) ≡ lookup id s.sessions
  lookup-room_for id other unexpired =
      let live = live_at now s in
      let kept : lookup id live ≡ lookup id s.sessions =
        lookup-purge_all (λ i (c : Session). ltb c.expires now) id s.sessions ∙ rw unexpired refl in
      let listed = owned account (keys live) live in
      lookup-evict id s.options.max_sessions_per_account (candidates account now s) live (
        has-sort_by-ids by_age id listed
        ∙ owned-missing account id (keys live) live
            (ground (arith, ap (is_of account) kept ∙ other)))
      ∙ kept

  insert-Capped :
      (new : Session)
      → new.account_id ≡ account
      → 1 ≤ s.options.max_sessions_per_account
      → Once (keys s.sessions)
      → Capped (insert session_id new (room_for account now s))
  insert-Capped new own some_room once =
      let room = room_for account now s in
      (
        omega (arith, count-insert account session_id new room, room_for-capped some_room once),
        ap (is_of account) (lookup-insert_self session_id new room)
            ∙ ground (arith, eq_iff new.account_id account, own),
        λ id other not_own unexpired.
            lookup-insert session_id id new room ∙ rw other (lookup-room_for id not_own unexpired),
        insert-Once session_id new room (
            evict-Once s.options.max_sessions_per_account (candidates account now s) (live_at now s)
              (purge-Once (λ id c. ltb c.expires now) (keys s.sessions) s.sessions once)),
      )

  -- After a login the account has at most as many sessions as the options allow, the new one among
  -- them, whether or not it could be saved. Every session of another account that has not expired is
  -- as it was, unless the new one has its id, and no id occurs twice.
  pub create_session-Capped :
      1 ≤ s.options.max_sessions_per_account
      → Once (keys s.sessions)
      → Capped (create_session session_id csrf ip agent now account identity saved s).0.sessions
  unfolding create_session
  create_session-Capped some_room once =
      subst Capped (sym (sessions-save_locked saved _)) (insert-Capped _ refl some_room once)
