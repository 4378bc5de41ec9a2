-- ===== src/Auth/Sessions/Login.antt =====
-- What a request with a cookie, a challenge or a password gets.
use gantry_core.Base.{
  ℕ, ◌≡◌, refl, ap, ◌∙◌, inl, inr, Bool, true, false, not, ◌||◌, if◌then◌else◌, ltb, Bool-cases,
  String, Option, none, some, eq_iff, subst, arith, lookup, remove, lookup-remove_self,
}
use gantry_core.Auth.Sessions.Revocation.{sessions-save_locked}
use gantry_core.Auth.Sessions.{
  Session, SessionStore, Challenge, challenge_holds, admit_challenge, take_challenge, get,
  get_found, forget,
}

-- What is known of a challenge that is handed out.
abbrev Fits : String → ℕ → Option Challenge → Type 0
Fits ip now none = Unit
Fits ip now (some c) = (c.ip ≡ ip) × (ltb c.expires now ≡ false)

challenge_holds-Fits :
    (ip : String) (now : ℕ) (d : Challenge) → challenge_holds ip now d ≡ true → Fits ip now (some d)
unfolding challenge_holds
challenge_holds-Fits ip now d e = (ground (arith, eq_iff d.ip ip, e), ground (arith, e))

-- A challenge is taken once: the first attempt gets it only if it is there, has not expired and
-- comes from the address that began it, and whatever the first attempt got, the next gets nothing.
pub take_challenge-once :
    (ip ip' : String) (now later : ℕ) (id : String) (s : SessionStore)
    → ((c : Challenge)
        → (take_challenge ip now id s).1 ≡ some c
        → (lookup id s.challenges ≡ some c) × (c.ip ≡ ip) × (ltb c.expires now ≡ false))
      × ((take_challenge ip' later id (take_challenge ip now id s).0).1 ≡ none)
unfolding take_challenge admit_challenge challenge_holds
take_challenge-once ip ip' now later id s = (
  admitted (lookup id s.challenges),
  ap (admit_challenge ip' later) (lookup-remove_self id s.challenges) ∙ nothing,
)
  where
    nothing : admit_challenge ip' later none ≡ none
    nothing = refl

    empty :
        (d c : Challenge)
        → none ≡ some c
        → (some d ≡ some c) × (c.ip ≡ ip) × (ltb c.expires now ≡ false)
    empty d c h = cc

    admitted :
        (o : Option Challenge)
        → (c : Challenge) → admit_challenge ip now o ≡ some c
        → (o ≡ some c) × (c.ip ≡ ip) × (ltb c.expires now ≡ false)
    admitted none c h = cc
    admitted (some d) c h = elim (Bool-cases (challenge_holds ip now d)) [
      | inl e ↦
          let same : some d ≡ some c = (rw e at h) in
          let (from, live) = subst (Fits ip now) same (challenge_holds-Fits ip now d e) in
          (same, from, live)
      | inr e ↦ empty d c (rw e at h)
    ]

-- What `Get` should say of the session at a cookie.
abbrev pub usable : ℕ → (String → String → Bool) → Option Session → Option Session
usable now active none = none
usable now active (some x) =
    if ltb x.expires now || not (active x.account_id x.identity_id) then none else some x

-- A request is answered with the session of its cookie exactly where that has not expired and its
-- account and identity are active; otherwise the session of the cookie is gone afterwards.
pub get-usable :
    (id : String) (now : ℕ) (active : String → String → Bool) (saved : Bool) (s : SessionStore)
    → ((get (some id) now active saved s).1 ≡ usable now active (lookup id s.sessions))
      × (lookup id (get (some id) now active saved s).0.sessions
          ≡ usable now active (lookup id s.sessions))
unfolding get get_found forget
get-usable id now active saved s = found (lookup id s.sessions) refl
  where
    gone : lookup id (forget id saved s).0.sessions ≡ none
    gone =
        ap (lookup id) (sessions-save_locked saved (record s { sessions = remove id s.sessions }))
        ∙ lookup-remove_self id s.sessions

    found :
        (o : Option Session)
        → lookup id s.sessions ≡ o
        → ((get_found id now active saved s o).1 ≡ usable now active o)
          × (lookup id (get_found id now active saved s o).0.sessions ≡ usable now active o)
    found none h = (refl, gone)
    found (some x) h =
        elim (Bool-cases (ltb x.expires now || not (active x.account_id x.identity_id))) [
          | inl e ↦ rw e (refl, gone)
          | inr e ↦ rw e (refl, h)
        ]
