-- ===== src/Auth/Sessions.antt =====
-- Login sessions, failed attempts and challenges (auth/sessions.go). An operation holds the lock. Times
-- are nanoseconds; the address of a request, its cookie, fresh tokens, the answer of the account
-- provider and whether a save succeeds are arguments. A zero option has its default before.
pub mod Revocation
pub mod Login
pub mod Started
pub mod Views
pub mod Keys
pub mod Owned
pub mod Sorted
pub mod Capped
use gantry_core.Base.{
  ℕ, suc, ◌+◌, Bool, false, not, ◌&&◌, ◌||◌, if◌then◌else◌, ltb, leb, ◌==◌, length, String, Option,
  none, some, List, [], ◌∷◌, ◌++◌, str_eq, Assoc, lookup, insert, remove,
}
use gantry_core.Base.Sort.{sort_by}
use gantry_core.Base.Result.{Result, ok, err}

pub record Session : Type 0 where
  pub account_id : String
  pub identity_id : String
  pub csrf : String
  pub created : ℕ
  pub expires : ℕ
  pub remote_ip : String
  pub user_agent : String

pub record Challenge : Type 0 where
  pub account_id : String
  pub identity_id : String
  pub ip : String
  pub expires : ℕ

pub record SessionOptions : Type 0 where
  pub cookie_name : String
  pub csrf_header : String
  pub session_ttl : ℕ
  pub challenge_ttl : ℕ
  pub failure_window : ℕ
  pub max_failures : ℕ
  pub max_sessions_per_account : ℕ

-- `persisted` is what the last save that succeeded wrote.
pub record SessionStore : Type 0 where
  pub sessions : Assoc Session
  pub failures : Assoc (List ℕ)
  pub challenges : Assoc Challenge
  pub persisted : Assoc Session
  pub options : SessionOptions

pub data LoginError : Type 0 where
  rate_limited invalid_credential save_failed : LoginError

abbrev pub keys {ℓ} : {V : Type ℓ} → Assoc V → List String
keys [] = []
keys ((k, v) ∷ m) = k ∷ keys m

-- Whether the loop deletes what stands at a key.
abbrev pub dropped {ℓ} : {V : Type ℓ} → (String → V → Bool) → String → Option V → Bool
dropped d k none = false
dropped d k (some v) = d k v

-- `for k, v := range m { if … { delete(m, k) } }`
unfoldable pub purge {ℓ} : {V : Type ℓ} → (String → V → Bool) → List String → Assoc V → Assoc V
unfolding lookup remove
purge d [] m = m
purge d (k ∷ ks) m =
    let rest = purge d ks m in if dropped d k (lookup k m) then remove k rest else rest

abbrev pub purge_all {ℓ} : {V : Type ℓ} → (String → V → Bool) → Assoc V → Assoc V
purge_all d m = purge d (keys m) m

-- A missing list of failures is the nil slice.
abbrev pub failures_of : String → Assoc (List ℕ) → List ℕ
failures_of ip m = elim (lookup ip m) [ none ↦ [] | some ts ↦ ts ]

-- The failures after `now - window`.
unfoldable pub recent : ℕ → ℕ → List ℕ → List ℕ
recent now window [] = []
recent now window (t ∷ ts) =
    let rest = recent now window ts in if ltb now (t + window) then t ∷ rest else rest

-- `saveLocked`
unfoldable pub save_locked : Bool → SessionStore → SessionStore
save_locked saved s = if saved then record s { persisted = s.sessions } else s

-- `Limited`, which forgets older failures.
unfoldable pub limited : String → ℕ → SessionStore → SessionStore × Bool
unfolding recent insert lookup
limited ip now s =
    let remaining = recent now s.options.failure_window (failures_of ip s.failures) in
    (
      record s { failures = insert ip remaining s.failures },
      leb s.options.max_failures (length remaining),
    )

-- `Fail`
unfoldable pub fail : String → ℕ → SessionStore → SessionStore
unfolding insert lookup
fail ip now s = record s {
  failures = insert ip (failures_of ip s.failures ++ (now ∷ [])) s.failures;
}

-- `AuthenticatePassword`, given the answer of the account provider.
unfoldable pub authenticate {ℓ} :
    {A : Type ℓ} → String → ℕ → Option A → SessionStore → SessionStore × Result LoginError A
unfolding limited fail
authenticate ip now answer s =
    let (s', blocked) = limited ip now s in
    if blocked
    then (s', err rate_limited)
    else (elim answer [ none ↦ (fail ip now s', err invalid_credential) | some a ↦ (s', ok a) ])

abbrev pub Candidate : Type 0
Candidate = String × ℕ

unfoldable pub add_owned : String → String → Option Session → List Candidate → List Candidate
add_owned account k none rest = rest
add_owned account k (some s) rest =
    if str_eq s.account_id account then (k, s.created) ∷ rest else rest

-- The sessions of an account, with their times.
unfoldable pub owned : String → List String → Assoc Session → List Candidate
unfolding add_owned lookup
owned account [] m = []
owned account (k ∷ ks) m = add_owned account k (lookup k m) (owned account ks m)

-- `for len(owned) >= max { delete the first }`
unfoldable pub evict : ℕ → List Candidate → Assoc Session → Assoc Session
unfolding remove
evict max [] m = m
evict max ((id, created) ∷ rest) m =
    let later = evict max rest (remove id m) in if leb max (suc (length rest)) then later else m

-- `CreateSession`, without the cookie. The user agent has been trimmed.
unfoldable pub create_session :
    String
    → String
    → String
    → String
    → ℕ
    → String
    → String
    → Bool
    → SessionStore
    → SessionStore × Result LoginError Session
unfolding purge owned evict save_locked insert remove
create_session session_id csrf ip agent now account identity saved s =
    let session : Session = record {
      account_id = account;
      identity_id = identity;
      csrf = csrf;
      created = now;
      expires = now + s.options.session_ttl;
      remote_ip = ip;
      user_agent = agent;
    } in
    let live = purge_all (λ id c. ltb c.expires now) s.sessions in
    let room =
      evict s.options.max_sessions_per_account
        (sort_by (λ x y. leb x.1 y.1) (owned account (keys live) live)) live in
    let s' = record s {
      sessions = insert session_id session room;
      failures = remove ip s.failures;
    } in
    (save_locked saved s', if saved then ok session else err save_failed)

-- `BeginChallenge`
unfoldable pub begin_challenge : String → String → ℕ → String → String → SessionStore → SessionStore
unfolding purge insert
begin_challenge id ip now account identity s =
    let new : Challenge = record {
      account_id = account;
      identity_id = identity;
      ip = ip;
      expires = now + s.options.challenge_ttl;
    } in
    record s { challenges = insert id new (purge_all (λ k c. ltb c.expires now) s.challenges) }

-- The test in `TakeChallenge`.
unfoldable pub challenge_holds : String → ℕ → Challenge → Bool
challenge_holds ip now c = not (ltb c.expires now) && str_eq c.ip ip

unfoldable pub admit_challenge : String → ℕ → Option Challenge → Option Challenge
unfolding challenge_holds
admit_challenge ip now none = none
admit_challenge ip now (some c) = if challenge_holds ip now c then some c else none

-- `TakeChallenge`
unfoldable pub take_challenge : String → ℕ → String → SessionStore → SessionStore × Option Challenge
unfolding admit_challenge lookup remove
take_challenge ip now id s = (
  record s { challenges = remove id s.challenges },
  admit_challenge ip now (lookup id s.challenges),
)

-- `Logout`, with the cookie of the request if it has one.
unfoldable pub logout : Option String → Bool → SessionStore → SessionStore
unfolding save_locked remove
logout none saved s = s
logout (some id) saved s = save_locked saved (record s { sessions = remove id s.sessions })

-- The failing branch of `Get`.
unfoldable pub forget : String → Bool → SessionStore → SessionStore × Option Session
unfolding save_locked remove
forget id saved s = (save_locked saved (record s { sessions = remove id s.sessions }), none)

-- `Get` after the look-up.
unfoldable pub get_found :
    String
    → ℕ
    → (String → String → Bool)
    → Bool
    → SessionStore
    → Option Session
    → SessionStore × Option Session
unfolding forget
get_found id now active saved s none = forget id saved s
get_found id now active saved s (some session) =
    if ltb session.expires now || not (active session.account_id session.identity_id)
    then forget id saved s
    else (s, some session)

-- `Get`, given whether the account provider takes a principal for active.
unfoldable pub get :
    Option String
    → ℕ
    → (String → String → Bool)
    → Bool
    → SessionStore
    → SessionStore × Option Session
unfolding get_found lookup
get none now active saved s = (s, none)
get (some id) now active saved s = get_found id now active saved s (lookup id s.sessions)

-- `RevokeAll`
unfoldable pub revoke_all : Bool → SessionStore → SessionStore
unfolding save_locked
revoke_all saved s = save_locked saved (record s { sessions = [] })

-- `RevokeAccount`
unfoldable pub revoke_account : String → Bool → SessionStore → SessionStore
unfolding save_locked purge
revoke_account account saved s =
    save_locked saved (record s {
      sessions = purge_all (λ id session. str_eq session.account_id account) s.sessions;
    })

-- `RevokeIdentityExcept`
unfoldable pub revoke_identity_except : String → String → Bool → SessionStore → SessionStore
unfolding save_locked purge
revoke_identity_except identity kept saved s = save_locked saved (record s {
  sessions =
      purge_all (λ id session. str_eq session.identity_id identity && not (str_eq id kept))
        s.sessions;
})

-- `RevokeIdentity`
unfoldable pub revoke_identity : String → Bool → SessionStore → SessionStore
unfolding revoke_identity_except
revoke_identity identity = revoke_identity_except identity ""

-- `SnapshotSessions`, which saves only where something expired.
unfoldable pub snapshot_sessions : ℕ → Bool → SessionStore → SessionStore × Assoc Session
unfolding save_locked purge
snapshot_sessions now saved s =
    let live = purge_all (λ id session. not (ltb now session.expires)) s.sessions in
    let s' = record s { sessions = live } in
    (if length live == length s.sessions then s' else save_locked saved s', live)

-- `EqualToken`
unfoldable pub equal_token : String → String → Bool
equal_token got want = not (str_eq got "") && not (str_eq want "") && str_eq got want

-- `ValidCSRF`
unfoldable pub valid_csrf : String → String → Session → Bool
unfolding equal_token
valid_csrf method header session =
    str_eq method "GET" || str_eq method "HEAD" || equal_token header session.csrf
