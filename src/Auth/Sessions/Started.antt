-- ===== src/Auth/Sessions/Started.antt =====
-- The options, the start of a store and the login (auth/sessions.go: withDefaults, NewSessionStore,
-- Login). Durations are nanoseconds, of either sign before the defaults.
use gantry_core.Base.{
  ℕ, zero, suc, ◌*◌, Bool, not, if◌then◌else◌, ltb, String, Option, none, some, [], str_eq, Assoc,
}
use gantry_core.Base.Int.{ℤ, pos, negsuc}
use gantry_core.Base.Result.{Result, ok, err}
use gantry_core.Auth.Sessions.{
  Session, SessionOptions, SessionStore, LoginError, purge_all, purge, authenticate, create_session,
}

-- `SessionOptions` as a product gives them.
pub record GivenOptions : Type 0 where
  pub cookie_name : String
  pub csrf_header : String
  pub session_ttl : ℤ
  pub challenge_ttl : ℤ
  pub failure_window : ℤ
  pub max_failures : ℤ
  pub max_sessions_per_account : ℤ

-- `if n <= 0`
unfoldable pub positive_or : ℕ → ℤ → ℕ
positive_or default (negsuc n) = default
positive_or default (pos zero) = default
positive_or default (pos (suc n)) = suc n

abbrev unless_empty : String → String → String
unless_empty default s = if str_eq s "" then default else s

abbrev minutes : ℕ → ℕ
minutes n = n * 60 * 1_000_000_000

-- `withDefaults`
unfoldable pub with_defaults : GivenOptions → SessionOptions
unfolding positive_or
with_defaults o = record {
  cookie_name = unless_empty "gantry_session" o.cookie_name;
  csrf_header = unless_empty "X-Gantry-CSRF" o.csrf_header;
  session_ttl = positive_or (minutes 720) o.session_ttl;
  challenge_ttl = positive_or (minutes 5) o.challenge_ttl;
  failure_window = positive_or (minutes 10) o.failure_window;
  max_failures = positive_or 8 o.max_failures;
  max_sessions_per_account = positive_or 32 o.max_sessions_per_account;
}

abbrev store_of : Assoc Session → Assoc Session → GivenOptions → SessionStore
store_of live persisted o = record {
  sessions = live;
  failures = [];
  challenges = [];
  persisted = persisted;
  options = with_defaults o;
}

-- `NewSessionStore`, with the answer of `LoadSessions` if there is a persistence.
unfoldable pub new_session_store :
    Option (Result String (Assoc Session)) → ℕ → GivenOptions → Result String SessionStore
unfolding with_defaults purge
new_session_store none now o = ok (store_of [] [] o)
new_session_store (some (err e)) now o = err e
new_session_store (some (ok loaded)) now o =
    ok (store_of (purge_all (λ id x. not (ltb now x.expires)) loaded) loaded o)

unfoldable pub login_found :
    String
    → String
    → String
    → String
    → ℕ
    → Bool
    → SessionStore × Result LoginError (String × String)
    → SessionStore × Result LoginError Session
unfolding create_session
login_found session_id csrf ip agent now saved (s, err e) = (s, err e)
login_found session_id csrf ip agent now saved (s, ok (account, identity)) =
    create_session session_id csrf ip agent now account identity saved s

-- `Login`, given the ids that the account provider answers.
unfoldable pub login :
    String
    → String
    → String
    → String
    → ℕ
    → Option (String × String)
    → Bool
    → SessionStore
    → SessionStore × Result LoginError Session
unfolding login_found authenticate
login session_id csrf ip agent now answer saved s =
    login_found session_id csrf ip agent now saved (authenticate ip now answer s)
