-- ===== src/Auth/SessionTests.antt =====
-- Runs of the session store, and its theorems at concrete inputs.
use gantry_core.Base.{ℕ, ◌≡◌, refl, true, arith, String, none, some, [], lookup, insert, remove}
use gantry_core.Base.Sort.{sort_by}
use gantry_core.Base.Result.{err}
use gantry_core.Auth.Sessions.{
  SessionStore, rate_limited, take_challenge, get, revoke_account, revoke_identity_except,
  create_session, begin_challenge, authenticate, save_locked, purge, recent, fail,
}
use gantry_core.Auth.Sessions.Capped.{Capped, create_session-Capped}
use gantry_core.Auth.Sessions.Views.{revoke_session}

abbrev empty_store : SessionStore
empty_store = record {
  sessions = [];
  failures = [];
  challenges = [];
  persisted = [];
  options = record {
    cookie_name = "gantry_session";
    csrf_header = "X-Gantry-CSRF";
    session_ttl = 100;
    challenge_ttl = 10;
    failure_window = 50;
    max_failures = 2;
    max_sessions_per_account = 2;
  };
}

-- What the runs compute with.
unfoldable pub sessions_open : ℕ
unfolding create_session begin_challenge authenticate take_challenge get revoke_account
    revoke_identity_except lookup insert remove save_locked purge recent fail sort_by
sessions_open = 0

abbrev as_is : String → String
as_is s = s

abbrev logged_in : SessionStore
logged_in =
    (create_session "s2" "c" "ip" "ua" 5 "ann" "a" true
      (create_session "s1" "c" "ip" "ua" 1 "ann" "a" true empty_store).0).0

-- A third session of the account ends the oldest.
third_login :
    lookup "s1" (create_session "s3" "c" "ip" "ua" 9 "ann" "a" true logged_in).0.sessions ≡ none
unfolding sessions_open
third_login = refl

-- After two failures in the window even the right password is refused.
guessing :
    (authenticate {A = String} "ip" 30 (some "ann") (fail "ip" 20 (fail "ip" 10 empty_store))).1
    ≡ err rate_limited
unfolding sessions_open
guessing = refl

-- The same store: two sessions of `ann` at most.
create_session-Capped_example :
    Capped "s3" "c" "ip" "ua" 9 "ann" "a" true logged_in
      (create_session "s3" "c" "ip" "ua" 9 "ann" "a" true logged_in).0.sessions
unfolding sessions_open
create_session-Capped_example =
    create_session-Capped "s3" "c" "ip" "ua" 9 "ann" "a" true logged_in (omega arith)
      (refl, (refl, tt))

-- A listed session is revoked by the id that is shown.
revoked : lookup "s1" (revoke_session as_is "ann" "s1" true logged_in).0.sessions ≡ none
unfolding sessions_open revoke_session
revoked = refl
