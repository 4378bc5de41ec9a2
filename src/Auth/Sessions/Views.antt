-- ===== src/Auth/Sessions/Views.antt =====
-- The sessions of an account as they are listed, and their revocation (auth/sessions.go:
-- ListSessions, CountSessions, RevokeSession). `display` is `DisplaySessionID`, the start of a SHA-256
-- in hexadecimal.
use gantry_core.Base.{
  ℕ, Bool, true, false, ◌&&◌, if◌then◌else◌, ltb, leb, length, String, Option, none, some, List, [],
  ◌∷◌, str_eq, Assoc, remove,
}
use gantry_core.Base.Sort.{sort_by}
use gantry_core.Auth.Sessions.{Session, SessionStore, purge, purge_all, save_locked}

pub record SessionView : Type 0 where
  pub id : String
  pub created : ℕ
  pub expires : ℕ
  pub remote_ip : String
  pub user_agent : String

module _ (display : String → String) where
  abbrev pub view : String → Session → SessionView
  view id s = record {
    id = display id;
    created = s.created;
    expires = s.expires;
    remote_ip = s.remote_ip;
    user_agent = s.user_agent;
  }

  -- The sessions of the account among those that have not expired.
  unfoldable pub views : String → Assoc Session → List SessionView
  views account [] = []
  views account ((id, s) ∷ m) =
      let rest = views account m in if str_eq s.account_id account then view id s ∷ rest else rest

  -- `ListSessions`. What expired is deleted and not saved.
  unfoldable pub list_sessions : String → ℕ → SessionStore → SessionStore × List SessionView
  unfolding purge views sort_by
  list_sessions account now s =
      let live = purge_all (λ id x. ltb x.expires now) s.sessions in
      (record s { sessions = live }, sort_by (λ x y. leb y.created x.created) (views account live))

  -- `CountSessions`
  unfoldable pub count_sessions : String → ℕ → SessionStore → SessionStore × ℕ
  unfolding list_sessions
  count_sessions account now s = let (s', out) = list_sessions account now s in (s', length out)

  -- The first id in the range over the map that is displayed so.
  unfoldable pub displayed_as : String → String → Assoc Session → Option String
  displayed_as account shown [] = none
  displayed_as account shown ((id, s) ∷ m) =
      let rest = displayed_as account shown m in
      if str_eq s.account_id account && str_eq (display id) shown then some id else rest

  unfoldable pub revoke_found : Option String → Bool → SessionStore → SessionStore × Bool
  unfolding save_locked remove
  revoke_found none saved s = (s, false)
  revoke_found (some id) saved s =
      (save_locked saved (record s { sessions = remove id s.sessions }), true)

  -- `RevokeSession`
  unfoldable pub revoke_session : String → String → Bool → SessionStore → SessionStore × Bool
  unfolding displayed_as revoke_found
  revoke_session account shown saved s =
      revoke_found (displayed_as account shown s.sessions) saved s
