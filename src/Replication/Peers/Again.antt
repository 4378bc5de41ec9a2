-- ===== src/Replication/Peers/Again.antt =====
-- When a handshake that is sent again is accepted again.
use gantry_core.Base.{
  ℕ, ◌+◌, ◌≤◌, ◌<◌, ◌≡◌, refl, ap, ◌∙◌, true, false, String, Option, none, some, Assoc, lookup,
  arith,
}
use gantry_core.Base.Crypto.{Crypto}
use gantry_core.Base.Result.{Result, ok, err, ◌>>=◌, ◌>>◌, >>=-eq-ok}
use gantry_core.Replication.Peers.Nonces.{first_seen, consume_nonce-first, consume_nonce-expired}
use gantry_core.Replication.Peers.{
  Authenticator, AuthRequest, AuthResult, AuthBody, PeerError, skew_window, consume_nonce,
  consume_checked, outside, check_time, check_handshake, verify_handshake_common, authenticate,
  check_member, check_signature,
}

module _ (crypto : Crypto) (marshal : AuthBody → Option crypto.Bytes)
    (parse_time : String → Option ℕ) where
  check_member-seen :
      (r : AuthRequest) (m : Authenticator) (seen : Assoc (Assoc ℕ))
      → check_member r (record m { seen = seen }) ≡ check_member r m
  unfolding check_member
  check_member-seen r m seen = refl

  pub check_time-fresh :
      (r : AuthRequest) (stamp later : ℕ)
      → parse_time r.timestamp ≡ some stamp
      → outside later stamp ≡ false
      → check_time crypto marshal parse_time later r ≡ ok tt
  unfolding check_time
  check_time-fresh r stamp later parsed fresh = rw parsed (rw fresh refl)

  -- Every check but the nonce's reads the time stamp and the member, not the nonces.
  check_handshake-later :
      (r : AuthRequest) (stamp now later : ℕ) (m : Authenticator) (seen : Assoc (Assoc ℕ))
      → check_handshake crypto marshal parse_time r now m ≡ ok tt
      → parse_time r.timestamp ≡ some stamp
      → outside later stamp ≡ false
      → check_handshake crypto marshal parse_time r later (record m { seen = seen }) ≡ ok tt
  unfolding check_handshake
  check_handshake-later r stamp now later m seen h parsed fresh =
      let (secret, known, rest) = >>=-eq-ok (check_member r m) _ h in
      let (u, in_time, signed) = >>=-eq-ok (check_time crypto marshal parse_time now r) _ rest in
      ap
        (λ o. o >>= λ secret.
          check_time crypto marshal parse_time later r
          >> check_signature crypto marshal parse_time secret r)
        (check_member-seen r m seen ∙ known)
      ∙ ap (λ o. o >> check_signature crypto marshal parse_time secret r)
          (check_time-fresh r stamp later parsed fresh)
      ∙ signed

  -- A handshake that is the first of its node, and that is stamped ahead of the clock by which it was
  -- accepted, is accepted again when the window has passed since then but not since its time stamp.
  pub authenticate-replayed :
      (r : AuthRequest) (stamp now later : ℕ) (m : Authenticator) (res : AuthResult)
      → (authenticate crypto marshal parse_time r now m).1 ≡ ok res
      → lookup r.node_id m.seen ≡ none
      → parse_time r.timestamp ≡ some stamp
      → now + skew_window < later
      → later ≤ stamp + skew_window
      → stamp ≤ now + skew_window
      → (authenticate crypto marshal parse_time r later
          (authenticate crypto marshal parse_time r now m).0).1
        ≡ ok res
  unfolding authenticate verify_handshake_common outside
  authenticate-replayed r stamp now later m res accepted first parsed passed in_time ahead =
      replayed (check_handshake crypto marshal parse_time r now m) accepted (λ seen checked.
        check_handshake-later r stamp now later m seen checked parsed (ground arith))
    where
      fresh_nonce :
          consume_nonce r.node_id r.nonce now m
          ≡ (record m { seen = first_seen r.node_id r.nonce now m }, ok tt)
      fresh_nonce = consume_nonce-first r.node_id r.nonce now m first

      expired :
          (consume_nonce r.node_id r.nonce later
            (record m { seen = first_seen r.node_id r.nonce now m })).1
          ≡ ok tt
      expired = consume_nonce-expired r.node_id r.nonce now later m passed

      finish : Authenticator × Result PeerError (Unit {0}) → Result PeerError AuthResult
      finish (m', o) = o >>= λ _.
          ok (record { allowed = true; server_address = r.raft_server_addr; reason = "" })

      replayed :
          (o : Result PeerError (Unit {0}))
          → finish (consume_checked crypto marshal parse_time r now m o) ≡ ok res
          → ((seen : Assoc (Assoc ℕ))
              → o ≡ ok tt
              → check_handshake crypto marshal parse_time r later (record m { seen = seen })
                ≡ ok tt)
          → finish (
              consume_checked crypto marshal parse_time r later
                (consume_checked crypto marshal parse_time r now m o).0
                (check_handshake crypto marshal parse_time r later
                  (consume_checked crypto marshal parse_time r now m o).0))
            ≡ ok res
      replayed (err e) h again = cc
      replayed (ok u) h again =
          rw fresh_nonce (
            rw (again (first_seen r.node_id r.nonce now m) refl) (rw expired (rw fresh_nonce at h)))
