-- ===== src/Auth/Model/Consume.antt =====
-- A recovery code is good for as many logins as copies of it are saved.
use gantry_core.Base.{◌≡◌, refl, ℕ, suc, Bool, true, false, String, Option, none, some, List, arith}
use gantry_core.Base.Result.{Result, ok, err}
use gantry_core.Auth.Accounts.{Account, Error}
use gantry_core.Auth.Edits.{consume_accounts}
use gantry_core.Auth.Edits.Recovery.{Falls, count_codes, consume_accounts-Falls}
use gantry_core.Auth.Model.{Persistence, Model, keep_users, save_users, with_accounts}
use gantry_core.Auth.Model.Identities.{consume_recovery_code, finish_consume}

module _ (lower : String → String) (P : Persistence) where
  abbrev pub Consumes : (List Account → ℕ) → Model P → Model P × Bool → Type 0
  Consumes count m (m', true) = count m.users.accounts ≡ suc (count m'.users.accounts)
  Consumes count m (m', false) = m'.users ≡ m.users

  finish_consume-Consumes :
      (count : List Account → ℕ) (m : Model P) (o : Option (List Account))
      → Falls count (count m.users.accounts) o
      → Consumes count m (finish_consume lower P o m)
  unfolding finish_consume save_users
  finish_consume-Consumes count m none h = refl
  finish_consume-Consumes count m (some rest) h =
      saved (P.save_accounts (with_accounts m.users rest) m.store)
    where
      saved :
          (out : P.Medium × Result Error (Unit {0}))
          → Consumes count m (
              let (m', result) = keep_users lower P tt (with_accounts m.users rest) m out in
              (m', elim result [ ok done ↦ true | err e ↦ false ]))
      saved (store, ok u) = h
      saved (store, err e) = refl

  -- A code that is accepted is used up: one copy fewer is saved, among those of this account and
  -- identity. A code that is refused changes no account.
  pub consume_recovery_code-Consumes :
      (account id hash : String) (m : Model P)
      → Consumes (count_codes account id hash) m (consume_recovery_code lower P account id hash m)
  unfolding consume_recovery_code
  consume_recovery_code-Consumes account id hash m =
      finish_consume-Consumes (count_codes account id hash) m
        (consume_accounts account id hash m.users.accounts)
        (consume_accounts-Falls account id hash m.users.accounts)

  finish_consume-empty :
      (count : List Account → ℕ) (before : ℕ) (m : Model P) (o : Option (List Account))
      → Falls count before o
      → before ≡ 0
      → (finish_consume lower P o m).1 ≡ false
  unfolding finish_consume
  finish_consume-empty count before m none h zeros = refl
  finish_consume-empty count before m (some rest) h zeros = ground (arith, h, zeros)

  -- A code of which no copy is saved is refused.
  pub consume_recovery_code-unknown :
      (account id hash : String) (m : Model P)
      → count_codes account id hash m.users.accounts ≡ 0
      → (consume_recovery_code lower P account id hash m).1 ≡ false
  unfolding consume_recovery_code
  consume_recovery_code-unknown account id hash m =
      finish_consume-empty (count_codes account id hash)
        (count_codes account id hash m.users.accounts) m
        (consume_accounts account id hash m.users.accounts)
        (consume_accounts-Falls account id hash m.users.accounts)
