-- ===== src/Auth/Enrolled/Tests.antt =====
-- An account that is created in memory, and its first login.
use gantry_core.Base.{
  ◌≡◌, refl, true, false, String, none, some, [], ◌∷◌, str_eq, str_eq-false, arith,
}
use text.Mathlib.TextEquality.{eq_iff}
use gantry_core.Base.Result.{ok}
use gantry_core.Auth.Accounts.{Identity, Account}
use gantry_core.Auth.Model.{create_account, commit_users, save_users, keep_users}
use gantry_core.Auth.Queries.{authenticate_password}
use gantry_core.Auth.Tests.{same, memory, opened, users, accounts_open}
use gantry_core.Auth.Passwords.{hash_password, verify_password, verify_parts, split_dollar}
use gantry_core.Auth.Passwords.Accepted.{verify_password-hash_password}
use gantry_core.Auth.Passwords.Tests.{unary, unary-IsEncoding, sum_hmac, sum_width, salt}
use gantry_core.Auth.Enrolled.{enrolled_identity, enrolled_account, create_account-authenticates}

abbrev cys_hash : String
cys_hash = hash_password unary sum_hmac salt "in secret"

abbrev cys_login : Identity
cys_login = enrolled_identity "c" " cy " "cy@site" cys_hash

abbrev cy : Account
cy = enrolled_account "3" "Cy" ("reader" ∷ []) 7 cys_login

str_eq_self : (s : String) → str_eq s s ≡ true
str_eq_self s = ground (arith, eq_iff s s)

empty-refused : verify_password unary sum_hmac "" "in secret" ≡ false
unfolding verify_password verify_parts split_dollar
empty-refused = refl

cys_hash-accepted : verify_password unary sum_hmac cys_hash "in secret" ≡ true
cys_hash-accepted =
    (verify_password-hash_password unary unary-IsEncoding sum_hmac sum_width salt "in secret"
      "in secret" refl).0

cys_hash-written : str_eq cys_hash "" ≡ false
cys_hash-written =
    str_eq-false cys_hash ""
      (λ h. let e = rw h at cys_hash-accepted in let f = empty-refused in absurd (cc))

cy-created :
    (h : String)
    → str_eq h "" ≡ false
    → (create_account same memory "Cy" " cy " "cy@site" "in secret"
        ("reader" ∷ [])
        (ok h)
        "3"
        "c"
        7
        opened).1
      ≡ ok (enrolled_account "3" "Cy" ("reader" ∷ []) 7 (enrolled_identity "c" " cy " "cy@site" h))
unfolding accounts_open create_account commit_users save_users keep_users
cy-created h e = rw e refl

cy-create_account :
    (create_account same memory "Cy" " cy " "cy@site" "in secret"
      ("reader" ∷ [])
      (ok cys_hash)
      "3"
      "c"
      7
      opened).1
    ≡ ok cy
cy-create_account = cy-created cys_hash cys_hash-written

cy-authenticate_password :
    authenticate_password str_eq (verify_password unary sum_hmac) " cy " "in secret" users.accounts
    ≡ none
unfolding accounts_open
cy-authenticate_password = refl

create_account-authenticates_example :
    authenticate_password str_eq
      (verify_password unary sum_hmac)
      " cy "
      "in secret"
      (create_account same memory "Cy" " cy " "cy@site" "in secret"
        ("reader" ∷ [])
        (ok cys_hash)
        "3"
        "c"
        7
        opened).0.users.accounts
    ≡ some (cy, cys_login)
create_account-authenticates_example =
    create_account-authenticates same memory unary unary-IsEncoding sum_hmac sum_width str_eq
      str_eq_self "Cy" " cy " "cy@site" "in secret" ("reader" ∷ []) salt "3" "c" 7 opened cy refl
      cy-create_account cy-authenticate_password
