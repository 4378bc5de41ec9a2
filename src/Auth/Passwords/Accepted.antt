-- ===== src/Auth/Passwords/Accepted.antt =====
-- Which passwords a stored hash accepts (auth/accounts.go: HashPassword, VerifyPassword).
use Prim.Native.Char.{code}
use Prim.Native.String.{◌++◌ as append_str}
use Prim.Native.String.append
use gantry_core.Base.{
  ℕ, ◌≡◌, ◌↔◌, refl, sym, ap, ◌∙◌, Bool, true, false, ◌&&◌, ◌||◌, ◌==◌, length, String, Option,
  some, [], ◌∷◌, str_eq, arith,
}
use gantry_core.Base.Int.{pos}
use gantry_core.Auth.Passwords.{
  Bytes, Encodings, split_dollar, joined, same_bytes, hash_password, check_derived, derive_bytes,
  verify_parts, verify_password, is_count,
}
use gantry_core.Auth.Passwords.Derived.{pbkdf2_sha256-blocks_of}

unfoldable pub has_dollar : String → Bool
has_dollar String.[] = false
has_dollar (String.◌∷◌ c s) = code c == 0x24 || has_dollar s

-- What the packages document of these: digits are read back, and none is a dollar sign.
pub record IsEncoding (e : Encodings) : Type 0 where
  pub hex_read : (b : Bytes) → e.hex_decode (e.hex_encode b) ≡ some b
  pub hex_plain : (b : Bytes) → has_dollar (e.hex_encode b) ≡ false
  pub base64_read : (b : Bytes) → e.base64_decode (e.base64_encode b) ≡ some b
  pub base64_plain : (b : Bytes) → has_dollar (e.base64_encode b) ≡ false
  pub atoi_count : e.atoi "310000" ≡ some (pos 310_000)

split_dollar-plain : (s : String) → has_dollar s ≡ false → split_dollar s ≡ s ∷ []
unfolding split_dollar has_dollar
split_dollar-plain String.[] h = refl
split_dollar-plain (String.◌∷◌ c s) h =
    let here : (code c == 0x24) ≡ false = ground (arith, h) in
    let there : has_dollar s ≡ false = ground (arith, h) in
    rw (here, split_dollar-plain s there) refl

split_dollar-append :
    (s rest : String)
    → has_dollar s ≡ false
    → split_dollar (append_str s (append_str "$" rest)) ≡ s ∷ split_dollar rest
unfolding split_dollar has_dollar
split_dollar-append String.[] rest h =
    let e : append_str "" (append_str "$" rest) ≡ String.◌∷◌ "$" rest =
      append.nil (append_str "$" rest)
      ∙ append.cons "$" "" rest
      ∙ ap (String.◌∷◌ "$") (append.nil rest) in
    ap split_dollar e
split_dollar-append (String.◌∷◌ c s) rest h =
    let here : (code c == 0x24) ≡ false = ground (arith, h) in
    let there : has_dollar s ≡ false = ground (arith, h) in
    rw (append.cons c s (append_str "$" rest), here, split_dollar-append s rest there) refl

-- The four parts of a stored hash are read back.
split_dollar-joined :
    (a b c d : String)
    → has_dollar a ≡ false
    → has_dollar b ≡ false
    → has_dollar c ≡ false
    → has_dollar d ≡ false
    → split_dollar (joined a b c d) ≡ a ∷ b ∷ c ∷ d ∷ []
split_dollar-joined a b c d ha hb hc hd =
    split_dollar-append a (append_str b (append_str "$" (append_str c (append_str "$" d)))) ha
    ∙ ap (λ x. a ∷ x)
        (split_dollar-append b (append_str c (append_str "$" d)) hb
          ∙ ap (λ x. b ∷ x)
              (split_dollar-append c d hc ∙ ap (λ x. c ∷ x) (split_dollar-plain d hd)))

same_bytes_refl : (b : Bytes) → same_bytes b b ≡ true
unfolding same_bytes
same_bytes_refl [] = refl
same_bytes_refl (x ∷ xs) = rw (same_bytes_refl xs) ground arith

same_bytes-eq : (a b : Bytes) → same_bytes a b ≡ true → a ≡ b
unfolding same_bytes
same_bytes-eq [] [] h = refl
same_bytes-eq [] (y ∷ ys) h = absurd (cc)
same_bytes-eq (x ∷ xs) [] h = absurd (cc)
same_bytes-eq (x ∷ xs) (y ∷ ys) h =
    let head : x ≡ y = ground (arith, h) in
    let tail : same_bytes xs ys ≡ true = ground (arith, h) in
    let rest = same_bytes-eq xs ys tail in cc

check_derived-same :
    (make : Bytes → ℕ → Bytes) (salt want : Bytes)
    → length salt ≡ 16
    → length want ≡ 32
    → check_derived make (some salt) (some want) ≡ same_bytes (make salt 32) want
unfolding check_derived
check_derived-same make salt want h k = rw (h, k) refl

module _ (e : Encodings) (lawful : IsEncoding e) (hmac : Bytes → Bytes → Bytes)
    (width : (k m : Bytes) → length (hmac k m) ≡ 32) where
  length-derive_bytes :
      (salt : Bytes) (password : String) → length (derive_bytes e hmac password salt 32) ≡ 32
  length-derive_bytes salt password =
      (pbkdf2_sha256-blocks_of hmac (e.bytes password) salt 309_999 width 32 1 (omega arith)
        (omega arith)).1

  parts :
      (salt want : Bytes) (other : String)
      → verify_parts e hmac other
          ("pbkdf2-sha256" ∷ "310000" ∷ e.hex_encode salt ∷ e.base64_encode want ∷ [])
        ≡ check_derived (derive_bytes e hmac other) (some salt) (some want)
  unfolding verify_parts
  parts salt want other = parts_of (check_derived (derive_bytes e hmac other))
    where
      parts_of :
          (check : Option Bytes → Option Bytes → Bool)
          → (str_eq "pbkdf2-sha256" "pbkdf2-sha256"
              && is_count (e.atoi "310000")
              && check (e.hex_decode (e.hex_encode salt)) (e.base64_decode (e.base64_encode want)))
            ≡ check (some salt) (some want)
      parts_of check = rw (lawful.atoi_count, lawful.hex_read salt, lawful.base64_read want) refl

  -- A stored hash splits into its parts, whatever was hashed.
  split_dollar-hash_password :
      (salt want : Bytes)
      → split_dollar (joined "pbkdf2-sha256" "310000" (e.hex_encode salt) (e.base64_encode want))
        ≡ "pbkdf2-sha256" ∷ "310000" ∷ e.hex_encode salt ∷ e.base64_encode want ∷ []
  unfolding has_dollar
  split_dollar-hash_password salt want =
      split_dollar-joined "pbkdf2-sha256" "310000" (e.hex_encode salt) (e.base64_encode want) refl
        refl (lawful.hex_plain salt) (lawful.base64_plain want)

  verified :
      (salt want : Bytes) (other : String)
      → length salt ≡ 16
      → length want ≡ 32
      → verify_password e hmac
          (joined "pbkdf2-sha256" "310000" (e.hex_encode salt) (e.base64_encode want))
          other
        ≡ same_bytes (derive_bytes e hmac other salt 32) want
  unfolding verify_password
  verified salt want other h k =
      ap (verify_parts e hmac other) (split_dollar-hash_password salt want)
      ∙ parts salt want other
      ∙ check_derived-same (derive_bytes e hmac other) salt want h k

  -- The hash that is stored for a password with a salt of 16 bytes accepts the password, and another
  -- one exactly if PBKDF2 derives the same 32 bytes of it with that salt.
  pub verify_password-hash_password :
      (salt : Bytes) (password other : String)
      → length salt ≡ 16
      → (verify_password e hmac (hash_password e hmac salt password) password ≡ true)
        × ((verify_password e hmac (hash_password e hmac salt password) other ≡ true)
            ↔ (derive_bytes e hmac other salt 32 ≡ derive_bytes e hmac password salt 32))
  unfolding hash_password
  verify_password-hash_password salt password other h =
      let of = λ (x : String).
        verified salt (derive_bytes e hmac password salt 32) x h
          (length-derive_bytes salt password) in
      (
        of password ∙ same_bytes_refl (derive_bytes e hmac password salt 32),
        (
          λ y. same_bytes-eq _ _ (sym (of other) ∙ y),
          λ y.
              of other
              ∙ ap (λ x. same_bytes x (derive_bytes e hmac password salt 32)) y
              ∙ same_bytes_refl (derive_bytes e hmac password salt 32),
        ),
      )
