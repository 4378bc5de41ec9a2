-- ===== src/Auth/Passwords/Tests.antt =====
-- Derivations and hashes as runs, and their theorems at concrete inputs. The HMAC is one number, 32
-- times, and the encodings know one salt and one derived text each.
use Prim.Native.Char.{code}
use gantry_core.Base.{
  ℕ, zero, suc, ◌+◌, ◌≡◌, ◌↔◌, refl, sym, ap, ◌∙◌, if◌then◌else◌, ◌==◌, true, false, length, String,
  Option, none, some, [], ◌∷◌, arith,
}
use gantry_core.Base.Int.{pos}
use gantry_core.Auth.Passwords.{
  Bytes, Encodings, take, pbkdf2_sha256, hash_password, verify_password, derive_bytes,
}
use gantry_core.Auth.Passwords.Derived.{blocks_of, pbkdf2_sha256-blocks_of}
use gantry_core.Auth.Passwords.Accepted.{IsEncoding, has_dollar, verify_password-hash_password}

abbrev pub times : ℕ → ℕ → Bytes
times zero x = []
times (suc n) x = x ∷ times n x

abbrev first_or : Bytes → ℕ
first_or [] = 1
first_or (x ∷ xs) = x + 1

abbrev pub sum_hmac : Bytes → Bytes → Bytes
sum_hmac key message = times 32 (first_or message)

pub sum_width : (k m : Bytes) → length (sum_hmac k m) ≡ 32
sum_width k m = refl

-- The salt starts with 6: two iterations give 7 xor 8, and 40 bytes need two blocks.
two_blocks : pbkdf2_sha256 sum_hmac [] (6 ∷ []) 2 40 ≡ times 40 15
unfolding pbkdf2_sha256
two_blocks = refl

pbkdf2_sha256-blocks_of_example :
    (pbkdf2_sha256 sum_hmac [] (6 ∷ []) 2 40 ≡ take 40 (blocks_of sum_hmac [] (6 ∷ []) 2 2 1))
    × (length (pbkdf2_sha256 sum_hmac [] (6 ∷ []) 2 40) ≡ 40)
pbkdf2_sha256-blocks_of_example =
    pbkdf2_sha256-blocks_of sum_hmac [] (6 ∷ []) 1 sum_width 40 2 (omega arith) (omega arith)

-- Each byte as so many ones and a zero.
abbrev ones : ℕ → String → String
ones zero s = String.◌∷◌ "0" s
ones (suc n) s = String.◌∷◌ "1" (ones n s)

abbrev write_bytes : Bytes → String
write_bytes [] = ""
write_bytes (x ∷ xs) = ones x (write_bytes xs)

abbrev put : ℕ → Option Bytes → Option Bytes
put x none = none
put x (some xs) = some (x ∷ xs)

abbrev read_from : ℕ → String → Option Bytes
read_from seen String.[] = some []
read_from seen (String.◌∷◌ c s) =
    let next = put seen (read_from 0 s) in
    let more = read_from (suc seen) s in if code c == 0x30 then next else more

read_from-ones :
    (n seen : ℕ) (s : String) → read_from seen (ones n s) ≡ put (n + seen) (read_from 0 s)
read_from-ones zero seen s =
    let e : 0 + seen ≡ seen = omega arith in ap (λ x. put x (read_from 0 s)) (sym e)
read_from-ones (suc n) seen s =
    let e : n + suc seen ≡ suc n + seen = omega arith in
    read_from-ones n (suc seen) s ∙ ap (λ x. put x (read_from 0 s)) e

read_from-write_bytes : (b : Bytes) → read_from 0 (write_bytes b) ≡ some b
read_from-write_bytes [] = refl
read_from-write_bytes (x ∷ xs) =
    let e : x + 0 ≡ x = omega arith in
    read_from-ones x 0 (write_bytes xs)
    ∙ ap (put (x + 0)) (read_from-write_bytes xs)
    ∙ ap (λ y. some (y ∷ xs)) e

ones-plain : (n : ℕ) (s : String) → has_dollar s ≡ false → has_dollar (ones n s) ≡ false
unfolding has_dollar
ones-plain zero s h = h
ones-plain (suc n) s h = ones-plain n s h

write_bytes-plain : (b : Bytes) → has_dollar (write_bytes b) ≡ false
unfolding has_dollar
write_bytes-plain [] = refl
write_bytes-plain (x ∷ xs) = ones-plain x (write_bytes xs) (write_bytes-plain xs)

abbrev pub unary : Encodings
unary = record {
  bytes = λ s. [];
  hex_encode = write_bytes;
  hex_decode = read_from 0;
  base64_encode = write_bytes;
  base64_decode = read_from 0;
  atoi = λ s. some (pos 310_000);
}

pub unary-IsEncoding : IsEncoding unary
unary-IsEncoding = record {
  hex_read = read_from-write_bytes;
  hex_plain = write_bytes-plain;
  base64_read = read_from-write_bytes;
  base64_plain = write_bytes-plain;
  atoi_count = refl;
}

abbrev pub salt : Bytes
salt = times 16 3

verify_password-hash_password_example :
    (verify_password unary sum_hmac (hash_password unary sum_hmac salt "secret") "secret" ≡ true)
    × ((verify_password unary sum_hmac (hash_password unary sum_hmac salt "secret") "guess" ≡ true)
        ↔ (derive_bytes unary sum_hmac "guess" salt 32
            ≡ derive_bytes unary sum_hmac "secret" salt 32))
verify_password-hash_password_example =
    verify_password-hash_password unary unary-IsEncoding sum_hmac sum_width salt "secret" "guess"
      refl
