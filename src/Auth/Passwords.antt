-- ===== src/Auth/Passwords.antt =====
-- Password hashes and their derivation (auth/accounts.go: PBKDF2SHA256, HashPassword, VerifyPassword).
-- Bytes are numbers below 256. HMAC, hexadecimal digits, base64 and strconv.Atoi are parameters, and
-- the random salt is an argument.
pub mod Derived
pub mod Accepted
pub mod Tests
use Prim.Native.Nat.{bit_xor}
use Prim.Native.Char.{Char, code}
use Prim.Native.String.{◌++◌ as append_str}
use gantry_core.Base.{
  ℕ, zero, suc, ◌+◌, ◌-◌, ◌/◌, ◌%◌, ◌^◌, Bool, true, false, ◌&&◌, if◌then◌else◌, ◌==◌, ltb, length,
  String, Option, none, some, List, [], ◌∷◌, ◌++◌, str_eq,
}
use gantry_core.Base.Int.{ℤ, pos, eq_ℤ}

abbrev pub Bytes : Type 0
Bytes = List ℕ

-- `out[:size]` of a slice that is long enough.
abbrev pub take : {A : Type 0} → ℕ → List A → List A
take zero xs = []
take (suc n) [] = []
take (suc n) (x ∷ xs) = x ∷ take n xs

-- `value[index] ^= u[index]`, for texts of one length.
unfoldable pub xor_bytes : Bytes → Bytes → Bytes
xor_bytes [] us = []
xor_bytes (v ∷ vs) [] = v ∷ vs
xor_bytes (v ∷ vs) (u ∷ us) = bit_xor v u ∷ xor_bytes vs us

-- `byte(block >> 24)` to `byte(block)`
unfoldable pub counter : ℕ → Bytes
counter block =
    (block / 2 ^ 24) % 256 ∷ (block / 2 ^ 16) % 256 ∷ (block / 2 ^ 8) % 256 ∷ block % 256 ∷ []

module _ (hmac : Bytes → Bytes → Bytes) where
  -- The loop over the iterations after the first.
  unfoldable pub iterate : ℕ → Bytes → Bytes → Bytes → Bytes
  unfolding xor_bytes
  iterate zero password u value = value
  iterate (suc n) password u value =
      let next = hmac password u in iterate n password next (xor_bytes value next)

  -- The body of the loop over the blocks.
  unfoldable pub block_value : Bytes → Bytes → ℕ → ℕ → Bytes
  unfolding iterate counter
  block_value password salt iterations block =
      let u = hmac password (salt ++ counter block) in iterate (iterations - 1) password u u

  -- The loop over the blocks, on fuel.
  unfoldable pub add_blocks : ℕ → Bytes → Bytes → ℕ → ℕ → ℕ → Bytes → Bytes
  unfolding block_value
  add_blocks zero password salt iterations size block out = out
  add_blocks (suc fuel) password salt iterations size block out =
      let more =
        add_blocks fuel password salt iterations size (block + 1)
          (out ++ block_value password salt iterations block) in
      if ltb (length out) size then more else out

  -- `PBKDF2SHA256`. A block for each byte is more than enough.
  unfoldable pub pbkdf2_sha256 : Bytes → Bytes → ℕ → ℕ → Bytes
  unfolding add_blocks
  pbkdf2_sha256 password salt iterations size =
      take size (add_blocks size password salt iterations size 1 [])

-- What the hashes take from encoding/hex, encoding/base64, strconv and the bytes of a text.
pub record Encodings : Type 0 where
  pub bytes : String → Bytes
  pub hex_encode : Bytes → String
  pub hex_decode : String → Option Bytes
  pub base64_encode : Bytes → String
  pub base64_decode : String → Option Bytes
  pub atoi : String → Option ℤ

abbrev pub push_char : Char → List String → List String
push_char c [] = String.◌∷◌ c "" ∷ []
push_char c (s ∷ ss) = String.◌∷◌ c s ∷ ss

-- `strings.Split(s, "$")`
unfoldable pub split_dollar : String → List String
split_dollar String.[] = "" ∷ []
split_dollar (String.◌∷◌ c s) =
    let rest = split_dollar s in if code c == 0x24 then "" ∷ rest else push_char c rest

abbrev pub joined : String → String → String → String → String
joined a b c d =
    append_str a (append_str "$" (append_str b (append_str "$" (append_str c (append_str "$" d)))))

-- `subtle.ConstantTimeCompare(a, b) == 1`
unfoldable pub same_bytes : Bytes → Bytes → Bool
same_bytes [] [] = true
same_bytes [] (y ∷ ys) = false
same_bytes (x ∷ xs) [] = false
same_bytes (x ∷ xs) (y ∷ ys) = x == y && same_bytes xs ys

abbrev pub iteration_count : ℕ
iteration_count = 310_000

abbrev pub is_count : Option ℤ → Bool
is_count none = false
is_count (some n) = eq_ℤ n (pos iteration_count)

-- The comparison with what is derived for a salt and a size, once both parts have been decoded.
unfoldable pub check_derived : (Bytes → ℕ → Bytes) → Option Bytes → Option Bytes → Bool
unfolding same_bytes
check_derived derive none want = false
check_derived derive (some salt) none = false
check_derived derive (some salt) (some want) =
    length salt == 16 && length want == 32 && same_bytes (derive salt (length want)) want

module _ (e : Encodings) (hmac : Bytes → Bytes → Bytes) where
  abbrev pub derive_bytes : String → Bytes → ℕ → Bytes
  derive_bytes password salt size = pbkdf2_sha256 hmac (e.bytes password) salt iteration_count size

  -- `HashPassword`, with its salt
  unfoldable pub hash_password : Bytes → String → String
  hash_password salt password =
      joined "pbkdf2-sha256" "310000" (e.hex_encode salt)
        (e.base64_encode (derive_bytes password salt 32))

  unfoldable pub verify_parts : String → List String → Bool
  unfolding check_derived
  verify_parts password (name ∷ count ∷ salt ∷ want ∷ []) =
      str_eq name "pbkdf2-sha256"
      && is_count (e.atoi count)
      && check_derived (derive_bytes password) (e.hex_decode salt) (e.base64_decode want)
  verify_parts password _ = false

  -- `VerifyPassword`
  unfoldable pub verify_password : String → String → Bool
  unfolding verify_parts split_dollar
  verify_password encoded password = verify_parts password (split_dollar encoded)
