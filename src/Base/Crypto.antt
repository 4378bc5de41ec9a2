-- ===== src/Base/Crypto.antt =====
-- Go's crypto/sha256, crypto/hmac and base64, which the code calls on secrets and messages.
use Prim.Native.Nat.{ℕ}
use Prim.Native.String.{String}
use mathlib.Core.Path.{◌≡◌}
use mathlib.Core.Bool.{Bool, true, false}
use text.Mathlib.Text.{◌==◌ as str_eq}
use mathlib.Core.Option.{Option, some}

-- A digest is 32 bytes, so its text is not empty. `hex` is the verb %x, `encode` and `decode` are base64.RawURLEncoding, `equal` is hmac.Equal.
pub record Crypto : Type 1 where
  pub Bytes : Type 0
  pub Digest : Type 0
  pub bytes : String → Bytes
  pub size : Bytes → ℕ
  pub sha256 : Bytes → Digest
  pub hmac_sha256 : String → String → Digest
  pub hex : Digest → String
  pub encode : Digest → String
  pub decode : String → Option Digest
  pub equal : Digest → Digest → Bool

-- What the packages document of these.
pub record IsCrypto (c : Crypto) : Type 0 where
  pub decode-encode : (d : c.Digest) → c.decode (c.encode d) ≡ some d
  pub encode-ne : (d : c.Digest) → str_eq (c.encode d) "" ≡ false
  pub equal_refl : (d : c.Digest) → c.equal d d ≡ true
