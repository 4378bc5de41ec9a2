-- ===== src/Protocol.antt =====
-- Wire and presentation primitives (protocol/protocol.go).
pub mod Redact
pub mod Hidden
pub mod Wire
use Prim.Native.Char.{code}
use Prim.Native.String.{String, len}
use gantry_core.Base.{ℕ, ltb, leb, ◌==◌, Bool, true, ◌&&◌, ◌||◌, not, if◌then◌else◌, str_eq}
use gantry_core.Base.Int.{ℤ, pos, ltb_ℤ}
use gantry_core.Base.Pattern.{is_lower, is_digit}

pub data ErrorCode : Type 0 where
  invalid unauthorized forbidden not_found conflict unavailable internal partial : ErrorCode
  unknown : String → ErrorCode

pub record ApiError : Type 0 where
  pub code : ErrorCode
  pub message : String
  pub request_id : String

-- `HTTPStatus`
unfoldable pub http_status : ErrorCode → ℕ
http_status invalid = 400
http_status unauthorized = 401
http_status forbidden = 403
http_status not_found = 404
http_status conflict = 409
http_status unavailable = 503
http_status partial = 207
http_status _ = 500

-- What `errors.As` makes of an error: none, one of the API, or another.
pub data Failure : Type 0 where
  no_error other_error : Failure
  api_error : ApiError → Failure

unfoldable pub exit_of_code : ErrorCode → ℕ
exit_of_code invalid = 2
exit_of_code unauthorized = 3
exit_of_code forbidden = 3
exit_of_code not_found = 4
exit_of_code conflict = 5
exit_of_code unavailable = 6
exit_of_code partial = 7
exit_of_code _ = 1

-- `ExitCode`
unfoldable pub exit_code : Failure → ℕ
unfolding exit_of_code
exit_code no_error = 0
exit_code other_error = 1
exit_code (api_error e) = exit_of_code e.code

pub record Page : Type 0 where
  pub number : ℤ
  pub size : ℤ

abbrev at_least_one : ℤ → ℤ → ℤ
at_least_one n default = if ltb_ℤ n (pos 1) then default else n

-- `NormalizePage`
unfoldable pub normalize_page : ℤ → ℤ → ℤ → Page
normalize_page number size maximum =
    let most = at_least_one maximum (pos 100) in
    let wanted = at_least_one size (pos 50) in
    record {
      number = at_least_one number (pos 1);
      size = if ltb_ℤ most wanted then most else wanted;
    }

-- `Confirm`
unfoldable pub confirm : String → String → Bool
confirm expected actual = not (str_eq expected "") && str_eq actual expected

-- `ContainsRune("._:-", r)` and the letters and digits
abbrev key_char : ℕ → Bool
key_char c =
    is_lower c
    || leb 0x41 c && leb c 0x5a
    || is_digit c
    || c == 0x2e
    || c == 0x5f
    || c == 0x3a
    || c == 0x2d

unfoldable pub key_chars : String → Bool
key_chars String.[] = true
key_chars (String.◌∷◌ c s) = key_char (code c) && key_chars s

-- `ValidKey`
unfoldable pub valid_key : String → Bool
unfolding key_chars
valid_key value = not (ltb (len value) 8 || ltb 128 (len value)) && key_chars value
