-- ===== src/Automation/Files.antt =====
-- Input, credentials and sessions in files (automation/automation.go).
use Prim.Native.String.{String, len}
use gantry_core.Base.{
  ℕ, ◌*◌, ◌%◌, leb, ◌==◌, Bool, ◌||◌, not, if◌then◌else◌, Option, str_eq, is_some,
}
use gantry_core.Base.Result.{Result, ok, ◌>>=◌, ◌>>◌, guard}
use gantry_core.Base.Text.{trim_space}
use gantry_core.Protocol.Redact.{JsonCodec}

pub data FileError : Type 0 where
  not_exist accessible_by_others too_large not_json credential_empty : FileError
  other_error : String → FileError

pub record SessionFile : Type 0 where
  pub cookie : String
  pub csrf : String

-- The files of the machine, as they are while the command runs: the permission bits, the contents, and
-- what a write to a path comes to.
pub record FileSystem : Type 0 where
  pub windows : Bool
  pub stat : String → Result FileError ℕ
  pub read_file : String → Result FileError String
  pub read_stdin : Result FileError String
  pub save_session : String → SessionFile → Option FileError

-- `maxBody`
abbrev pub max_body : ℕ
max_body = 1024 * 1024

-- `readInput`. The code reads one byte more than it accepts, so it sees that there are more.
unfoldable pub read_input : JsonCodec → FileSystem → String → Result FileError String
read_input codec fs path =
    if str_eq path ""
    then ok ""
    else (if str_eq path "-" then fs.read_stdin else fs.read_file path) >>= λ raw.
        guard (leb (len raw) max_body) too_large
        >> guard (is_some (codec.unmarshal raw)) not_json
        >> ok raw

-- `readProtectedFile`: `perm & 0o077` is the remainder by 64.
unfoldable pub read_protected_file : FileSystem → String → Result FileError String
read_protected_file fs path = do
  perm ← fs.stat path
  _ ← guard (fs.windows || perm % 64 == 0) accessible_by_others
  fs.read_file path

-- `readSecret`
unfoldable pub read_secret : FileSystem → String → Result FileError String
unfolding read_protected_file trim_space
read_secret fs path = do
  raw ← read_protected_file fs path
  _ ← guard (not (str_eq (trim_space raw) "")) credential_empty
  ok (trim_space raw)
