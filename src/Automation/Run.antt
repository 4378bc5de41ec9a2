-- ===== src/Automation/Run.antt =====
-- The run of an operation: its request, the response, and the session that is kept
-- (automation/automation.go).
use Prim.Native.String.{String, len, slice, ◌++◌ as append_str}
use gantry_core.Base.{
  ℕ, ◌==◌, leb, ltb, Bool, true, false, ◌&&◌, ◌||◌, not, if◌then◌else◌, Option, none, some, List,
  [], ◌∷◌, ◌++◌, str_eq, Assoc, insert,
}
use gantry_core.Base.Int.{ℤ}
use gantry_core.Base.Result.{Result, ok, err, ◌>>=◌, ◌>>◌, guard}
use gantry_core.Base.Text.{trim_space, trim_slashes}
use gantry_core.Command.{Invocation, CliError, help, parse}
use gantry_core.Contracts.{Contract, Cli}
use gantry_core.Protocol.Redact.{JsonCodec}
use gantry_core.Automation.Address.{UrlTools, route_url}
use gantry_core.Automation.Files.{
  FileSystem, FileError, not_exist, SessionFile, max_body, read_input, read_protected_file,
  read_secret,
}
use gantry_core.Automation.Output.{redact_output, find_csrf, exit_for_status}

pub record Options : Type 0 where
  pub default_url : String
  pub cookie_name : String
  pub csrf_header : String
  pub csrf_fields : List String
  pub session_info_path : String

pub record Request : Type 0 where
  pub method : String
  pub url : String
  pub headers : Assoc String
  pub cookies : List (String × String)
  pub body : String

-- `body` is absent where reading it fails.
pub record Response : Type 0 where
  pub status : ℕ
  pub body : Option String
  pub cookies : List (String × String)

-- What the run uses of its surroundings: the tools of the standard library, the files, and the server,
-- whose answer depends on the request.
pub record World : Type 0 where
  pub parse_duration : String → Option ℤ
  pub urls : UrlTools
  pub codec : JsonCodec
  pub parse_session : String → Option SessionFile
  pub indent : String → Option String
  pub request_valid : String → String → Bool
  pub files : FileSystem
  pub send : Request → Option Response

-- `find`
unfoldable pub is_command : String → String → Option Cli → Bool
is_command resource verb none = false
is_command resource verb (some c) = str_eq c.resource resource && str_eq c.verb verb

unfoldable pub find_contract : List Contract → String → String → Option Contract
unfolding is_command
find_contract [] resource verb = none
find_contract (c ∷ cs) resource verb =
    let rest = find_contract cs resource verb in
    if is_command resource verb c.cli then some c else rest

-- `ok && c.CLI != nil && c.CLI.Implemented`
abbrev pub implemented : Option Cli → Bool
implemented none = false
implemented (some c) = c.implemented

unfoldable pub supported : Option Contract → Result ℕ Contract
supported none = err 2
supported (some c) = guard (implemented c.cli) 2 >> ok c

-- An error ends the run with an exit code.
unfoldable pub or_exit {ℓ} : {E : Type 0} {A : Type ℓ} → ℕ → Result E A → Result ℕ A
or_exit code (ok a) = ok a
or_exit code (err e) = err code

abbrev exit_of : CliError → ℕ
exit_of help = 0
exit_of _ = 2

unfoldable pub parsed : Result CliError Invocation → Result ℕ Invocation
parsed (ok i) = ok i
parsed (err e) = err (exit_of e)

abbrev pub first_of : String → String → String
first_of a b = if str_eq a "" then b else a

abbrev pub set : String → String → Request → Request
set name value r = record r { headers = insert name value r.headers }

-- The headers that the invocation and the contract ask for.
unfoldable pub with_headers : Invocation → Contract → Request → Request
unfolding insert
with_headers inv c r =
    let accepted = set "Accept" "application/json" r in
    let typed =
      if len r.body == 0 then accepted else set "Content-Type" "application/json" accepted in
    let numbered = set "X-Request-ID" inv.request_id typed in
    let keyed = set "Idempotency-Key" inv.request_id numbered in
    if str_eq inv.request_id "" then typed else if c.idempotency.supported then keyed else numbered

unfoldable pub with_token : FileSystem → Invocation → Request → Result ℕ Request
unfolding read_secret insert
with_token fs inv r =
    if str_eq inv.token_file ""
    then ok r
    else (or_exit 3 (read_secret fs inv.token_file) >>= λ token.
        ok (set "Authorization" (append_str "Bearer " token) r))

unfoldable pub session_read : Option SessionFile → Result ℕ SessionFile
session_read none = err 3
session_read (some s) = guard (not (str_eq s.cookie "")) 3 >> ok s

abbrev pub no_session : SessionFile
no_session = record { cookie = ""; csrf = "" }

unfoldable pub with_cookie : Options → Contract → Request → SessionFile → Request
unfolding insert
with_cookie o c r s =
    let carried = record r { cookies = r.cookies ++ ((o.cookie_name, s.cookie) ∷ []) } in
    let protected = set o.csrf_header s.csrf carried in
    if not (str_eq s.csrf "") && not (str_eq o.csrf_header "") && not (str_eq c.kind "read")
    then protected
    else carried

-- What is done with the contents of the session file, or with the error of reading it.
unfoldable pub with_session_file :
    (String → Option SessionFile)
    → Options
    → Contract
    → Request
    → Result FileError String
    → Result ℕ (Request × SessionFile)
unfolding session_read with_cookie
with_session_file parse_session o c r (ok text) = do
  s ← session_read (parse_session text)
  _ ← guard (not (str_eq o.cookie_name "")) 3
  ok (with_cookie o c r s, s)
with_session_file parse_session o c r (err not_exist) =
    guard (str_eq c.authorization.boundary "public") 3 >> ok (r, no_session)
with_session_file parse_session o c r (err e) = err 3

unfoldable pub with_session :
    World → Options → Invocation → Contract → Request → Result ℕ (Request × SessionFile)
unfolding with_session_file read_protected_file
with_session w o inv c r =
    if str_eq inv.session_file ""
    then ok (r, no_session)
    else with_session_file w.parse_session o c r (read_protected_file w.files inv.session_file)

pub record Prepared : Type 0 where
  pub inv : Invocation
  pub contract : Contract
  pub base : String
  pub request : Request
  pub loaded : SessionFile

abbrev pub bare_request : Contract → String → String → Request
bare_request c endpoint body = record {
  method = c.route.method;
  url = endpoint;
  headers = [];
  cookies = [];
  body = body;
}

abbrev pub prepared : Invocation → Contract → String → Request × SessionFile → Prepared
prepared inv c base both = record {
  inv = inv;
  contract = c;
  base = base;
  request = both.0;
  loaded = both.1;
}

-- `Run` up to the request, where the error is the exit code.
unfoldable pub prepare : World → List String → List Contract → Options → Result ℕ Prepared
unfolding parsed parse supported find_contract or_exit route_url read_input with_headers with_token
    with_session
prepare w args contracts o = do
  inv ← parsed (parse w.parse_duration args)
  c ← supported (find_contract contracts inv.resource inv.verb)
  _ ← guard (not (str_eq c.kind "destructive" && not inv.confirm)) 2
  _ ← guard (not (str_eq (first_of inv.url o.default_url) "")) 2
  endpoint ←
      or_exit 2
        (route_url w.urls (first_of inv.url o.default_url) c.route.path inv.arguments inv.query)
  body ← or_exit 2 (read_input w.codec w.files inv.input)
  _ ← guard (w.request_valid c.route.method endpoint) 1
  r ← with_token w.files inv (with_headers inv c (bare_request c endpoint body))
  both ← with_session w o inv c r
  ok (prepared inv c (first_of inv.url o.default_url) both)

-- What a run leaves: the requests it sent, the sessions it saved, what it printed, and its exit code.
pub record Ran : Type 0 where
  pub requests : List Request
  pub saved : List (String × SessionFile)
  pub printed : Option String
  pub exit : ℕ

abbrev in_2xx : ℕ → Bool
in_2xx status = leb 200 status && ltb status 300

unfoldable pub csrf_in_body : World → Options → ℕ → Option String → String
unfolding find_csrf
csrf_in_body w o status none = ""
csrf_in_body w o status (some raw) =
    if in_2xx status then find_csrf w.codec (slice raw 0 max_body) o.csrf_fields else ""

unfoldable pub csrf_in : World → Options → Option Response → String
unfolding csrf_in_body
csrf_in w o none = ""
csrf_in w o (some r) = csrf_in_body w o r.status r.body

-- `fetchCSRF`, with the request that it sends.
unfoldable pub fetch_csrf : World → Options → String → String → List Request × String
unfolding csrf_in insert trim_slashes
fetch_csrf w o base cookie =
    let address = append_str (trim_slashes base) o.session_info_path in
    let r : Request = record {
      method = "GET";
      url = address;
      headers = insert "Accept" "application/json" [];
      cookies = (o.cookie_name, cookie) ∷ [];
      body = "";
    } in
    if w.request_valid "GET" address then (r ∷ [], csrf_in w o (w.send r)) else ([], "")

-- The CSRF token of a new session: of the response, fetched, or the one loaded.
unfoldable pub new_csrf : World → Options → Prepared → String → String → List Request × String
unfolding find_csrf fetch_csrf
new_csrf w o p raw cookie =
    let given = find_csrf w.codec raw o.csrf_fields in
    let (asked, fetched) = fetch_csrf w o p.base cookie in
    if not (str_eq given "")
    then ([], given)
    else if str_eq o.session_info_path ""
    then ([], p.loaded.csrf)
    else (asked, first_of fetched p.loaded.csrf)

-- A session that is saved, or the exit where it cannot be.
unfoldable pub after_save : Option FileError → String × SessionFile → Ran → Ran × Bool
after_save none session ran = (record ran { saved = ran.saved ++ (session ∷ []) }, true)
after_save (some e) session ran = (record ran { exit = 1 }, false)

-- The body of the loop over the cookies of the response.
unfoldable pub save_cookie :
    World → Options → Prepared → String → String × String → Ran → Ran × Bool
unfolding new_csrf after_save
save_cookie w o p raw (name, value) ran =
    let (asked, csrf) = new_csrf w o p raw value in
    let session : SessionFile = record { cookie = value; csrf = csrf } in
    if str_eq name o.cookie_name && not (str_eq value "")
    then after_save (w.files.save_session p.inv.session_file session) (p.inv.session_file, session)
        (record ran { requests = ran.requests ++ asked })
    else (ran, true)

abbrev pub go_on : Ran × Bool → (Ran → Ran × Bool) → Ran × Bool
go_on (ran, false) next = (ran, false)
go_on (ran, true) next = next ran

-- The loop over the cookies of the response.
unfoldable pub save_sessions :
    World → Options → Prepared → String → List (String × String) → Ran → Ran × Bool
unfolding save_cookie
save_sessions w o p raw [] ran = (ran, true)
save_sessions w o p raw (cookie ∷ cookies) ran =
    go_on (save_cookie w o p raw cookie ran) (save_sessions w o p raw cookies)

abbrev indented : String → Option String → String
indented raw none = raw
indented raw (some pretty) = pretty

-- The text printed, without the newline that ends it.
unfoldable pub rendered : World → Invocation → String → String
unfolding trim_space
rendered w inv raw =
    if str_eq inv.output "json" then trim_space raw else indented raw (w.indent raw)

-- `Run` after the sessions are saved.
unfoldable pub print_response : World → Prepared → Response → String → Ran × Bool → Ran
unfolding redact_output rendered exit_for_status
print_response w p response raw (ran, false) = ran
print_response w p response raw (ran, true) =
    let shown = redact_output w.codec raw p.contract.secret_outputs in
    record ran {
      printed = if p.inv.quiet || len shown == 0 then none else some (rendered w p.inv shown);
      exit = exit_for_status response.status;
    }

unfoldable pub with_body : World → Options → Prepared → Response → Option String → Ran → Ran
unfolding save_sessions print_response
with_body w o p response none ran = record ran { exit = 1 }
with_body w o p response (some raw) ran =
    if not (leb (len raw) max_body)
    then record ran { exit = 1 }
    else print_response w p response raw (
        if str_eq p.inv.session_file "" || str_eq o.cookie_name ""
        then (ran, true)
        else save_sessions w o p raw response.cookies ran)

unfoldable pub with_response : World → Options → Prepared → Option Response → Ran → Ran
unfolding with_body
with_response w o p none ran = record ran { exit = 6 }
with_response w o p (some response) ran = with_body w o p response response.body ran

-- `Run` from the request on.
unfoldable pub run_prepared : World → Options → Result ℕ Prepared → Ran
unfolding with_response
run_prepared w o (err code) = record { requests = []; saved = []; printed = none; exit = code }
run_prepared w o (ok p) =
    with_response w o p (w.send p.request)
      (record { requests = p.request ∷ []; saved = []; printed = none; exit = 0 })

-- `Run`
unfoldable pub run : World → List String → List Contract → Options → Ran
unfolding prepare run_prepared
run w args contracts o = run_prepared w o (prepare w args contracts o)
