-- ===== src/Client/Tests.antt =====
-- Calls of a server whose state is the number of requests it got, and of a handler that counts.
use gantry_core.Base.{
  ◌≡◌, refl, ◌⊎◌, ℕ, ◌+◌, true, false, String, none, some, [], ◌∷◌, Assoc, arith, if◌then◌else◌,
  ◌==◌,
}
use gantry_core.Base.Result.{ok, err}
use gantry_core.Auth.Execution.{Execution, session_required}
use gantry_core.Contracts.Tests.{listing, clearing}
use gantry_core.Client.{Client, CallRequest, transport_failed, call}
use gantry_core.Client.Address.{UrlParts, Origin}
use gantry_core.Client.Local.{Handler, actor_refused, local_call, Handled, local_call-Handled}
use gantry_core.Client.Retried.{Sends, call-Sends}

abbrev origin : Origin
origin = record {
  scheme = "https";
  host = "h";
  has_user = false;
  raw_query = "";
  fragment = "";
  path = "";
}

abbrev parts : UrlParts
parts = record {
  parse_url = λ s. some origin;
  path_escape = λ s. s;
  encode_query = λ q. "";
  render = λ o path query. path;
}

-- The first request is lost.
abbrev flaky : Client ℕ String
flaky = record {
  base = origin;
  maximum = 100;
  max_attempts = 3;
  token = none;
  send = λ r n. (
    n + 1,
    if n == 0 then err "reset" else ok (record { status = 200; body = "ok"; request_id = "" }),
  );
  request_valid = λ method url. true;
  size = λ s. 2;
  decode_error = λ body e. e;
  decode_output = some (λ s. some s);
  status_text = λ n. "";
  ended = λ n. false;
}

abbrev about_seven : CallRequest
about_seven = record {
  path_values = ("id", "7") ∷ [];
  query = [];
  input = none;
  request_id = "";
  idempotency_key = "";
}

abbrev about_all : CallRequest
about_all = record about_seven { path_values = [] }

-- A read is repeated.
reads_again : call flaky parts listing about_seven 0 ≡ (2, ok (some "ok"))
unfolding call
reads_again = refl

-- A deletion without a key is not.
deletes_once : call flaky parts clearing about_all 0 ≡ (1, err (transport_failed "reset"))
unfolding call
deletes_once = refl

call-Sends_example : Sends flaky listing about_seven 0 (call flaky parts listing about_seven 0)
call-Sends_example = call-Sends flaky parts listing about_seven 0 (omega arith)

abbrev by_a_service : Execution
by_a_service = record {
  mode = "local";
  project = "p";
  installation = "i";
  target_node = "";
  actor = record {
    kind = "service";
    project = "p";
    installation = "i";
    subject = "s";
    account_id = "";
    capabilities = [];
    token_scopes = [];
  };
}

abbrev counting : Assoc (Handler ℕ)
counting = ("jobs.list", (λ execution input n. (n + 1, ok "jobs"))) ∷ []

-- Only people have sessions.
no_session :
    local_call listing by_a_service "" counting 0 ≡ (0, err (actor_refused session_required))
unfolding local_call
no_session = refl

local_call-Handled_example :
    ((local_call listing by_a_service "" counting 0).0 ≡ 0)
    ⊎ Handled listing by_a_service "" counting 0 (local_call listing by_a_service "" counting 0)
local_call-Handled_example = local_call-Handled listing by_a_service "" counting 0
