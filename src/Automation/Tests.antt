-- ===== src/Automation/Tests.antt =====
-- Runs of operations at concrete inputs.
use Prim.Native.String.{String}
use gantry_core.Base.{
  ℕ, ◌≡◌, refl, subst, true, false, ◌&&◌, if◌then◌else◌, Option, none, some, List, [], ◌∷◌, str_eq,
  All, lookup, insert,
}
use gantry_core.Base.Int.{pos}
use gantry_core.Base.Result.{ok, err, Holds}
use gantry_core.Base.Text.{trim_space}
use gantry_core.Command.{parse, word}
use gantry_core.Command.Formed.{Formed, parse-Formed}
use gantry_core.Contracts.{Contract, validate_contract}
use gantry_core.Contracts.Tests.{listing, clearing}
use gantry_core.Protocol.Redact.{
  Json, text, object, prop, no_prop, JsonCodec, WritesBack, redact_all,
}
use gantry_core.Protocol.Hidden.{Hidden}
use gantry_core.Automation.Files.{not_exist}
use gantry_core.Automation.Output.{redact_output}
use gantry_core.Automation.Run.{Options, World, run}
use gantry_core.Automation.Sent.{Sent}
use gantry_core.Automation.Secrets.{redact_output-hides}

-- Documents of one member, written as its text.
abbrev member : String → Json
member s = object (prop "token" (text s) no_prop)

abbrev write_member : Json → Option String
write_member (object (prop name (text s) no_prop)) = some s
write_member v = none

abbrev members : JsonCodec
members = record { marshal = write_member; unmarshal = λ s. some (member s) }

abbrev everything : World
everything = record {
  parse_duration = λ s. some (pos 1);
  urls = record {
    path_escape = λ s. s;
    parse_url = λ s. some (record { scheme = "https"; host = "h" });
    with_query = λ s q. s;
  };
  codec = members;
  parse_session = λ s. some (record { cookie = s; csrf = "" });
  indent = λ s. none;
  request_valid = λ method url. true;
  files = record {
    windows = false;
    stat = λ path. if str_eq path "session" then ok 0o600 else err not_exist;
    read_file = λ path. ok "kept";
    read_stdin = ok "";
    save_session = λ path s. none;
  };
  send = λ r. some (record { status = 200; body = some "top secret"; cookies = [] });
}

abbrev options : Options
options = record {
  default_url = "https://h";
  cookie_name = "gantry";
  csrf_header = "X-CSRF";
  csrf_fields = "csrf" ∷ [];
  session_info_path = "";
}

abbrev command_line : List String
command_line = "jobs" ∷ "list" ∷ "7" ∷ "--session-file" ∷ "session" ∷ "--json" ∷ []

abbrev declared : List Contract
declared = listing ∷ clearing ∷ []

runs_open : ℕ
unfolding run parse lookup insert
runs_open = 0

-- The secret is not printed, and the exit code is that of the status.
listed :
    ((run everything command_line declared options).printed ≡ some "[redacted]")
    × ((run everything command_line declared options).exit ≡ 0)
unfolding runs_open trim_space redact_output
listed = (refl, refl)

-- Without --yes nothing destructive is sent.
unconfirmed :
    ((run everything ("jobs" ∷ "clear" ∷ []) declared options).requests ≡ [])
    × ((run everything ("jobs" ∷ "clear" ∷ []) declared options).exit ≡ 2)
unfolding runs_open
unconfirmed = (refl, refl)

parse-Formed_example :
    Holds
      (λ i.
        Formed i
        × (word i.resource ≡ true)
        × (word i.verb ≡ true)
        × ((i.quiet && str_eq i.output "table") ≡ false))
      (parse everything.parse_duration command_line)
parse-Formed_example = parse-Formed everything.parse_duration command_line

back : (s : String) → WritesBack members (member s)
back s = record { as_text = s; written = refl; read = refl }

shown_back :
    (w : Json)
    → redact_all listing.secret_outputs (member "top secret") ≡ ok w
    → WritesBack members w
unfolding redact_all
shown_back w e =
    let same : member "[redacted]" ≡ w = cc in subst (WritesBack members) same (back "[redacted]")

redact_output-hides_example :
    (w : Json) × (members.unmarshal (redact_output members "top secret" listing.secret_outputs)
      ≡ some w)
    × All (Hidden w) listing.secret_outputs
unfolding validate_contract
redact_output-hides_example =
    redact_output-hides members listing "top secret" (member "top secret") refl refl
      (back "top secret") shown_back
