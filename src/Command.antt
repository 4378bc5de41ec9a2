-- ===== src/Command.antt =====
-- The grammar of command lines (cli/cli.go). `time.ParseDuration` is a parameter; durations are
-- nanoseconds.
pub mod Formed
use Prim.Native.Char.{code}
use Prim.Native.String.{String, len}
use text.Mathlib.Text.{starts_with}
use gantry_core.Base.{
  ℕ, ◌*◌, ltb, Bool, true, false, ◌&&◌, ◌||◌, not, if◌then◌else◌, Option, none, some, List, [], ◌∷◌,
  ◌++◌, str_eq,
}
use gantry_core.Base.Int.{ℤ, pos, negsuc}
use gantry_core.Base.Pattern.{is_lower, is_word}
use gantry_core.Base.Result.{Result, ok, err, ◌>>=◌, ◌>>◌, guard}
use gantry_core.Base.Text.{cut_at, trim_slashes, drop_chars}
use gantry_core.Protocol.Redact.{atoi_index}

pub record Invocation : Type 0 where
  pub resource : String
  pub verb : String
  pub arguments : List String
  pub input : String
  pub output : String
  pub quiet : Bool
  pub confirm : Bool
  pub timeout : ℕ
  pub request_id : String
  pub url : String
  pub token_file : String
  pub session_file : String
  pub query : List String

pub data CliError : Type 0 where
  help json_conflict output_conflict output_invalid value_missing option_unknown : CliError
  words_missing words_invalid timeout_invalid request_id_invalid url_invalid : CliError
  token_stdin token_conflict query_invalid session_stdin session_conflict : CliError

-- What the loop of `Parse` changes.
pub record Parsing : Type 0 where
  pub inv : Invocation
  pub positionals : List String

-- An argument ends the parse, is done with, or needs the next argument as its value.
pub data Arg : Type 0 where
  stops : CliError → Arg
  goes : Parsing → Arg
  needs_output : Arg
  needs_value : String → Arg

-- `takesValue`
unfoldable pub takes_value : String → Bool
unfolding cut_at
takes_value arg =
    let name = (cut_at 0x3d arg).0 in
    str_eq name "--input"
    || str_eq name "--timeout"
    || str_eq name "--request-id"
    || str_eq name "--url"
    || str_eq name "--token-file"
    || str_eq name "--session-file"
    || str_eq name "--query"

-- `setOutput`
unfoldable pub set_output : String → Parsing → Result CliError Parsing
set_output value p =
    guard (str_eq value "table" || str_eq value "json" || str_eq value "plain") output_invalid
    >> guard (not (str_eq p.inv.output "json" && not (str_eq value "json"))) output_conflict
    >> ok (record p { inv = record p.inv { output = value } })

-- `err != nil || duration <= 0`
unfoldable pub positive_duration : Option ℤ → Result CliError ℕ
positive_duration none = err timeout_invalid
positive_duration (some (negsuc n)) = err timeout_invalid
positive_duration (some (pos n)) = guard (ltb 0 n) timeout_invalid >> ok n

-- `flagValue`, on the argument that follows, if one does.
unfoldable pub flag_value : String → Result CliError String
flag_value v = guard (not (starts_with v "-" && not (str_eq v "-"))) value_missing >> ok v

unfoldable pub is_query : String × String × Bool → Bool
is_query (key, value, has_equals) = has_equals && not (str_eq key "")

-- `word`: the characters after the first may be digits and dashes.
unfoldable pub word_rest : String → Bool
word_rest String.[] = true
word_rest (String.◌∷◌ c s) = is_word (code c) && word_rest s

unfoldable pub word : String → Bool
unfolding word_rest
word String.[] = false
word (String.◌∷◌ c s) = is_lower (code c) && word_rest s

-- What `Parse` does after the loop.
unfoldable pub finish_parse : Invocation → List String → Result CliError Invocation
unfolding word
finish_parse inv (resource ∷ verb ∷ arguments) =
    guard (word resource && word verb) words_invalid
    >> ok (record inv {
      resource = resource;
      verb = verb;
      arguments = arguments;
      output = if inv.quiet && str_eq inv.output "table" then "plain" else inv.output;
    })
finish_parse inv _ = err words_missing

abbrev pub blank : Invocation
blank = record {
  resource = "";
  verb = "";
  arguments = [];
  input = "";
  output = "table";
  quiet = false;
  confirm = false;
  timeout = 30 * 1_000_000_000;
  request_id = "";
  url = "";
  token_file = "";
  session_file = "";
  query = [];
}

module _ (parse_duration : String → Option ℤ) where
  -- `applyValue`
  unfoldable pub apply_value : String → String → Parsing → Result CliError Parsing
  unfolding positive_duration is_query cut_at trim_slashes
  apply_value name value p =
      if str_eq name "--input"
      then ok (record p { inv = record p.inv { input = value } })
      else if str_eq name "--timeout"
      then (positive_duration (parse_duration value) >>= λ d.
          ok (record p { inv = record p.inv { timeout = d } }))
      else if str_eq name "--request-id"
      then guard (not (ltb 128 (len value) || str_eq value "")) request_id_invalid
        >> ok (record p { inv = record p.inv { request_id = value } })
      else if str_eq name "--url"
      then guard
          (starts_with (trim_slashes value) "http://"
            || starts_with (trim_slashes value) "https://")
          url_invalid
        >> ok (record p { inv = record p.inv { url = trim_slashes value } })
      else if str_eq name "--token-file"
      then guard (not (str_eq value "-")) token_stdin
        >> guard (str_eq p.inv.session_file "") token_conflict
        >> ok (record p { inv = record p.inv { token_file = value } })
      else if str_eq name "--query"
      then guard (is_query (cut_at 0x3d value)) query_invalid
        >> ok (record p { inv = record p.inv { query = p.inv.query ++ (value ∷ []) } })
      else if str_eq name "--session-file"
      then guard (not (str_eq value "-")) session_stdin
        >> guard (str_eq p.inv.token_file "") session_conflict
        >> ok (record p { inv = record p.inv { session_file = value } })
      else err option_unknown

  abbrev pub of_result : Result CliError Parsing → Arg
  of_result (ok p) = goes p
  of_result (err e) = stops e

  -- The `case takesValue(arg)` of the loop.
  unfoldable pub read_value : String × String × Bool → Parsing → Arg
  unfolding apply_value
  read_value (name, inline, true) p = of_result (apply_value name inline p)
  read_value (name, inline, false) p = needs_value name

  -- The `switch` of the loop, on one argument.
  unfoldable pub read_arg : String → Parsing → Arg
  unfolding set_output takes_value read_value
  read_arg arg p =
      if str_eq arg "--help" || str_eq arg "-h"
      then stops help
      else if str_eq arg "--json"
      then of_result (
          guard (str_eq p.inv.output "table" || str_eq p.inv.output "json") json_conflict
          >> ok (record p { inv = record p.inv { output = "json" } }))
      else if str_eq arg "--quiet" || str_eq arg "-q"
      then goes (record p { inv = record p.inv { quiet = true } })
      else if str_eq arg "--yes" || str_eq arg "-y"
      then goes (record p { inv = record p.inv { confirm = true } })
      else if starts_with arg "--output="
      then of_result (set_output (drop_chars 9 arg) p)
      else if str_eq arg "--output"
      then needs_output
      else if takes_value arg
      then read_value (cut_at 0x3d arg) p
      else if starts_with arg "-"
      then stops option_unknown
      else goes (record p { positionals = p.positionals ++ (arg ∷ []) })

  -- What follows an argument, with the next one if there is one.
  unfoldable pub with_value :
      Arg
      → Parsing
      → Option String
      → (Parsing → Result CliError Parsing)
      → (Parsing → Result CliError Parsing)
      → Result CliError Parsing
  unfolding flag_value set_output apply_value
  with_value (stops e) p next go skip = err e
  with_value (goes p') p next go skip = go p'
  with_value needs_output p none go skip = err value_missing
  with_value needs_output p (some v) go skip = flag_value v >>= λ value. set_output value p >>= skip
  with_value (needs_value name) p none go skip = err value_missing
  with_value (needs_value name) p (some v) go skip =
      flag_value v >>= λ value. apply_value name value p >>= skip

  -- The loop of `Parse`.
  unfoldable pub parse_args : List String → Parsing → Result CliError Parsing
  unfolding with_value read_arg
  parse_args [] p = ok p
  parse_args (a ∷ []) p = with_value (read_arg a p) p none ok ok
  parse_args (a ∷ v ∷ rest) p =
      with_value (read_arg a p) p (some v) (λ p'. parse_args (v ∷ rest) p') (parse_args rest)

  -- `Parse`
  unfoldable pub parse : List String → Result CliError Invocation
  unfolding parse_args finish_parse
  parse args = parse_args args (record { inv = blank; positionals = [] }) >>= λ p.
      finish_parse p.inv p.positionals

abbrev below_256 : Option ℕ → Option ℕ
below_256 none = none
below_256 (some n) = if ltb 255 n then none else some n

-- `ParseExitCode`
unfoldable pub parse_exit_code : String → Option ℕ
unfolding atoi_index
parse_exit_code value = below_256 (atoi_index value)
