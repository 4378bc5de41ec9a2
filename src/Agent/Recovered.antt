-- ===== src/Agent/Recovered.antt =====
-- What a run of an agent starts with and what of its output is shown (agent/agent.go:
-- ClassifyProviderError, SanitizeBillingURL, ReconcileRecovered, RunArgs). Lower case and net/url are
-- parameters.
pub mod Joined
use Prim.Native.String.{find, len}
use Prim.Native.Char.{code}
use text.Mathlib.Text.{starts_with}
use gantry_core.Base.{
  ℕ, Bool, true, false, not, ◌&&◌, ◌||◌, if◌then◌else◌, ltb, ◌==◌, String, Option, none, some, List,
  [], ◌∷◌, ◌++◌, str_eq,
}
use gantry_core.Base.Int.{ℤ, pos, eq_ℤ}
use gantry_core.Base.Text.{trim_space}

-- `strings.Contains`, for a part that is not empty.
abbrev contains : String → String → Bool
contains text part = ltb (find text part) (len text)

-- `ClassifyProviderError`
unfoldable pub classify_provider_error : (String → String) → String → String → ℤ → Bool
unfolding trim_space
classify_provider_error lower message error_code status =
    let v = lower (trim_space message) in
    let c = lower (trim_space error_code) in
    eq_ℤ status (pos 402)
    || str_eq c "insufficient_balance"
    || str_eq c "insufficient balance"
    || str_eq c "account_balance_insufficient"
    || str_eq c "billing_insufficient_balance"
    || contains v "insufficient balance"

-- What `url.Parse` reads, with the text of the address.
pub record BillingUrl : Type 0 where
  pub scheme : String
  pub host : String
  pub has_user : Bool
  pub port : String
  pub raw_query : String
  pub fragment : String
  pub hostname : String
  pub path : String
  pub text : String

unfoldable pub has_control : String → Bool
has_control String.[] = false
has_control (String.◌∷◌ c s) = ltb (code c) 0x20 || code c == 0x7f || has_control s

unfoldable pub is_billing : BillingUrl → Bool
is_billing u =
    str_eq u.scheme "https"
    && not (str_eq u.host "")
    && not u.has_user
    && str_eq u.port ""
    && str_eq u.raw_query ""
    && str_eq u.fragment ""
    && str_eq u.hostname "opencode.ai"
    && starts_with u.path "/workspace/"

unfoldable pub billing_text : Option BillingUrl → String
unfolding is_billing
billing_text none = ""
billing_text (some u) = if is_billing u then u.text else ""

-- `SanitizeBillingURL`, with the length in bytes as a parameter.
unfoldable pub sanitize_billing_url : (String → ℕ) → (String → Option BillingUrl) → String → String
unfolding has_control billing_text trim_space
sanitize_billing_url bytes parse_url raw =
    let t = trim_space raw in
    if str_eq t "" || ltb 512 (bytes t) || has_control t then "" else billing_text (parse_url t)

-- What follows a prefix of a text.
unfoldable pub after_prefix : String → String → Option String
after_prefix String.[] t = some t
after_prefix (String.◌∷◌ c p) String.[] = none
after_prefix (String.◌∷◌ c p) (String.◌∷◌ d t) =
    let rest = after_prefix p t in if code c == code d then rest else none

unfoldable pub is_suffix : String → String → Bool
is_suffix s String.[] = str_eq s ""
is_suffix s (String.◌∷◌ c t) = str_eq s (String.◌∷◌ c t) || is_suffix s t

-- The loop over the ends of the streamed text, the longest first. An end that begins inside a rune
-- is the beginning of no text.
unfoldable pub after_overlap : String → String → Option String
unfolding after_prefix
after_overlap String.[] recovered = none
after_overlap (String.◌∷◌ c s) recovered =
    let shorter = after_overlap s recovered in
    elim (after_prefix (String.◌∷◌ c s) recovered) [ some rest ↦ some rest | none ↦ shorter ]

-- From the test for a prefix on, on trimmed texts.
unfoldable pub join_recovered : String → String → String × Bool × Bool
unfolding after_prefix is_suffix after_overlap trim_space
join_recovered streamed recovered = elim (after_prefix streamed recovered) [
  | some rest ↦ (trim_space rest, false, false)
  | none ↦
      if is_suffix streamed recovered
      then (recovered, false, true)
      else (elim (after_overlap streamed recovered) [
        | some rest ↦ (trim_space rest, false, false)
        | none ↦ (recovered, false, false)
      ])
]

unfoldable pub reconcile_trimmed : String → String → String × Bool × Bool
unfolding join_recovered
reconcile_trimmed streamed recovered =
    if str_eq recovered ""
    then ("", true, false)
    else if str_eq streamed ""
    then (recovered, false, false)
    else if str_eq streamed recovered || contains streamed recovered
    then ("", true, false)
    else join_recovered streamed recovered

-- `ReconcileRecovered`: the text to add, whether all was there, and whether it replaces the stream.
unfoldable pub reconcile_recovered : String → String → String × Bool × Bool
unfolding reconcile_trimmed trim_space
reconcile_recovered streamed recovered =
    reconcile_trimmed (trim_space streamed) (trim_space recovered)

unfoldable pub file_args : List String → List String
file_args [] = []
file_args (f ∷ fs) = "--file" ∷ f ∷ file_args fs

abbrev session_args : String → List String
session_args session = if str_eq session "" then [] else "--session" ∷ session ∷ []

-- `RunArgs`
unfoldable pub run_args : String → String → String → List String → String → List String
unfolding file_args trim_space
run_args workspace model_ref session files prompt =
    ("--print-logs" ∷ "--log-level" ∷ "WARN" ∷ "run" ∷ "--format" ∷ "json" ∷ "--auto" ∷ "--dir"
      ∷ workspace ∷ "--model" ∷ model_ref ∷ [])
    ++ (session_args (trim_space session) ++ (file_args files ++ ("--" ∷ prompt ∷ [])))
