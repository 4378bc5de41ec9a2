-- ===== src/Automation/Output.antt =====
-- What a response is made into: its secrets redacted, its CSRF token, and the exit code
-- (automation/automation.go).
use Prim.Native.String.{String}
use gantry_core.Base.{
  ℕ, leb, ltb, ◌==◌, Bool, true, false, ◌&&◌, ◌||◌, if◌then◌else◌, Option, none, some, List, [],
  ◌∷◌, str_eq,
}
use gantry_core.Base.Result.{Result, ok, err}
use gantry_core.Protocol.Redact.{
  Json, text, object, Props, no_prop, prop, JsonCodec, RedactError, redact,
}

abbrev is_none_left : List String → Bool
is_none_left [] = true
is_none_left (x ∷ xs) = false

abbrev or_data : String → Option String → String
or_data raw none = raw
or_data raw (some encoded) = encoded

unfoldable pub encode_redacted : JsonCodec → String → Result RedactError Json → String
encode_redacted codec raw (err e) = raw
encode_redacted codec raw (ok v) = or_data raw (codec.marshal v)

unfoldable pub redact_value : JsonCodec → String → List String → Option Json → String
unfolding encode_redacted redact
redact_value codec raw pointers none = raw
redact_value codec raw pointers (some v) = encode_redacted codec raw (redact codec v pointers)

-- `redactOutput`
unfoldable pub redact_output : JsonCodec → String → List String → String
unfolding redact_value
redact_output codec raw pointers =
    if is_none_left pointers then raw else redact_value codec raw pointers (codec.unmarshal raw)

-- `v[f].(string)`, empty where it is no text.
unfoldable pub text_prop : String → Props → String
text_prop name no_prop = ""
text_prop name (prop k (text s) ps) =
    let rest = text_prop name ps in if str_eq k name then s else rest
text_prop name (prop k v ps) = let rest = text_prop name ps in if str_eq k name then "" else rest

unfoldable pub first_text : List String → Props → String
unfolding text_prop
first_text [] ps = ""
first_text (f ∷ fs) ps =
    let rest = first_text fs ps in if str_eq (text_prop f ps) "" then rest else text_prop f ps

unfoldable pub csrf_of : List String → Option Json → String
unfolding first_text
csrf_of fields (some (object ps)) = first_text fields ps
csrf_of fields _ = ""

-- `findCSRF`
unfoldable pub find_csrf : JsonCodec → String → List String → String
unfolding csrf_of
find_csrf codec raw fields = csrf_of fields (codec.unmarshal raw)

-- `exitForStatus`
unfoldable pub exit_for_status : ℕ → ℕ
exit_for_status status =
    if leb 200 status && ltb status 300
    then 0
    else if status == 401 || status == 403
    then 3
    else if status == 404
    then 4
    else if status == 409
    then 5
    else if status == 502 || status == 503 || status == 504
    then 6
    else 1
