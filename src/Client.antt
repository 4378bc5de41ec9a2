-- ===== src/Client.antt =====
-- The client that calls operations over HTTP, and the one that calls them in the process
-- (client/client.go). The server, the source of tokens and the parsers of the standard library are
-- parameters.
pub mod Address
pub mod Local
pub mod Retried
mod Tests
use Prim.Native.String.{◌++◌ as append_str}
use gantry_core.Base.{
  ℕ, zero, suc, Bool, true, false, ◌&&◌, ◌||◌, not, if◌then◌else◌, ltb, leb, ◌==◌, String, Option,
  none, some, [], str_eq, Assoc, insert,
}
use gantry_core.Base.Text.{trim_space}
use gantry_core.Base.Result.{Result, ok, err, ◌>>=◌, ◌>>◌, guard}
use gantry_core.Contracts.{Contract, ContractError, validate_contract}
use gantry_core.Protocol.{
  ErrorCode, invalid, unauthorized, forbidden, not_found, conflict, unavailable, internal, ApiError,
  valid_key,
}
use gantry_core.Client.Address.{AddressError, Origin, UrlParts, endpoint}

pub record HttpRequest : Type 0 where
  pub method : String
  pub url : String
  pub headers : Assoc String
  pub body : String

-- The body is what `io.ReadAll` gives of a reader with one byte more than the limit.
pub record HttpResponse : Type 0 where
  pub status : ℕ
  pub body : String
  pub request_id : String

-- `input` is absent, or its JSON, which may not exist.
pub record CallRequest : Type 0 where
  pub path_values : Assoc String
  pub query : Assoc String
  pub input : Option (Option String)
  pub request_id : String
  pub idempotency_key : String

pub data CallError : Type 0 where
  contract_invalid : ContractError → CallError
  address_invalid : AddressError → CallError
  input_unencodable request_invalid context_ended : CallError
  token_failed transport_failed : String → CallError
  api_failed : ApiError → CallError

-- `Client`, with what it uses: a server whose state is an `S`, and outputs in an `O`. `ended` tells
-- whether the context ends in the pause after an attempt.
pub record Client (S O : Type 0) : Type 0 where
  pub base : Origin
  pub maximum : ℕ
  pub max_attempts : ℕ
  pub token : Option (S → Result String String)
  pub send : HttpRequest → S → S × Result String HttpResponse
  pub request_valid : String → String → Bool
  pub size : String → ℕ
  pub decode_error : String → ApiError → ApiError
  pub decode_output : Option (String → Option O)
  pub status_text : ℕ → String
  pub ended : ℕ → Bool

-- `codeForStatus`
unfoldable pub code_for_status : ℕ → ErrorCode
code_for_status n =
    if n == 400 || n == 405 || n == 413 || n == 415 || n == 422
    then invalid
    else if n == 401
    then unauthorized
    else if n == 403
    then forbidden
    else if n == 404
    then not_found
    else if n == 409
    then conflict
    else if n == 502 || n == 503 || n == 504
    then unavailable
    else internal

abbrev is_unavailable : ErrorCode → Bool
is_unavailable unavailable = true
is_unavailable _ = false

-- `retryable`
unfoldable pub retryable : CallError → Bool
retryable (transport_failed e) = true
retryable (api_failed e) = is_unavailable e.code
retryable _ = false

-- `retrySafe`
unfoldable pub retry_safe : Contract → String → Bool
unfolding valid_key
retry_safe contract key =
    str_eq contract.kind "read"
    || contract.idempotency.supported && not (str_eq key "") && valid_key key

abbrev set_unless_empty : String → String → Assoc String → Assoc String
set_unless_empty name value h = if str_eq value "" then h else insert name value h

-- The headers that `callOnce` sets before it asks for a token.
unfoldable pub call_headers : String → CallRequest → Assoc String
unfolding insert
call_headers body call = set_unless_empty "Idempotency-Key" call.idempotency_key (
    set_unless_empty "X-Request-ID" call.request_id (
      if str_eq body ""
      then insert "Accept" "application/json" []
      else insert "Content-Type" "application/json" (insert "Accept" "application/json" [])))

abbrev too_large : ApiError
too_large = record {
  code = unavailable;
  message = "response exceeds the size limit";
  request_id = "";
}

abbrev json_invalid : ApiError
json_invalid = record { code = unavailable; message = "invalid JSON response"; request_id = "" }

unfoldable pub encoded : Option (Option String) → Result CallError String
encoded none = ok ""
encoded (some none) = err input_unencodable
encoded (some (some json)) = ok json

module _ {S O : Type 0} (c : Client S O) where
  unfoldable pub with_token :
      Option (S → Result String String) → S → Assoc String → Result CallError (Assoc String)
  unfolding insert
  with_token none s h = ok h
  with_token (some source) s h = elim (source s) [
    | ok token ↦ ok (insert "Authorization" (append_str "Bearer " token) h)
    | err e ↦ err (token_failed e)
  ]

  unfoldable pub api_error_of : HttpResponse → ApiError
  unfolding code_for_status trim_space
  api_error_of r =
      let read = c.decode_error r.body (record {
        code = code_for_status r.status;
        message = trim_space r.body;
        request_id = r.request_id;
      }) in
      if str_eq read.message "" then record read { message = c.status_text r.status } else read

  unfoldable pub decoded : Option (String → Option O) → HttpResponse → Result CallError (Option O)
  decoded none r = ok none
  decoded (some decode) r =
      if r.status == 204 || c.size r.body == 0 then ok none else (elim (decode r.body) [
        | none ↦ err (api_failed json_invalid)
        | some output ↦ ok (some output)
      ])

  -- `callOnce` from the response on.
  unfoldable pub answered : Result String HttpResponse → Result CallError (Option O)
  unfolding api_error_of decoded
  answered (err e) = err (transport_failed e)
  answered (ok r) =
      if ltb c.maximum (c.size r.body)
      then err (api_failed too_large)
      else if ltb r.status 200 || leb 300 r.status
      then err (api_failed (api_error_of r))
      else decoded c.decode_output r

  unfoldable pub sent :
      String
      → String
      → String
      → S
      → Result CallError (Assoc String)
      → S × Result CallError (Option O)
  unfolding answered
  sent method url body s (err e) = (s, err e)
  sent method url body s (ok headers) =
      let (s', r) =
        c.send (record { method = method; url = url; headers = headers; body = body }) s in
      (s', answered r)

  -- `callOnce`
  unfoldable pub call_once :
      String → String → String → CallRequest → S → S × Result CallError (Option O)
  unfolding sent call_headers with_token
  call_once method url body call s = sent method url body s (
      guard (c.request_valid method url) request_invalid
      >> with_token c.token s (call_headers body call))

  unfoldable pub is_over : ℕ → Result CallError (Option O) → Bool
  unfolding retryable
  is_over left (ok output) = true
  is_over left (err e) = left == 0 || not (retryable e)

  -- The loop of `Call`, on the attempts that are left, the number of the next one, and the error of the
  -- one before.
  unfoldable pub attempts_from :
      (S → S × Result CallError (Option O))
      → ℕ
      → ℕ
      → Result CallError (Option O)
      → S
      → S × Result CallError (Option O)
  unfolding is_over
  attempts_from once zero attempt prior s = (s, prior)
  attempts_from once (suc left) attempt prior s =
      let (s', r) = once s in
      let rest = attempts_from once left (suc attempt) r s' in
      if is_over left r then (s', r) else if c.ended attempt then (s', err context_ended) else rest

  unfoldable pub attempts_for : Contract → CallRequest → ℕ
  unfolding retry_safe
  attempts_for contract request =
      if retry_safe contract request.idempotency_key then c.max_attempts else 1

  unfoldable pub checked : Contract → Result CallError (Unit {0})
  unfolding validate_contract
  checked contract = elim (validate_contract contract) [
    | ok u ↦ ok tt
    | err e ↦ err (contract_invalid e)
  ]

  unfoldable pub addressed : UrlParts → Contract → CallRequest → Result CallError String
  unfolding endpoint
  addressed u contract request =
      elim (endpoint u c.base contract.route.path request.path_values request.query) [
        | ok url ↦ ok url
        | err e ↦ err (address_invalid e)
      ]

  -- `Call` before the loop: the address and the body.
  unfoldable pub prepared : UrlParts → Contract → CallRequest → Result CallError (String × String)
  unfolding checked addressed encoded
  prepared u contract request =
      checked contract
      >> (addressed u contract request >>= λ url.
          (encoded request.input >>= λ body. ok (url, body)))

  unfoldable pub call_prepared :
      Contract
      → CallRequest
      → S
      → Result CallError (String × String)
      → S × Result CallError (Option O)
  unfolding attempts_from attempts_for call_once
  call_prepared contract request s (err e) = (s, err e)
  call_prepared contract request s (ok (url, body)) =
      attempts_from (call_once contract.route.method url body request)
        (attempts_for contract request) 1 (ok none) s

  -- `Call`
  unfoldable pub call : UrlParts → Contract → CallRequest → S → S × Result CallError (Option O)
  unfolding prepared call_prepared
  call u contract request s = call_prepared contract request s (prepared u contract request)
