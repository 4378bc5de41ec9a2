-- ===== src/Automation/Allowed.antt =====
-- Which requests a run sends.
use Prim.Native.String.{len, ◌++◌ as append_str}
use gantry_core.Base.{
  ℕ, ◌≡◌, refl, sym, subst, ◌∙◌, inl, inr, ◌==◌, Bool, true, false, Bool-cases, ◌&&◌, ◌||◌, not,
  leb, if◌then◌else◌, String, Option, none, some, List, [], ◌∷◌, ◌++◌, str_eq, is_some, arith,
}
use gantry_core.Base.Result.{
  Result, ok, err, Holds, holds, failed, Holds->>=, Holds-guard, Holds-if, Holds-self,
}
use gantry_core.Command.{Invocation, CliError}
use gantry_core.Command.Formed.{parse-Formed}
use gantry_core.Contracts.{Contract}
use gantry_core.Protocol.Redact.{JsonCodec}
use gantry_core.Automation.Address.{route_url}
use gantry_core.Automation.Files.{
  FileSystem, FileError, not_exist, accessible_by_others, too_large, not_json, credential_empty,
  other_error, SessionFile, max_body, read_input, read_protected_file, read_secret,
}
use gantry_core.Automation.Run.{
  Options, Request, World, Prepared, find_contract, implemented, supported, or_exit, parsed,
  first_of, set, with_headers, with_token, session_read, with_cookie, with_session_file,
  with_session, prepare, bare_request, prepared,
}
use gantry_core.Automation.Declared.{Declares, find_contract-Declares}

abbrev pub no_cookies : List (String × String) → Bool
no_cookies [] = true
no_cookies (c ∷ cs) = false

-- What is known of a request that is ready to be sent.
pub record Allowed (w : World) (contracts : List Contract) (p : Prepared) : Type 0 where
  pub declared : Declares p.inv.resource p.inv.verb contracts p.contract
  pub runnable : implemented p.contract.cli ≡ true
  pub confirmed : (not (str_eq p.contract.kind "destructive") || p.inv.confirm) ≡ true
  pub own_method : p.request.method ≡ p.contract.route.method
  pub one_credential : (str_eq p.inv.token_file "" || no_cookies p.request.cookies) ≡ true
  pub authenticated :
      (str_eq p.inv.session_file ""
        || str_eq p.contract.authorization.boundary "public"
        || not (no_cookies p.request.cookies))
      ≡ true
  pub body_checked :
      (str_eq p.request.body ""
        || leb (len p.request.body) max_body && is_some (w.codec.unmarshal p.request.body))
      ≡ true

parsed-Holds {ℓ} :
    {P : Invocation → Type ℓ} (r : Result CliError Invocation) → Holds P r → Holds P (parsed r)
unfolding parsed
parsed-Holds (ok i) (holds h) = holds h
parsed-Holds (err e) h = failed

supported-Holds :
    (o : Option Contract) → Holds (λ c. (o ≡ some c) × (implemented c.cli ≡ true)) (supported o)
unfolding supported
supported-Holds none = failed
supported-Holds (some c) = Holds-guard (implemented c.cli) _ _ (λ h. holds (refl, h))

or_exit-Holds {ℓ κ} :
    {E : Type 0} {A : Type ℓ} {P : A → Type κ} (code : ℕ) (r : Result E A)
    → Holds P r
    → Holds P (or_exit code r)
unfolding or_exit
or_exit-Holds code (ok a) (holds h) = holds h
or_exit-Holds code (err e) h = failed

read_input-Holds :
    (codec : JsonCodec) (fs : FileSystem) (path : String)
    → Holds
        (λ body.
          (str_eq body "" || leb (len body) max_body && is_some (codec.unmarshal body)) ≡ true)
        (read_input codec fs path)
unfolding read_input
read_input-Holds codec fs path =
    Holds-if (str_eq path "") _ _ (λ _. holds refl)
      (λ _.
        Holds->>= _ (Holds-self (if str_eq path "-" then fs.read_stdin else fs.read_file path))
          (λ raw _. Holds-guard (leb (len raw) max_body) _ _ (λ small.
            Holds-guard (is_some (codec.unmarshal raw)) _ _
              (λ json. holds (ground (arith, small, json))))))

-- Two requests that differ in their headers alone.
record Same (r q : Request) : Type 0 where
  same_method : q.method ≡ r.method
  same_body : q.body ≡ r.body
  same_cookies : q.cookies ≡ r.cookies

unchanged : {r : Request} → Same r r
unchanged = record { same_method = refl; same_body = refl; same_cookies = refl }

Same-set : {r q : Request} (name value : String) → Same r q → Same r (set name value q)
Same-set name value s = record {
  same_method = s.same_method;
  same_body = s.same_body;
  same_cookies = s.same_cookies;
}

Same-if :
    {r : Request} (b : Bool) {x y : Request} → Same r x → Same r y → Same r (if b then x else y)
Same-if true s t = s
Same-if false s t = t

with_headers-Same : (inv : Invocation) (c : Contract) (r : Request) → Same r (with_headers inv c r)
unfolding with_headers
with_headers-Same inv c r = Same-if (str_eq inv.request_id "") typed (
    Same-if c.idempotency.supported
      (Same-set "Idempotency-Key" inv.request_id (Same-set "X-Request-ID" inv.request_id typed))
      (Same-set "X-Request-ID" inv.request_id typed))
  where
    accepted : Same r (set "Accept" "application/json" r)
    accepted = Same-set "Accept" "application/json" unchanged

    typed : Same r (
        if len r.body == 0
        then set "Accept" "application/json" r
        else set "Content-Type" "application/json" (set "Accept" "application/json" r))
    typed = Same-if (len r.body == 0) accepted (Same-set "Content-Type" "application/json" accepted)

with_token-Same :
    (fs : FileSystem) (inv : Invocation) (r : Request) → Holds (Same r) (with_token fs inv r)
unfolding with_token
with_token-Same fs inv r =
    Holds-if (str_eq inv.token_file "") _ _ (λ _. holds (unchanged))
      (λ _.
        Holds->>= _ (Holds-self (or_exit 3 (read_secret fs inv.token_file)))
          (λ token _. holds (Same-set "Authorization" (append_str "Bearer " token) unchanged)))

-- What the session adds to a request without cookies.
record Joined (inv : Invocation) (c : Contract) (r q : Request) : Type 0 where
  joined_method : q.method ≡ r.method
  joined_body : q.body ≡ r.body
  alone : (str_eq inv.session_file "" && not (no_cookies q.cookies)) ≡ false
  given :
      (str_eq inv.session_file ""
        || str_eq c.authorization.boundary "public"
        || not (no_cookies q.cookies))
      ≡ true

with_cookie-carries :
    (o : Options) (c : Contract) (r : Request) (s : SessionFile)
    → ((with_cookie o c r s).method ≡ r.method)
      × ((with_cookie o c r s).body ≡ r.body)
      × ((with_cookie o c r s).cookies ≡ r.cookies ++ ((o.cookie_name, s.cookie) ∷ []))
unfolding with_cookie
with_cookie-carries o c r s =
    elim (Bool-cases
      (not (str_eq s.csrf "") && not (str_eq o.csrf_header "") && not (str_eq c.kind "read"))) [
        | inl e ↦ rw e (refl, refl, refl)
        | inr e ↦ rw e (refl, refl, refl)
      ]

no_cookies-last :
    (xs : List (String × String)) (x : String × String) → no_cookies (xs ++ (x ∷ [])) ≡ false
no_cookies-last [] x = refl
no_cookies-last (y ∷ ys) x = refl

with_session_file-Joined :
    (parse_session : String → Option SessionFile) (o : Options) (inv : Invocation) (c : Contract)
    (r : Request) (text : Result FileError String)
    → r.cookies ≡ []
    → str_eq inv.session_file "" ≡ false
    → Holds (λ (q, s). Joined inv c r q) (with_session_file parse_session o c r text)
unfolding with_session_file
with_session_file-Joined parse_session o inv c r (ok text) bare asked =
    Holds->>= _ (Holds-self (session_read (parse_session text))) (λ s _.
      Holds-guard (not (str_eq o.cookie_name "")) _ _ (λ _.
        let (m, b, k) = with_cookie-carries o c r s in
        holds (record {
          joined_method = m;
          joined_body = b;
          alone = rw asked refl;
          given = rw k (rw (no_cookies-last r.cookies (o.cookie_name, s.cookie)) (ground arith));
        })))
with_session_file-Joined parse_session o inv c r (err not_exist) bare asked =
    Holds-guard (str_eq c.authorization.boundary "public") _ _ (λ open_to_all. holds (record {
      joined_method = refl;
      joined_body = refl;
      alone = rw asked refl;
      given = rw open_to_all (ground arith);
    }))
with_session_file-Joined parse_session o inv c r (err accessible_by_others) bare asked = failed
with_session_file-Joined parse_session o inv c r (err too_large) bare asked = failed
with_session_file-Joined parse_session o inv c r (err not_json) bare asked = failed
with_session_file-Joined parse_session o inv c r (err credential_empty) bare asked = failed
with_session_file-Joined parse_session o inv c r (err (other_error e)) bare asked = failed

with_session-Joined :
    (w : World) (o : Options) (inv : Invocation) (c : Contract) (r : Request)
    → r.cookies ≡ []
    → Holds (λ (q, s). Joined inv c r q) (with_session w o inv c r)
unfolding with_session
with_session-Joined w o inv c r bare =
    Holds-if (str_eq inv.session_file "") _ _
      (λ none_asked. holds (record {
        joined_method = refl;
        joined_body = refl;
        alone = rw bare (ground arith);
        given = rw none_asked refl;
      }))
      (λ asked.
        with_session_file-Joined w.parse_session o inv c r
          (read_protected_file w.files inv.session_file) bare asked)

-- What is ready to be sent is declared by a contract in the list and implemented, was confirmed if it
-- is destructive, has the method of its route and a body that is empty or small JSON, and carries a
-- session cookie only where no token file is named; where a session file is named it carries the
-- cookie unless the operation is public.
pub prepare-Allowed :
    (w : World) (args : List String) (contracts : List Contract) (o : Options)
    → Holds (Allowed w contracts) (prepare w args contracts o)
unfolding prepare
prepare-Allowed w args contracts o =
    Holds->>= _ (parsed-Holds _ (parse-Formed w.parse_duration args)) (λ inv (formed, _, _, _).
      Holds->>= _ (supported-Holds (find_contract contracts inv.resource inv.verb))
        (λ c (declared, runnable).
          Holds-guard (not (str_eq c.kind "destructive" && not inv.confirm)) _ _ (λ confirmed.
            Holds-guard (not (str_eq (first_of inv.url o.default_url) "")) _ _ (λ _.
              Holds->>= _
                (Holds-self (
                  or_exit 2 (
                    route_url w.urls (first_of inv.url o.default_url) c.route.path inv.arguments
                      inv.query)))
                (λ endpoint _.
                  Holds->>= _ (or_exit-Holds 2 _ (read_input-Holds w.codec w.files inv.input))
                    (λ body checked. Holds-guard (w.request_valid c.route.method endpoint) _ _ (λ _.
                      Holds->>= _
                        (with_token-Same w.files inv
                          (with_headers inv c (bare_request c endpoint body)))
                        (λ r same.
                          Holds->>= _
                            (with_session-Joined w o inv c r (
                              same.same_cookies
                              ∙ (with_headers-Same inv c
                                  (bare_request c endpoint body)).same_cookies))
                            (λ both joined.
                              holds {a = prepared inv c (first_of inv.url o.default_url) both}
                                (record {
                                  declared =
                                      find_contract-Declares contracts inv.resource inv.verb c
                                        declared;
                                  runnable = runnable;
                                  confirmed = ground (arith, confirmed);
                                  own_method =
                                      joined.joined_method
                                      ∙ same.same_method
                                      ∙ (with_headers-Same inv c
                                          (bare_request c endpoint body)).same_method;
                                  one_credential =
                                      ground (arith, formed.one_credential, joined.alone);
                                  authenticated = joined.given;
                                  body_checked =
                                      subst
                                        (λ b.
                                          (str_eq b ""
                                            || leb (len b) max_body
                                              && is_some (w.codec.unmarshal b))
                                          ≡ true)
                                        (sym (
                                          joined.joined_body
                                          ∙ same.same_body
                                          ∙ (with_headers-Same inv c
                                              (bare_request c endpoint body)).same_body))
                                        checked;
                                }))))))))))
