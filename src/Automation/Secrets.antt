-- ===== src/Automation/Secrets.antt =====
-- What a run shows of a response with secrets.
use Prim.Native.String.{String}
use Prim.Native.String.append
use text.Mathlib.Text.{starts_with}
use text.Mathlib.TextEquality.{starts_with_iff}
use gantry_core.Base.{
  ◌≡◌, refl, ap, sym, subst, ◌∙◌, true, ◌||◌, not, some, List, [], ◌∷◌, ◌++◌, str_eq, is_some, All,
  arith,
}
use gantry_core.Base.Result.{ok, Holds, Holds->>=, Holds-guard, Holds-test, Holds-self, Holds-ok}
use gantry_core.Base.Int.{eq_ℤ}
use gantry_core.Contracts.{
  Contract, schema_version, validate_contract, validate_route, validate_authorization,
  pointers_valid, id_matches, cli_words,
}
use gantry_core.Protocol.Redact.{
  Json, JsonCodec, WritesBack, pointer_parts, redact_at, redact_all, redact,
}
use gantry_core.Protocol.Hidden.{Hidden, redact-hides}
use gantry_core.Automation.Output.{redact_output, redact_value, encode_redacted}

pointers_valid-append :
    (seen xs ys : List String)
    → pointers_valid seen (xs ++ ys) ≡ true
    → All (λ p. starts_with p "/" ≡ true) ys
unfolding pointers_valid
pointers_valid-append seen [] [] h = tt
pointers_valid-append seen [] (y ∷ ys) h =
    (ground (arith, h), pointers_valid-append (y ∷ seen) [] ys (ground (arith, h)))
pointers_valid-append seen (x ∷ xs) ys h =
    pointers_valid-append (x ∷ seen) xs ys (ground (arith, h))

-- The pointers of a valid contract start with a slash.
validate_contract-slashes :
    (c : Contract)
    → Holds (λ _. All (λ p. starts_with p "/" ≡ true) c.secret_outputs) (validate_contract c)
unfolding validate_contract
validate_contract-slashes c = Holds-guard (eq_ℤ c.schema_version schema_version) _ _ (λ _.
    Holds-guard (id_matches c.id) _ _ (λ _.
      Holds-guard (str_eq c.kind "read" || str_eq c.kind "mutation" || str_eq c.kind "destructive")
        _ _
        (λ _. Holds->>= _ (Holds-self (validate_route c.route)) (λ _ _.
          Holds-guard (is_some c.cli || not (str_eq c.automation "automatable")) _ _ (λ _.
            Holds-guard (cli_words c.cli) _ _ (λ _.
              Holds->>= _ (Holds-self (validate_authorization c.authorization)) (λ _ _.
                Holds-guard (str_eq c.kind "read" || c.audit.required) _ _ (λ _.
                  Holds-guard (not c.audit.required || id_matches c.audit.event) _ _ (λ _.
                    Holds-guard (not c.idempotency.required || c.idempotency.supported) _ _ (λ _.
                      Holds-guard
                        (not c.idempotency.retry_safe
                          || c.idempotency.supported
                          || str_eq c.kind "read")
                        _ _
                        (λ _.
                          Holds-guard
                            (str_eq c.automation "automatable"
                              || str_eq c.automation "browser-protocol"
                              || str_eq c.automation "streaming-protocol"
                              || str_eq c.automation "service-protocol")
                            _ _
                            (λ _.
                              Holds-test (pointers_valid [] (c.secret_inputs ++ c.secret_outputs)) _
                                (pointers_valid-append [] c.secret_inputs
                                  c.secret_outputs)))))))))))))

pointer_parts-slash :
    (p : String) → starts_with p "/" ≡ true → (parts : List String) × (pointer_parts p ≡ ok parts)
unfolding pointer_parts
pointer_parts-slash p h =
    let (u, e) = (starts_with_iff p "/").0 h in
    subst (λ q. (parts : List String) × (pointer_parts q ≡ ok parts))
      (sym (append.cons "/" "" u ∙ ap (String.◌∷◌ "/") (append.nil u)) ∙ e) (_, refl)

redact_all-ok :
    (pointers : List String) (v : Json)
    → All (λ p. starts_with p "/" ≡ true) pointers
    → (w : Json) × (redact_all pointers v ≡ ok w)
unfolding redact_all
redact_all-ok [] v all = (v, refl)
redact_all-ok (p ∷ ps) v (slash, all) =
    let (parts, e) = pointer_parts-slash p slash in
    let (w, done) = redact_all-ok ps (redact_at parts v) all in (w, rw e done)

redact-ok :
    (codec : JsonCodec) (v w : Json) (pointers : List String)
    → WritesBack codec v
    → redact_all pointers v ≡ ok w
    → redact codec v pointers ≡ ok w
unfolding redact
redact-ok codec v w pointers back done = rw back.written (rw back.read done)

shown-Hidden :
    (codec : JsonCodec) (raw : String) (v : Json) (pointers : List String)
    → WritesBack codec v
    → ((w : Json) → redact_all pointers v ≡ ok w → WritesBack codec w)
    → codec.unmarshal raw ≡ some v
    → All (λ p. starts_with p "/" ≡ true) pointers
    → (w : Json) × (codec.unmarshal (redact_output codec raw pointers) ≡ some w)
      × All (Hidden w) pointers
unfolding redact_output redact_value encode_redacted
shown-Hidden codec raw v [] back again json slashes = (v, json, tt)
shown-Hidden codec raw v (p ∷ ps) back again json slashes =
    let (w, done) = redact_all-ok (p ∷ ps) v slashes in
    let redacted = redact-ok codec v w (p ∷ ps) back done in
    let shown = again w done in
    (
      w,
      rw json (rw redacted (rw shown.written shown.read)),
      Holds-ok w (redact-hides codec v (p ∷ ps)) redacted,
    )

-- The secrets of a contract that is valid are not shown: a JSON response is made into JSON in which
-- the place of every secret output is missing or holds the mark. The value of the response and what
-- the redaction makes of it are written and read back as they are.
pub redact_output-hides :
    (codec : JsonCodec) (c : Contract) (raw : String) (v : Json)
    → validate_contract c ≡ ok tt
    → codec.unmarshal raw ≡ some v
    → WritesBack codec v
    → ((w : Json) → redact_all c.secret_outputs v ≡ ok w → WritesBack codec w)
    → (w : Json) × (codec.unmarshal (redact_output codec raw c.secret_outputs) ≡ some w)
      × All (Hidden w) c.secret_outputs
redact_output-hides codec c raw v valid json back again =
    shown-Hidden codec raw v c.secret_outputs back again json
      (Holds-ok tt (validate_contract-slashes c) valid)
