-- ===== src/Client/Local.antt =====
-- Operations that are called in the process (client/client.go: LocalExecutor). A handler changes a
-- state of the product.
use gantry_core.Base.{
  ◌≡◌, refl, sym, ap, ◌∙◌, ◌⊎◌, inl, inr, true, not, String, Option, none, some, Assoc, lookup,
  insert, is_some,
}
use gantry_core.Base.Result.{Result, ok, err, ◌>>◌, guard}
use gantry_core.Auth.Execution.{Execution, ActorError, validate_execution, authorize}
use gantry_core.Auth.Execution.Permitted.{
  succeeds, permitted, runs, authorize-permitted, validate_execution-runs,
}
use gantry_core.Contracts.{Contract, ContractError, validate_contract}
use gantry_core.Protocol.{ApiError, not_found}

pub data LocalError : Type 0 where
  contract_invalid : ContractError → LocalError
  handler_required operation_registered : LocalError
  actor_refused : ActorError → LocalError
  call_failed : ApiError → LocalError
  handler_failed : String → LocalError

abbrev pub Handler : Type 0 → Type 0
Handler S = Execution → String → S → S × Result LocalError String

abbrev not_registered : ApiError
not_registered = record {
  code = not_found;
  message = "operation is not registered";
  request_id = "";
}

module _ {S : Type 0} where
  unfoldable pub add_handler :
      Contract → Option (Handler S) → Assoc (Handler S) → Result LocalError (Assoc (Handler S))
  unfolding lookup insert
  add_handler contract none handlers = err handler_required
  add_handler contract (some handler) handlers =
      guard (not (is_some (lookup contract.id handlers))) operation_registered
      >> ok (insert contract.id handler handlers)

  unfoldable pub register_valid :
      Result ContractError (Unit {0})
      → Result LocalError (Assoc (Handler S))
      → Result LocalError (Assoc (Handler S))
  register_valid (err e) added = err (contract_invalid e)
  register_valid (ok u) added = added

  -- `LocalExecutor.Register`
  unfoldable pub register_handler :
      Contract → Option (Handler S) → Assoc (Handler S) → Result LocalError (Assoc (Handler S))
  unfolding validate_contract register_valid add_handler
  register_handler contract handler handlers =
      register_valid (validate_contract contract) (add_handler contract handler handlers)

  unfoldable pub handle : Option (Handler S) → Execution → String → S → S × Result LocalError String
  handle none execution input s = (s, err (call_failed not_registered))
  handle (some handler) execution input s = handler execution input s

  unfoldable pub unless_refused :
      Result ActorError (Unit {0}) → S → S × Result LocalError String → S × Result LocalError String
  unless_refused (err e) s next = (s, err (actor_refused e))
  unless_refused (ok u) s next = next

  -- `LocalExecutor.Call`
  unfoldable pub local_call :
      Contract → Execution → String → Assoc (Handler S) → S → S × Result LocalError String
  unfolding validate_execution authorize unless_refused handle lookup
  local_call contract execution input handlers s = unless_refused (validate_execution execution) s (
      unless_refused (authorize contract.authorization (some execution.actor)) s
        (handle (lookup contract.id handlers) execution input s))

  -- What lets a handler run, and that it did.
  abbrev pub Handled :
      Contract → Execution → String → Assoc (Handler S) → S → S × Result LocalError String → Type 0
  Handled contract execution input handlers s out =
      (handler : Handler S) × (lookup contract.id handlers ≡ some handler)
      × (runs execution ≡ true)
      × (permitted contract.authorization (some execution.actor) ≡ true)
      × (out ≡ handler execution input s)

  unless_refused-next :
      (r : Result ActorError (Unit {0})) (s : S) (next : S × Result LocalError String)
      → ((unless_refused r s next).0 ≡ s) ⊎ ((succeeds r ≡ true) × (unless_refused r s next ≡ next))
  unfolding unless_refused
  unless_refused-next (err e) s next = inl refl
  unless_refused-next (ok u) s next = inr (refl, refl)

  handle-found :
      (found : Option (Handler S)) (execution : Execution) (input : String) (s : S)
      → ((handle found execution input s).0 ≡ s)
        ⊎ ((handler : Handler S) × (found ≡ some handler)
            × (handle found execution input s ≡ handler execution input s))
  unfolding handle
  handle-found none execution input s = inl refl
  handle-found (some handler) execution input s = inr (handler, refl, refl)

  -- A call in the process leaves the product's state as it was, unless a handler is registered under
  -- the contract's id, the execution runs where it is, and its actor is permitted at the boundary of
  -- the contract; then it does what the handler does.
  pub local_call-Handled :
      (contract : Contract) (execution : Execution) (input : String) (handlers : Assoc (Handler S))
      (s : S)
      → ((local_call contract execution input handlers s).0 ≡ s)
        ⊎ Handled contract execution input handlers s
            (local_call contract execution input handlers s)
  unfolding local_call
  local_call-Handled contract execution input handlers s =
      let found = handle (lookup contract.id handlers) execution input s in
      let allowed =
        unless_refused (authorize contract.authorization (some execution.actor)) s found in
      elim (unless_refused-next (validate_execution execution) s allowed) [
        | inl same ↦ inl same
        | inr (valid, next) ↦
            elim (unless_refused-next (authorize contract.authorization (some execution.actor)) s
              found) [
                | inl same ↦ inl (ap (λ p. p.0) next ∙ same)
                | inr (may, last) ↦
                    elim (handle-found (lookup contract.id handlers) execution input s) [
                      | inl same ↦ inl (ap (λ p. p.0) (next ∙ last) ∙ same)
                      | inr (handler, there, did) ↦ inr (
                        handler,
                        there,
                        sym (validate_execution-runs execution) ∙ valid,
                        sym (authorize-permitted contract.authorization (some execution.actor))
                            ∙ may,
                        next ∙ last ∙ did,
                      )
                    ]
              ]
      ]
