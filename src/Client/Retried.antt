-- ===== src/Client/Retried.antt =====
-- What a call sends.
use gantry_core.Base.{
  ◌≡◌, refl, ◌⊎◌, inl, inr, ℕ, zero, suc, ◌≤◌, Bool, true, false, ◌&&◌, ◌||◌, if◌then◌else◌, ◌==◌,
  Bool-cases, String, Option, none, str_eq, arith,
}
use gantry_core.Base.Result.{Result, ok, err}
use gantry_core.Contracts.{Contract}
use gantry_core.Protocol.{ApiError, unavailable, valid_key}
use gantry_core.Client.{
  Client, CallRequest, CallError, contract_invalid, address_invalid, input_unencodable,
  request_invalid, token_failed, transport_failed, api_failed, context_ended, retryable, retry_safe,
  call_once, is_over, attempts_from, attempts_for, prepared, call_prepared, call,
}
use gantry_core.Client.Address.{UrlParts}

-- The errors after which one tries again: of the transport, and those that the interface calls
-- unavailable, be it that the server says so by its status or in its answer, or that the answer is
-- larger than the client takes or no JSON.
pub data IsTemporary : CallError → Type 0 where
  of_transport : {e : String} → IsTemporary (transport_failed e)
  is_unavailable : {e : ApiError} → e.code ≡ unavailable → IsTemporary (api_failed e)

code-unavailable : (e : ApiError) → retryable (api_failed e) ≡ true → e.code ≡ unavailable
unfolding retryable
code-unavailable e h = ground (arith, h)

retryable-IsTemporary : (e : CallError) → retryable e ≡ true → IsTemporary e
unfolding retryable
retryable-IsTemporary (transport_failed e) h = of_transport
retryable-IsTemporary (api_failed e) h = is_unavailable (code-unavailable e h)
retryable-IsTemporary (contract_invalid e) h = absurd (cc)
retryable-IsTemporary (address_invalid e) h = absurd (cc)
retryable-IsTemporary (token_failed e) h = absurd (cc)
retryable-IsTemporary input_unencodable h = absurd (cc)
retryable-IsTemporary request_invalid h = absurd (cc)
retryable-IsTemporary context_ended h = absurd (cc)

-- Attempts one after the other, as many as the number says. Each but the last ended in an error after
-- which one tries again.
pub data Tries {S R : Type 0} (once : S → S × Result CallError R)
    : S → ℕ → S × Result CallError R → Type 0 where
  last_try : {s : S} → Tries once s 1 (once s)
  stopped :
      {s : S} {e : CallError}
      → (once s).1 ≡ err e
      → IsTemporary e
      → Tries once s 1 ((once s).0, err context_ended)
  try_again :
      {s : S} {n : ℕ} {out : S × Result CallError R} {e : CallError}
      → (once s).1 ≡ err e
      → IsTemporary e
      → Tries once (once s).0 n out
      → Tries once s (suc n) out

-- A read, or a request whose key makes it safe to repeat.
abbrev pub may_repeat : Contract → CallRequest → Bool
may_repeat contract request =
    str_eq contract.kind "read"
    || contract.idempotency.supported && valid_key request.idempotency_key

module _ {S O : Type 0} (c : Client S O) where
  goes_on :
      (left : ℕ) (r : Result CallError (Option O))
      → is_over c left r ≡ false
      → (e : CallError) × (r ≡ err e) × IsTemporary e × (left == 0 ≡ false)
  unfolding is_over
  goes_on left (ok output) h = cc
  goes_on left (err e) h = (e, refl, retryable-IsTemporary e (ground (arith, h)), ground (arith, h))

  abbrev Tried :
      (S → S × Result CallError (Option O)) → ℕ → ℕ → Result CallError (Option O) → S → Type 0
  Tried once left attempt prior s =
      (n : ℕ) × (1 ≤ n) × (n ≤ left) × Tries once s n (attempts_from c once left attempt prior s)

  one_more :
      (once : S → S × Result CallError (Option O)) (left attempt : ℕ)
      (prior : Result CallError (Option O)) (s : S)
      → ((left == 0) ≡ false → Tried once left (suc attempt) (once s).1 (once s).0)
      → Tried once (suc left) attempt prior s
  unfolding attempts_from
  one_more once left attempt prior s after = elim (Bool-cases (is_over c left (once s).1)) [
    | inl over ↦ rw over (1, omega arith, omega arith, last_try)
    | inr on ↦
        let (e, failed, again, more) = goes_on left (once s).1 on in
        elim (Bool-cases (c.ended attempt)) [
          | inl stop ↦ rw (on, stop) (1, omega arith, omega arith, stopped failed again)
          | inr wait ↦
              let (n, some_try, within, tries) = after more in
              rw (on, wait)
                (suc n, omega arith, omega (arith, within), try_again failed again tries)
        ]
  ]

  attempts_from-Tries :
      (once : S → S × Result CallError (Option O)) (left attempt : ℕ)
      (prior : Result CallError (Option O)) (s : S)
      → Tried once (suc left) attempt prior s
  attempts_from-Tries once zero attempt prior s =
      one_more once zero attempt prior s (λ h. absurd (ground (arith, h)))
  attempts_from-Tries once (suc left) attempt prior s =
      one_more once (suc left) attempt prior s
        (λ h. attempts_from-Tries once left (suc attempt) (once s).1 (once s).0)

  from_one :
      (once : S → S × Result CallError (Option O)) (left : ℕ) (prior : Result CallError (Option O))
      (s : S)
      → 1 ≤ left
      → Tried once left 1 prior s
  from_one once zero prior s h = absurd (omega (arith, h))
  from_one once (suc left) prior s h = attempts_from-Tries once left 1 prior s

  -- What a call does: nothing, or some attempts of one request.
  abbrev pub Sends : Contract → CallRequest → S → S × Result CallError (Option O) → Type 0
  Sends contract request s out =
      (out.0 ≡ s)
      ⊎ ((url : String) × (body : String) × (n : ℕ) × (1 ≤ n)
          × (n ≤ (if may_repeat contract request then c.max_attempts else 1))
          × Tries (call_once c contract.route.method url body request) s n out)

  attempts_for-within :
      (contract : Contract) (request : CallRequest)
      → 1 ≤ c.max_attempts
      → (1 ≤ attempts_for c contract request)
        × (attempts_for c contract request
            ≤ (if may_repeat contract request then c.max_attempts else 1))
  unfolding attempts_for retry_safe
  attempts_for-within contract request some_try = ground (arith, some_try)

  call_prepared-Sends :
      (contract : Contract) (request : CallRequest) (s : S)
      (found : Result CallError (String × String))
      → 1 ≤ c.max_attempts
      → Sends contract request s (call_prepared c contract request s found)
  unfolding call_prepared
  call_prepared-Sends contract request s (err e) some_try = inl refl
  call_prepared-Sends contract request s (ok (url, body)) some_try =
      let (positive, most) = attempts_for-within contract request some_try in
      let (n, some_sent, within, tries) =
        from_one (call_once c contract.route.method url body request)
          (attempts_for c contract request) (ok none) s positive in
      inr (url, body, n, some_sent, omega (arith, within, most), tries)

  -- A call leaves the server as it was, or makes attempts of one request: at most one, unless the
  -- operation is a read or supports idempotency and the request has a valid key, and never more than
  -- the client allows. It tries again only after an error of the transport, or one that the
  -- interface calls unavailable: by the server's status or answer, or because the answer is larger
  -- than the client takes or no JSON.
  pub call-Sends :
      (u : UrlParts) (contract : Contract) (request : CallRequest) (s : S)
      → 1 ≤ c.max_attempts
      → Sends contract request s (call c u contract request s)
  unfolding call
  call-Sends u contract request s some_try =
      call_prepared-Sends contract request s (prepared c u contract request) some_try
