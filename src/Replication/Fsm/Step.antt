-- ===== src/Replication/Fsm/Step.antt =====
-- One application of an operation, taken apart.
use gantry_core.Base.{
  ℕ, ◌≡◌, ◌≢◌, inl, inr, refl, sym, ap, ◌∙◌, String, none, some, str_eq, Assoc, lookup, eq_iff,
  arith, Option-cases, Bool-cases,
}
use gantry_core.Base.Int.{ℤ}
use gantry_core.Base.Result.{Result, ok, err, Result-cases}
use gantry_core.Replication.Error.{Error, payload_changed}
use gantry_core.Replication.Operation.{Operation, Codec}
use gantry_core.Replication.Fsm.{
  ApplyResult, AppliedOp, Kvfsm, KvEntry, admit, apply_locked, mutate, commit, resolve,
}

module _ {Bytes : Type 0} (c : Codec Bytes) where
  -- A failed mutation leaves the keyspace alone.
  pub mutate_error :
      (op : Operation) (s : Assoc KvEntry) {e : Error}
      → (mutate c op s).1 ≡ err e
      → (mutate c op s).0 ≡ s
  unfolding mutate
  mutate_error op s h = ground arith

  -- The four ways in which an operation is applied.
  pub data Applied (f : Kvfsm) (op : Operation) (i t : ℕ) (out : Kvfsm × Result Error ApplyResult)
      : Type 0 where
    refused : (e : Error) → admit c f op ≡ err e → out ≡ (f, err e) → Applied f op i t out
    retried :
        (d : String) (p : AppliedOp)
        → admit c f op ≡ ok d
        → lookup op.id f.applied ≡ some p
        → p.digest ≡ d
        → out ≡ (f, ok p.result)
        → Applied f op i t out
    changed :
        (d : String) (p : AppliedOp)
        → admit c f op ≡ ok d
        → lookup op.id f.applied ≡ some p
        → p.digest ≢ d
        → out ≡ (f, err (payload_changed op.id))
        → Applied f op i t out
    failed :
        (d : String) (e : Error)
        → admit c f op ≡ ok d
        → lookup op.id f.applied ≡ none
        → (mutate c op f.state).1 ≡ err e
        → out ≡ (f, err e)
        → Applied f op i t out
    fresh :
        (d : String) (rev : ℤ)
        → admit c f op ≡ ok d
        → lookup op.id f.applied ≡ none
        → (mutate c op f.state).1 ≡ ok rev
        → out ≡ commit f op d i t (mutate c op f.state)
        → Applied f op i t out

  commit_cases :
      (f : Kvfsm) (op : Operation) (i t : ℕ) (d : String)
      → admit c f op ≡ ok d
      → lookup op.id f.applied ≡ none
      → (m : Assoc KvEntry × Result Error ℤ) → mutate c op f.state ≡ m
      → Applied f op i t (commit f op d i t m)
  unfolding commit
  commit_cases f op i t d a n (s, err e) h =
      failed d e a n (ap (λ m. m.1) h)
        (ap (λ (k : Assoc KvEntry). (record f { state = k }, err e)) kept)
    where
      kept : s ≡ f.state
      kept = sym (ap (λ m. m.0) h) ∙ mutate_error op f.state (ap (λ m. m.1) h)
  commit_cases f op i t d a n (s, ok rev) h = fresh d rev a n (ap (λ m. m.1) h) (rw h)

  pub apply_cases :
      (f : Kvfsm) (op : Operation) (i t : ℕ) → Applied f op i t (apply_locked c f op i t)
  unfolding apply_locked
  apply_cases f op i t = elim (Result-cases (admit c f op)) [
    | inl (e, h) ↦ rw (h, apply_locked) (refused e h refl)
    | inr (d, h) ↦ elim (Option-cases (lookup op.id f.applied)) [
      | inl n ↦
          rw (h, n, apply_locked, resolve) (commit_cases f op i t d h n (mutate c op f.state) refl)
      | inr (p, k) ↦ elim (Bool-cases (str_eq p.digest d)) [
        | inl same ↦
            rw (h, k, same, apply_locked, resolve)
              (retried d p h k ((eq_iff p.digest d).0 same) refl)
        | inr other ↦
            rw (h, k, other, apply_locked, resolve)
              (changed d p h k (ground (arith, eq_iff p.digest d)) refl)
      ]
    ]
  ]
