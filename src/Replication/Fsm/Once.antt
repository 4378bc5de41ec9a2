-- ===== src/Replication/Fsm/Once.antt =====
-- Each operation identity takes effect once: failures change nothing, and retries replay a result.
use gantry_core.Base.{
  ℕ, ◌≡◌, ◌≢◌, refl, ap, ◌∙◌, String, none, some, List, [], ◌∷◌, Assoc, lookup, eq_iff, arith,
  lookup-insert, lookup-insert_self, inl, inr,
}
use gantry_core.Base.Int.{ℤ}
use gantry_core.Base.Result.{Result, ok, err, Result-cases}
use gantry_core.Replication.Error.{Error, payload_changed}
use gantry_core.Replication.Operation.{Operation, Codec, decode_operation, digest}
use gantry_core.Replication.Fsm.{
  ApplyResult, AppliedOp, Kvfsm, Log, admit, apply_locked, apply, run, mutate, commit, result_of,
  resolve,
}
use gantry_core.Replication.Fsm.Step.{
  Applied, apply_cases, refused, retried, changed, failed, fresh,
}

module _ {Bytes : Type 0} (c : Codec Bytes) where
  -- What a step keeps.
  pub record Extends (f g : Kvfsm) : Type 0 where
    pub supported_same : g.supported ≡ f.supported
    pub applied_kept :
        (id : String) (p : AppliedOp) → lookup id f.applied ≡ some p → lookup id g.applied ≡ some p

  Extends-refl : (f : Kvfsm) → Extends f f
  Extends-refl f = record { supported_same = refl; applied_kept = λ id p h. h }

  Extends-trans : (f g k : Kvfsm) → Extends f g → Extends g k → Extends f k
  Extends-trans f g k x y = record {
    supported_same = y.supported_same ∙ x.supported_same;
    applied_kept = λ id p h. y.applied_kept id p (x.applied_kept id p h);
  }

  commit-Extends :
      (f : Kvfsm) (op : Operation) (d : String) (i t : ℕ) (m : Assoc _ × Result Error ℤ)
      → lookup op.id f.applied ≡ none
      → Extends f (commit f op d i t m).0
  unfolding commit
  commit-Extends f op d i t (s, err e) n = record {
    supported_same = refl;
    applied_kept = λ id p h. h;
  }
  commit-Extends f op d i t (s, ok rev) n = record {
    supported_same = refl;
    applied_kept =
        λ id p h. rw (lookup-insert op.id id _ f.applied) (ground (arith, eq_iff op.id id, h));
  }

  Applied-Extends :
      (f : Kvfsm) (op : Operation) (i t : ℕ) (out : Kvfsm × Result Error ApplyResult)
      → Applied c f op i t out
      → Extends f out.0
  Applied-Extends f op i t out (refused e a o) = rw o (Extends-refl f)
  Applied-Extends f op i t out (retried d p a l s o) = rw o (Extends-refl f)
  Applied-Extends f op i t out (changed d p a l s o) = rw o (Extends-refl f)
  Applied-Extends f op i t out (failed d e a l m o) = rw o (Extends-refl f)
  Applied-Extends f op i t out (fresh d r a l m o) = rw o (commit-Extends f op d i t _ l)

  apply-Extends : (f : Kvfsm) (l : Log Bytes) → Extends f (apply c f l).0
  unfolding apply
  apply-Extends f l = elim (Result-cases (decode_operation c l.bytes)) [
    | inl (e, h) ↦ rw (h, apply) (Extends-refl f)
    | inr (op, h) ↦
        rw (h, apply) (Applied-Extends f op l.index l.term _ (apply_cases c f op l.index l.term))
  ]

  pub run-Extends : (f : Kvfsm) (ls : List (Log Bytes)) → Extends f (run c f ls)
  unfolding run
  run-Extends f [] = Extends-refl f
  run-Extends f (l ∷ ls) =
      Extends-trans f (apply c f l).0 _ (apply-Extends f l) (run-Extends (apply c f l).0 ls)

  -- `op` is admissible and on record with this result.
  record Recorded (f : Kvfsm) (op : Operation) (res : ApplyResult) : Type 0 where
    pub sum : String
    pub prior : AppliedOp
    pub admitted : admit c f op ≡ ok sum
    pub found : lookup op.id f.applied ≡ some prior
    pub same_sum : prior.digest ≡ sum
    pub same_result : prior.result ≡ res

  admit_digest :
      (f : Kvfsm) (op : Operation) {d : String} → admit c f op ≡ ok d → digest c op ≡ ok d
  unfolding admit
  admit_digest f op h = ground arith

  admit_supported :
      (f g : Kvfsm) (op : Operation) → g.supported ≡ f.supported → admit c g op ≡ admit c f op
  unfolding admit
  admit_supported f g op e = ap (λ (v : ℤ). admit c (record f { supported = v }) op) e

  commit-Recorded :
      (f : Kvfsm) (op : Operation) (d : String) (i t : ℕ) (m : Assoc _ × Result Error ℤ)
      (res : ApplyResult)
      → admit c f op ≡ ok d
      → (commit f op d i t m).1 ≡ ok res
      → Recorded (commit f op d i t m).0 op res
  unfolding commit admit
  commit-Recorded f op d i t (s, err e) res a h = absurd (cc)
  commit-Recorded f op d i t (s, ok rev) res a h = record {
    sum = d;
    prior = record { digest = d; result = result_of op i t rev };
    admitted = a;
    found = lookup-insert_self op.id _ f.applied;
    same_sum = refl;
    same_result = ground arith;
  }

  Applied-Recorded :
      (f : Kvfsm) (op : Operation) (i t : ℕ) (res : ApplyResult)
      (out : Kvfsm × Result Error ApplyResult)
      → Applied c f op i t out
      → out.1 ≡ ok res
      → Recorded out.0 op res
  Applied-Recorded f op i t res out (refused e a o) h = absurd (cc)
  Applied-Recorded f op i t res out (retried d p a l s o) h =
      rw o (record { sum = d; prior = p; admitted = a; found = l; same_sum = s; same_result = cc })
  Applied-Recorded f op i t res out (changed d p a l s o) h = absurd (cc)
  Applied-Recorded f op i t res out (failed d e a l m o) h = absurd (cc)
  Applied-Recorded f op i t res out (fresh d r a l m o) h =
      rw o (commit-Recorded f op d i t _ res a (rw o at h))

  Recorded-Extends :
      (f g : Kvfsm) (op : Operation) (res : ApplyResult)
      → Extends f g
      → Recorded f op res
      → Recorded g op res
  Recorded-Extends f g op res x r = record {
    sum = r.sum;
    prior = r.prior;
    admitted = admit_supported f g op x.supported_same ∙ r.admitted;
    found = x.applied_kept op.id r.prior r.found;
    same_sum = r.same_sum;
    same_result = r.same_result;
  }

  apply-Recorded :
      (g : Kvfsm) (op : Operation) (i t : ℕ) (res : ApplyResult)
      → Recorded g op res
      → apply_locked c g op i t ≡ (g, ok res)
  unfolding apply_locked
  apply-Recorded g op i t res r =
      rw (r.admitted, r.found, apply_locked, resolve)
        (ground (arith, r.same_sum, r.same_result, eq_iff r.prior.digest r.sum))

  -- An operation that was applied with a result is, after any further log entries, answered with
  -- that same result at whatever position it is committed again, and the machine does not change.
  pub apply_locked-retry :
      (f : Kvfsm) (op : Operation) (i t : ℕ) (res : ApplyResult) (later : List (Log Bytes))
      (j u : ℕ)
      → (apply_locked c f op i t).1 ≡ ok res
      → let g = run c (apply_locked c f op i t).0 later in apply_locked c g op j u ≡ (g, ok res)
  apply_locked-retry f op i t res later j u h = apply-Recorded _ op j u res (
      Recorded-Extends (apply_locked c f op i t).0 _ op res (run-Extends _ later)
        (Applied-Recorded f op i t res _ (apply_cases c f op i t) h))

  reuse_refused :
      (g : Kvfsm) (op op' : Operation) (res : ApplyResult) (d : String) (j u : ℕ)
      → Recorded g op res
      → op'.id ≡ op.id
      → digest c op' ≢ digest c op
      → admit c g op' ≡ ok d
      → apply_locked c g op' j u ≡ (g, err (payload_changed op'.id))
  unfolding apply_locked
  reuse_refused g op op' res d j u r same other a =
      rw (a, ap (λ k. lookup k g.applied) same ∙ r.found, apply_locked, resolve)
        (ground (
          arith,
          eq_iff r.prior.digest d,
          r.same_sum,
          admit_digest g op' a,
          admit_digest g op r.admitted,
        ))

  -- After an operation was applied with a result and any further log entries, an admissible
  -- operation with its identity and another payload digest is refused, and the machine does not
  -- change.
  pub apply_locked-reuse :
      (f : Kvfsm) (op op' : Operation) (i t : ℕ) (res : ApplyResult) (later : List (Log Bytes))
      (d : String) (j u : ℕ)
      → (apply_locked c f op i t).1 ≡ ok res
      → op'.id ≡ op.id
      → digest c op' ≢ digest c op
      → admit c f op' ≡ ok d
      → let g = run c (apply_locked c f op i t).0 later in
        apply_locked c g op' j u ≡ (g, err (payload_changed op'.id))
  apply_locked-reuse f op op' i t res later d j u h same other a =
      let x = run-Extends (apply_locked c f op i t).0 later in
      let y = Applied-Extends f op i t _ (apply_cases c f op i t) in
      reuse_refused _ op op' res d j u
        (Recorded-Extends (apply_locked c f op i t).0 _ op res x
          (Applied-Recorded f op i t res _ (apply_cases c f op i t) h))
        same other (admit_supported f _ op' (x.supported_same ∙ y.supported_same) ∙ a)

  commit-ok :
      (f : Kvfsm) (op : Operation) (d : String) (i t : ℕ) (r : ℤ) (m : Assoc _ × Result Error ℤ)
      → m.1 ≡ ok r
      → (commit f op d i t m).1 ≡ ok (result_of op i t r)
  unfolding commit
  commit-ok f op d i t r (s, ok rev) h = ground arith
  commit-ok f op d i t r (s, err e) h = absurd (cc)

  Applied-error :
      (f : Kvfsm) (op : Operation) (i t : ℕ) (e : Error) (out : Kvfsm × Result Error ApplyResult)
      → Applied c f op i t out
      → out.1 ≡ err e
      → out.0 ≡ f
  Applied-error f op i t e out (refused e' a o) h = ap (λ m. m.0) o
  Applied-error f op i t e out (retried d p a l s o) h = ap (λ m. m.0) o
  Applied-error f op i t e out (changed d p a l s o) h = ap (λ m. m.0) o
  Applied-error f op i t e out (failed d e' a l m o) h = ap (λ m. m.0) o
  Applied-error f op i t e out (fresh d r a l m o) h = absurd (
      cc (
        commit-ok f op d i t r (mutate c op f.state) m,
        ap (λ (k : Kvfsm × Result Error ApplyResult). k.1) o,
      ))

  -- A log entry whose application returns an error leaves the whole machine as it was.
  pub apply_error_unchanged :
      (f : Kvfsm) (l : Log Bytes) (e : Error) → (apply c f l).1 ≡ err e → (apply c f l).0 ≡ f
  unfolding apply
  apply_error_unchanged f l e h = elim (Result-cases (decode_operation c l.bytes)) [
    | inl (e', k) ↦ rw (k, apply)
    | inr (op, k) ↦
        rw (k, apply)
          (Applied-error f op l.index l.term e _ (apply_cases c f op l.index l.term)
            (rw (k, apply) at h))
  ]
