-- ===== src/Replication/Fsm/Position.antt =====
-- The applied position: the index of a result tells a machine that has seen less of the log whether
-- it knows the operation.
use gantry_core.Base.{
  ℕ, ◌<◌, ◌≤◌, ◌≡◌, ◌⊎◌, ◌↔◌, inl, inr, refl, sym, ap, subst, ◌∙◌, String, some, List, [], ◌∷◌,
  ◌++◌, Assoc, lookup, insert, lookup-insert, if◌then◌else◌, str_eq, arith, All, Bool-cases,
}
use gantry_core.Base.Int.{ℤ}
use gantry_core.Base.Result.{Result, ok, err, Result-cases}
use gantry_core.Replication.Error.{Error}
use gantry_core.Replication.Operation.{Operation, Codec, decode_operation}
use gantry_core.Replication.Fsm.{
  ApplyResult, AppliedOp, Kvfsm, KvEntry, Log, apply, run, mutate, commit, result_of,
}
use gantry_core.Replication.Fsm.Step.{
  Applied, apply_cases, refused, retried, changed, failed, fresh,
}
use gantry_core.Replication.Fsm.Once.{run-Extends}

-- The entries come after `n`, each after the one before.
abbrev pub Ascending : {Bytes : Type 0} → ℕ → List (Log Bytes) → Type 0
Ascending n [] = Unit
Ascending n (l ∷ ls) = (n < l.index) × Ascending l.index ls

-- No record is newer than the applied position.
abbrev pub IsIndexed : Kvfsm → Type 0
IsIndexed f =
    (id : String) (p : AppliedOp) → lookup id f.applied ≡ some p → p.result.index ≤ f.applied_index

-- What an entry at an index leaves: the machine, or a record of that index.
pub data Moved (f : Kvfsm) (i : ℕ) (g : Kvfsm) : Type 0 where
  same : g ≡ f → Moved f i g
  recorded :
      (id : String) (p : AppliedOp)
      → p.result.index ≡ i
      → g.applied ≡ insert id p f.applied
      → g.applied_index ≡ i
      → Moved f i g

module _ {Bytes : Type 0} (c : Codec Bytes) where
  commit-Moved :
      (f : Kvfsm) (op : Operation) (d : String) (i t : ℕ) (m : Assoc KvEntry × Result Error ℤ)
      (r : ℤ)
      → m.1 ≡ ok r
      → Moved f i (commit f op d i t m).0
  unfolding commit result_of
  commit-Moved f op d i t (s, err e) r h = absurd (cc)
  commit-Moved f op d i t (s, ok rev) r h =
      recorded op.id (record { digest = d; result = result_of op i t rev }) refl refl refl

  Applied-Moved :
      (f : Kvfsm) (op : Operation) (i t : ℕ) (out : Kvfsm × Result Error ApplyResult)
      → Applied c f op i t out
      → Moved f i out.0
  Applied-Moved f op i t out (refused e a o) = same (ap (λ x. x.0) o)
  Applied-Moved f op i t out (retried d p a l s o) = same (ap (λ x. x.0) o)
  Applied-Moved f op i t out (changed d p a l s o) = same (ap (λ x. x.0) o)
  Applied-Moved f op i t out (failed d e a l m o) = same (ap (λ x. x.0) o)
  Applied-Moved f op i t out (fresh d r a l m o) =
      rw o (commit-Moved f op d i t (mutate c op f.state) r m)

  apply-Moved : (f : Kvfsm) (l : Log Bytes) → Moved f l.index (apply c f l).0
  unfolding apply
  apply-Moved f l = elim (Result-cases (decode_operation c l.bytes)) [
    | inl (e, h) ↦ rw (h, apply) (same refl)
    | inr (op, h) ↦
        rw (h, apply) (Applied-Moved f op l.index l.term _ (apply_cases c f op l.index l.term))
  ]

  -- One entry adds no record but one of its own index.
  Moved-known :
      (f g : Kvfsm) (i : ℕ) (id : String) (p : AppliedOp)
      → Moved f i g
      → lookup id g.applied ≡ some p
      → (lookup id f.applied ≡ some p) ⊎ (p.result.index ≡ i)
  Moved-known f g i id p (same e) h = inl (ap (λ (x : Kvfsm). lookup id x.applied) (sym e) ∙ h)
  Moved-known f g i id p (recorded k q e a b) h = elim (Bool-cases (str_eq k id)) [
    | inl y ↦
        let z : some q ≡ some p = sym (found ∙ rw y refl) ∙ h in
        inr (ap (λ (x : AppliedOp). x.result.index) (sym (same_op z)) ∙ e)
    | inr y ↦ inl (sym (found ∙ rw y refl) ∙ h)
  ]
    where
      same_op : some q ≡ some p → q ≡ p
      same_op z = cc

      found : lookup id g.applied ≡ (if str_eq k id then some q else lookup id f.applied)
      found = ap (λ (x : Assoc AppliedOp). lookup id x) a ∙ lookup-insert k id q f.applied

  run-known :
      (n : ℕ) (f : Kvfsm) (ls : List (Log Bytes)) (id : String) (p : AppliedOp)
      → All (λ l. n < l.index) ls
      → lookup id (run c f ls).applied ≡ some p
      → (lookup id f.applied ≡ some p) ⊎ (n < p.result.index)
  unfolding run
  run-known n f [] id p a h = inl h
  run-known n f (l ∷ ls) id p (x, a) h = elim (run-known n (apply c f l).0 ls id p a h) [
    | inl k ↦ elim (Moved-known f (apply c f l).0 l.index id p (apply-Moved f l) k) [
      | inl y ↦ inl y
      | inr y ↦ inr (omega arith)
    ]
    | inr k ↦ inr k
  ]

  Ascending-later :
      (n m : ℕ) (ls : List (Log Bytes)) → n ≤ m → Ascending m ls → All (λ l. n < l.index) ls
  Ascending-later n m [] h a = tt
  Ascending-later n m (l ∷ ls) h (x, a) =
      (omega arith, Ascending-later n l.index ls (omega arith) a)

  Moved-position : (f g : Kvfsm) (i : ℕ) → f.applied_index < i → Moved f i g → g.applied_index ≤ i
  Moved-position f g i l (same e) = rw e (omega arith)
  Moved-position f g i l (recorded k q e a b) = omega arith

  -- A machine stands between the entries it has seen and those it has not.
  run-position :
      (n : ℕ) (f : Kvfsm) (p q : List (Log Bytes))
      → f.applied_index ≤ n
      → Ascending n (p ++ q)
      → All (λ l. (run c f p).applied_index < l.index) q
  unfolding run
  run-position n f [] q h a = Ascending-later f.applied_index n q h a
  run-position n f (l ∷ p) q h (x, a) =
      run-position l.index (apply c f l).0 p q
        (Moved-position f (apply c f l).0 l.index (omega arith) (apply-Moved f l)) a

  Moved-IsIndexed :
      (f g : Kvfsm) (i : ℕ) → f.applied_index < i → Moved f i g → IsIndexed f → IsIndexed g
  Moved-IsIndexed f g i l (same e) x = rw e x
  Moved-IsIndexed f g i l (recorded k q e a b) x = λ id p h.
      elim (Moved-known f g i id p (recorded k q e a b) h) [
        | inl y ↦ (let z = x id p y in omega arith)
        | inr y ↦ omega arith
      ]

  run-IsIndexed :
      (n : ℕ) (f : Kvfsm) (ls : List (Log Bytes))
      → f.applied_index ≤ n
      → Ascending n ls
      → IsIndexed f
      → IsIndexed (run c f ls)
  unfolding run
  run-IsIndexed n f [] h a x = x
  run-IsIndexed n f (l ∷ ls) h (y, a) x =
      let m = apply-Moved f l in
      run-IsIndexed l.index (apply c f l).0 ls
        (Moved-position f (apply c f l).0 l.index (omega arith) m) a
        (Moved-IsIndexed f (apply c f l).0 l.index (omega arith) m x)

  -- Two beginnings of one log: the shorter begins the longer.
  compared :
      (log p q pre post : List (Log Bytes))
      → p ++ q ≡ log
      → pre ++ post ≡ log
      → ((r : List (Log Bytes)) × (pre ++ r ≡ p)) ⊎ ((r : List (Log Bytes)) × (p ++ r ≡ pre))
  compared log p q [] post h k = inl (p, refl)
  compared log [] q (x ∷ pre) post h k = inr (x ∷ pre, refl)
  compared [] (y ∷ p) q (x ∷ pre) post h k = absurd (cc)
  compared (z ∷ log) (y ∷ p) q (x ∷ pre) post h k =
      let first : y ≡ x = cc in
      elim (compared log p q pre post (cc) (cc)) [
        | inl (r, e) ↦ inl (r, cc)
        | inr (r, e) ↦ inr (r, cc)
      ]

  run-split : (f : Kvfsm) (p q : List (Log Bytes)) → run c f (p ++ q) ≡ run c (run c f p) q
  unfolding run
  run-split f [] q = refl
  run-split f (l ∷ p) q = run-split (apply c f l).0 p q

  Ascending-front : (n : ℕ) (p q : List (Log Bytes)) → Ascending n (p ++ q) → Ascending n p
  Ascending-front n [] q a = tt
  Ascending-front n (l ∷ p) q (x, a) = (x, Ascending-front l.index p q a)

  module _ (f : Kvfsm) (pre : List (Log Bytes)) (id : String) (prior : AppliedOp)
      (known : lookup id (run c f pre).applied ≡ some prior) where
    kept : (p r : List (Log Bytes)) → pre ++ r ≡ p → lookup id (run c f p).applied ≡ some prior
    kept p r e =
        subst (λ x. lookup id (run c f x).applied ≡ some prior) e
          (rw (run-split f pre r) ((run-Extends c (run c f pre) r).applied_kept id prior known))

    reached :
        (p r : List (Log Bytes))
        → Ascending f.applied_index pre
        → p ++ r ≡ pre
        → prior.result.index ≤ (run c f p).applied_index
        → lookup id (run c f p).applied ≡ some prior
    reached p r a e h =
        let later =
          run-position f.applied_index f p r (omega arith)
            (subst (Ascending f.applied_index) (sym e) a) in
        let k : lookup id (run c f (p ++ r)).applied ≡ some prior =
          subst (λ x. lookup id (run c f x).applied ≡ some prior) (sym e) known in
        elim (run-known (run c f p).applied_index (run c f p) r id prior later
          (rw (run-split f p r) at k)) [ inl y ↦ y | inr y ↦ absurd (omega arith) ]

  -- Nodes that started alike have seen parts of one log whose indices ascend. Where one of them
  -- knows the result of an operation, another's applied position has reached the index of that
  -- result exactly if the other knows the operation with that result.
  pub applied_index-known :
      (f : Kvfsm) (log p q pre post : List (Log Bytes)) (id : String) (prior : AppliedOp)
      → Ascending f.applied_index log
      → IsIndexed f
      → p ++ q ≡ log
      → pre ++ post ≡ log
      → lookup id (run c f pre).applied ≡ some prior
      → (prior.result.index ≤ (run c f p).applied_index)
        ↔ (lookup id (run c f p).applied ≡ some prior)
  applied_index-known f log p q pre post id prior a x e k known = (
    λ h. elim (compared log p q pre post e k) [
      | inl (r, y) ↦ kept f pre id prior known p r y
      | inr (r, y) ↦
          reached f pre id prior known p r
            (Ascending-front f.applied_index pre post (subst (Ascending f.applied_index) (sym k) a))
            y h
    ],
    λ h.
        run-IsIndexed f.applied_index f p (omega arith)
          (Ascending-front f.applied_index p q (subst (Ascending f.applied_index) (sym e) a)) x id
          prior h,
  )
