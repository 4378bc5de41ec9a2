-- ===== src/Replication/Fsm/Bounds.antt =====
-- Revisions count: they start at 1, are at most the number of log entries, and never wrap.
use gantry_core.Base.{
  ℕ, suc, ◌+◌, ◌≤◌, ◌<◌, ◌≡◌, refl, Bool, true, false, inl, inr, String, Option, none, some, List,
  [], ◌∷◌, str_eq, Assoc, lookup, insert, remove, arith, if◌then◌else◌, lookup-insert,
  lookup-remove, Bool-cases, Option-cases, length,
}
use gantry_core.Base.Int.{ℤ, pos, negsuc, next_int64}
use gantry_core.Base.Result.{Result, ok, err, Result-cases}
use gantry_core.Replication.Error.{Error}
use gantry_core.Replication.Operation.{Operation, Codec, decode_operation}
use gantry_core.Replication.Fsm.{
  ApplyResult, Kvfsm, KvEntry, Log, apply, run, mutate, commit, current, set_key, delete_key,
  new_with_schema, is_stale, kind_set, kind_delete,
}
use gantry_core.Replication.Fsm.Step.{
  Applied, apply_cases, refused, retried, changed, failed, fresh,
}

-- The largest int64.
abbrev pub max_int64 : ℕ
max_int64 = 9223372036854775807

abbrev pub Between : ℕ → ℤ → Type 0
Between n (pos m) = (1 ≤ m) × (m ≤ n)
Between n (negsuc m) = ⊥

abbrev pub InRange : ℕ → Option KvEntry → Type 0
InRange n none = Unit {0}
InRange n (some e) = Between n e.revision

abbrev pub IsBounded : ℕ → Assoc KvEntry → Type 0
IsBounded n s = (key : String) → InRange n (lookup key s)

Between-suc : (n : ℕ) (r : ℤ) → Between n r → Between (suc n) r
Between-suc n (pos m) h = omega arith
Between-suc n (negsuc m) h = h

InRange-suc : (n : ℕ) (o : Option KvEntry) → InRange n o → InRange (suc n) o
InRange-suc n none h = tt
InRange-suc n (some e) h = Between-suc n e.revision h

next-Between : (n : ℕ) (r : ℤ) → n < max_int64 → Between n r → Between (suc n) (next_int64 r)
unfolding next_int64
next-Between n (pos m) l h = ground arith
next-Between n (negsuc m) l h = absurd h

next-InRange :
    (n : ℕ) (key : String) (s : Assoc KvEntry) (o : Option KvEntry)
    → lookup key s ≡ o
    → n < max_int64
    → InRange n o
    → Between (suc n) (next_int64 (current key s).revision)
unfolding next_int64
next-InRange n key s none e l h = rw (e) (omega arith)
next-InRange n key s (some x) e l h = rw e (next-Between n x.revision l h)

insert-IsBounded :
    (n : ℕ) (k v : String) (s : Assoc KvEntry)
    → n < max_int64
    → IsBounded n s
    → IsBounded
        (suc n)
        (insert k (record { value = v; revision = next_int64 (current k s).revision }) s)
insert-IsBounded n k v s l b key = rw (lookup-insert k key _ s) (
    split _ (str_eq k key) (next-InRange n k s (lookup k s) refl l (b k)) (InRange-suc n _ (b key)))
  where
    split :
        (e : KvEntry) (t : Bool)
        → InRange (suc n) (some e)
        → InRange (suc n) (lookup key s)
        → InRange (suc n) (if t then some e else lookup key s)
    split e true x y = x
    split e false x y = y

remove-IsBounded :
    (n : ℕ) (k : String) (s : Assoc KvEntry) → IsBounded n s → IsBounded (suc n) (remove k s)
remove-IsBounded n k s b key = rw (lookup-remove k key s) (split (str_eq k key))
  where
    split : (t : Bool) → InRange (suc n) (if t then none else lookup key s)
    split true = tt
    split false = InRange-suc n _ (b key)

module _ {Bytes : Type 0} (c : Codec Bytes) where
  -- The keyspace after the switch is the old one, the old one with one write, or with one removal.
  data Shape (op : Operation) (s : Assoc KvEntry) (s' : Assoc KvEntry) : Type 0 where
    kept : s' ≡ s → Shape op s s'
    wrote :
        (v : String)
        → s'
          ≡ insert op.object_id
              (record { value = v; revision = next_int64 (current op.object_id s).revision })
              s
        → Shape op s s'
    removed : s' ≡ remove op.object_id s → Shape op s s'

  set_key-Shape : (op : Operation) (s : Assoc KvEntry) → Shape op s (set_key c op s).0
  unfolding set_key
  set_key-Shape op s = elim (Option-cases (c.value_of op.payload)) [
    | inl n ↦ kept (ground (arith, n))
    | inr (v, w) ↦ elim (Bool-cases (is_stale op s)) [
      | inl x ↦ kept (ground (arith, w))
      | inr x ↦ wrote v (ground (arith, w))
    ]
  ]

  delete_key-Shape : (op : Operation) (s : Assoc KvEntry) → Shape op s (delete_key op s).0
  unfolding delete_key
  delete_key-Shape op s = elim (Bool-cases (is_stale op s)) [
    | inl x ↦ kept (ground arith)
    | inr x ↦ removed (ground arith)
  ]

  mutate-Shape : (op : Operation) (s : Assoc KvEntry) → Shape op s (mutate c op s).0
  unfolding mutate
  mutate-Shape op s = elim (Bool-cases (str_eq op.kind kind_set)) [
    | inl k ↦ rw (k, mutate) (set_key-Shape op s)
    | inr k ↦ elim (Bool-cases (str_eq op.kind kind_delete)) [
      | inl d ↦ rw (k, d, mutate) (delete_key-Shape op s)
      | inr d ↦ kept (rw (k, d, mutate))
    ]
  ]

  Shape-IsBounded :
      (n : ℕ) (op : Operation) (s s' : Assoc KvEntry)
      → n < max_int64
      → IsBounded n s
      → Shape op s s'
      → IsBounded (suc n) s'
  Shape-IsBounded n op s s' l b (kept e) = rw e (λ key. InRange-suc n _ (b key))
  Shape-IsBounded n op s s' l b (wrote v e) = rw e (insert-IsBounded n op.object_id v s l b)
  Shape-IsBounded n op s s' l b (removed e) = rw e (remove-IsBounded n op.object_id s b)

  state-commit :
      (f : Kvfsm) (op : Operation) (d : String) (i t : ℕ) (m : Assoc KvEntry × Result Error ℤ)
      → (commit f op d i t m).0.state ≡ m.0
  unfolding commit
  state-commit f op d i t (s, err e) = refl
  state-commit f op d i t (s, ok r) = refl

  Applied-IsBounded :
      (n : ℕ) (f : Kvfsm) (op : Operation) (i t : ℕ) (out : Kvfsm × Result Error ApplyResult)
      → n < max_int64
      → IsBounded n f.state
      → Applied c f op i t out
      → IsBounded (suc n) out.0.state
  Applied-IsBounded n f op i t out l b (refused e a o) = rw o (λ key. InRange-suc n _ (b key))
  Applied-IsBounded n f op i t out l b (retried d p a k s o) = rw o (λ key. InRange-suc n _ (b key))
  Applied-IsBounded n f op i t out l b (changed d p a k s o) = rw o (λ key. InRange-suc n _ (b key))
  Applied-IsBounded n f op i t out l b (failed d e a k m o) = rw o (λ key. InRange-suc n _ (b key))
  Applied-IsBounded n f op i t out l b (fresh d r a k m o) =
      rw (o, state-commit f op d i t (mutate c op f.state))
        (Shape-IsBounded n op f.state _ l b (mutate-Shape op f.state))

  apply-IsBounded :
      (n : ℕ) (f : Kvfsm) (l : Log Bytes)
      → n < max_int64
      → IsBounded n f.state
      → IsBounded (suc n) (apply c f l).0.state
  unfolding apply
  apply-IsBounded n f l h b = elim (Result-cases (decode_operation c l.bytes)) [
    | inl (e, k) ↦ rw (k, apply) (λ key. InRange-suc n _ (b key))
    | inr (op, k) ↦
        rw (k, apply)
          (Applied-IsBounded n f op l.index l.term _ h b (apply_cases c f op l.index l.term))
  ]

  run-IsBounded :
      (n m : ℕ) (f : Kvfsm) (ls : List (Log Bytes))
      → n + length ls ≡ m
      → m ≤ max_int64
      → IsBounded n f.state
      → IsBounded m (run c f ls).state
  unfolding run
  run-IsBounded n m f [] e h b = let e' : n ≡ m = omega arith in rw (← e') b
  run-IsBounded n m f (l ∷ ls) e h b =
      run-IsBounded (suc n) m (apply c f l).0 ls (omega arith) h
        (apply-IsBounded n f l (omega arith) b)

  -- From a new machine, after a log of at most 2^63 - 1 entries, every key that is present has a
  -- revision between 1 and the number of entries, so that no revision has wrapped.
  pub run_revisions :
      (schema : ℤ) (ls : List (Log Bytes))
      → length ls ≤ max_int64
      → IsBounded (length ls) (run c (new_with_schema schema) ls).state
  unfolding new_with_schema lookup
  run_revisions schema ls h =
      run-IsBounded 0 _ (new_with_schema schema) ls (omega arith) h (λ key. tt)
