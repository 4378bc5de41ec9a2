-- ===== src/Replication/Fsm/Keys.antt =====
-- What one operation does to the keyspace: compare-and-set on revisions, one key at a time.
use gantry_core.Base.{
  ℕ, ◌≡◌, ◌≢◌, ◌⊎◌, inl, inr, refl, sym, ap, ◌∙◌, Bool, true, false, String, Option, none, some,
  Assoc, lookup, insert, remove, eq_iff, arith, lookup-insert_ne, lookup-remove_ne,
  lookup-insert_self, lookup-remove_self, Option-cases, Bool-cases,
}
use gantry_core.Base.Int.{ℤ, pos, next_int64, eq_ℤ, eq_ℤ_iff}
use gantry_core.Base.Result.{Result, ok, err}
use gantry_core.Replication.Error.{Error}
use gantry_core.Replication.Operation.{Operation, Codec}
use gantry_core.Replication.Fsm.{
  ApplyResult, Kvfsm, KvEntry, admit, apply_locked, mutate, commit, result_of, resolve, current,
  is_stale, stale, get, kind_set, kind_delete,
}

-- The precondition of an operation: revision 0 asks for nothing, any other for a key at that revision.
abbrev pub Precondition : Operation → Assoc KvEntry → Type 0
Precondition op state =
    (op.revision ≡ pos 0)
    ⊎ ((e : KvEntry) × (lookup op.object_id state ≡ some e) × (e.revision ≡ op.revision))

module _ {Bytes : Type 0} (c : Codec Bytes) where
  -- A key other than the operation's is not touched, whatever the outcome.
  pub mutate-frame :
      (op : Operation) (s : Assoc KvEntry) (key : String)
      → op.object_id ≢ key
      → lookup key (mutate c op s).0 ≡ lookup key s
  unfolding mutate
  mutate-frame op s key h = grind (arith, lookup-insert_ne, lookup-remove_ne)

stale_iff : (op : Operation) (s : Assoc KvEntry) → (is_stale op s ≡ false) → Precondition op s
unfolding is_stale
stale_iff op s h = elim (Option-cases (lookup op.object_id s)) [
  | inl n ↦ inl (ground (arith, eq_ℤ_iff op.revision (pos 0), n))
  | inr (e, k) ↦ elim (Bool-cases (eq_ℤ op.revision (pos 0))) [
    | inl z ↦ inl ((eq_ℤ_iff _ _).0 z)
    | inr z ↦ inr (e, k, (eq_ℤ_iff _ _).0 (ground (arith, k, z, h)))
  ]
]

fresh_iff : (op : Operation) (s : Assoc KvEntry) → is_stale op s ≡ true → ¬ Precondition op s
unfolding is_stale
fresh_iff op s h (inl z) = ground (arith, (eq_ℤ_iff op.revision (pos 0)).1 z)
fresh_iff op s h (inr (e, k, r)) = ground (arith, (eq_ℤ_iff e.revision op.revision).1 r)

-- The operation took effect: its result, its own key afterwards, and every other key.
abbrev pub Effect :
    Kvfsm → Operation → ℕ → ℕ → String × ℤ × Bool → Kvfsm × Result Error ApplyResult → Type 0
Effect f op i t reads out =
    (out.1 ≡ ok (result_of op i t (next_int64 (current op.object_id f.state).revision)))
    × (get out.0 op.object_id ≡ reads)
    × ((key : String) → op.object_id ≢ key → get out.0 key ≡ get f key)

-- What `get` reads in a keyspace.
abbrev read : Option KvEntry → String × ℤ × Bool
read none = ("", pos 0, false)
read (some e) = (e.value, e.revision, true)

get-eq-read : (f : Kvfsm) (key : String) → get f key ≡ read (lookup key f.state)
unfolding get
get-eq-read f key = ground arith

abbrev next : Operation → Assoc KvEntry → ℤ
next op s = next_int64 (current op.object_id s).revision

module _ {Bytes : Type 0} (c : Codec Bytes) (op : Operation) (s : Assoc KvEntry) where
  mutate-set :
      (v : String)
      → op.kind ≡ kind_set
      → c.value_of op.payload ≡ some v
      → is_stale op s ≡ false
      → mutate c op s
        ≡ (insert op.object_id (record { value = v; revision = next op s }) s, ok (next op s))
  unfolding mutate
  mutate-set v k w x = ground (arith, (eq_iff op.kind kind_set).1 k)

  mutate-set_stale :
      (v : String)
      → op.kind ≡ kind_set
      → c.value_of op.payload ≡ some v
      → is_stale op s ≡ true
      → mutate c op s ≡ (s, err (stale op s))
  unfolding mutate
  mutate-set_stale v k w x = ground (arith, (eq_iff op.kind kind_set).1 k)

  mutate-delete :
      op.kind ≡ kind_delete
      → is_stale op s ≡ false
      → mutate c op s ≡ (remove op.object_id s, ok (next op s))
  unfolding mutate
  mutate-delete k x = rw (k, mutate) (rw x refl)

  mutate-delete_stale :
      op.kind ≡ kind_delete → is_stale op s ≡ true → mutate c op s ≡ (s, err (stale op s))
  unfolding mutate
  mutate-delete_stale k x = rw (k, mutate) (rw x refl)

module _ {Bytes : Type 0} (c : Codec Bytes) (f : Kvfsm) (op : Operation) (i t : ℕ) (d : String)
    (a : admit c f op ≡ ok d) (n : lookup op.id f.applied ≡ none) where
  opened :
      {m : Assoc KvEntry × Result Error ℤ}
      → mutate c op f.state ≡ m
      → apply_locked c f op i t ≡ commit f op d i t m
  unfolding apply_locked
  opened e = rw (a, n, apply_locked, resolve) (ap (commit f op d i t) e)

  opened-Effect :
      (s : Assoc KvEntry) (reads : String × ℤ × Bool)
      → mutate c op f.state ≡ (s, ok (next op f.state))
      → read (lookup op.object_id s) ≡ reads
      → Effect f op i t reads (apply_locked c f op i t)
  unfolding commit
  opened-Effect s reads m r = rw (opened m) (
    refl,
    get-eq-read _ op.object_id ∙ r,
    λ key h.
        get-eq-read _ key
        ∙ ap read (ap (λ k. lookup key k.0) (sym m) ∙ mutate-frame c op f.state key h)
        ∙ sym (get-eq-read f key),
  )

  fails_stale :
      mutate c op f.state ≡ (f.state, err (stale op f.state))
      → apply_locked c f op i t ≡ (f, err (stale op f.state))
  unfolding commit
  fails_stale m = opened m

  -- A set of a new identity takes effect exactly if its precondition holds: the key then reads the
  -- new value at the next revision and no other key changes. Otherwise it is refused as stale and
  -- the machine does not change.
  pub apply_locked-set :
      (v : String)
      → op.kind ≡ kind_set
      → c.value_of op.payload ≡ some v
      → (Precondition op f.state
          × Effect f op i t
              (v, next_int64 (current op.object_id f.state).revision, true)
              (apply_locked c f op i t))
        ⊎ ((¬ Precondition op f.state) × (apply_locked c f op i t ≡ (f, err (stale op f.state))))
  apply_locked-set v k w = elim (Bool-cases (is_stale op f.state)) [
    | inl x ↦ inr (fresh_iff op f.state x, fails_stale (mutate-set_stale c op f.state v k w x))
    | inr x ↦ inl (
      stale_iff op f.state x,
      opened-Effect _ _ (mutate-set c op f.state v k w x)
          (rw (lookup-insert_self op.object_id _ f.state)),
    )
  ]

  -- A delete of a new identity takes effect exactly if its precondition holds: the key then is
  -- absent, the result is one past the revision that the key had, and no other key changes.
  -- Otherwise it is refused as stale and the machine does not change.
  pub apply_locked-delete :
      op.kind ≡ kind_delete
      → (Precondition op f.state × Effect f op i t ("", pos 0, false) (apply_locked c f op i t))
        ⊎ ((¬ Precondition op f.state) × (apply_locked c f op i t ≡ (f, err (stale op f.state))))
  apply_locked-delete k = elim (Bool-cases (is_stale op f.state)) [
    | inl x ↦ inr (fresh_iff op f.state x, fails_stale (mutate-delete_stale c op f.state k x))
    | inr x ↦ inl (
      stale_iff op f.state x,
      opened-Effect _ _ (mutate-delete c op f.state k x)
          (rw (lookup-remove_self op.object_id f.state)),
    )
  ]
