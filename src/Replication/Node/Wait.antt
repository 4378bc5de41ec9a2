-- ===== src/Replication/Node/Wait.antt =====
-- Waiting for the machine of a node to reach an index (replication/node.go: WaitApplied).
use gantry_core.Base.{
  ℕ, ◌≡◌, ◌↔◌, inl, inr, refl, subst, true, String, Option, none, some, List, [], ◌∷◌, ◌++◌, leb,
  lookup, All, arith, if◌then◌else◌, Bool-cases,
}
use gantry_core.Base.Result.{Result, ok, err}
use gantry_core.Replication.Error.{Error, context_done}
use gantry_core.Replication.Operation.{Codec}
use gantry_core.Replication.Fsm.{AppliedOp, Kvfsm, Log, run}
use gantry_core.Replication.Fsm.Position.{Ascending, IsIndexed, applied_index-known}

-- One round of the loop: the machine as it is read, and the error of the context if the `select`
-- finds it done before the next tick.
pub record Round : Type 0 where
  pub fsm : Kvfsm
  pub done : Option String

unfoldable pub wait_over :
    Option String → Option (Result Error (Unit {0})) → Option (Result Error (Unit {0}))
wait_over none later = later
wait_over (some e) later = some (err (context_done e))

-- `WaitApplied`, without an answer where the rounds end before it returns.
unfoldable pub wait_applied : ℕ → List Round → Option (Result Error (Unit {0}))
unfolding wait_over
wait_applied index [] = none
wait_applied index (r ∷ rs) =
    let later = wait_applied index rs in
    if leb index r.fsm.applied_index then some (ok tt) else wait_over r.done later

-- The machine of a round knows the operation with this result, and the context was not done in a
-- round before.
pub data Arrived (id : String) (prior : AppliedOp) : List Round → Type 0 where
  here :
      {r : Round} {rs : List Round}
      → lookup id r.fsm.applied ≡ some prior
      → Arrived id prior (r ∷ rs)
  later :
      {r : Round} {rs : List Round}
      → r.done ≡ none
      → Arrived id prior rs
      → Arrived id prior (r ∷ rs)

module _ {Bytes : Type 0} (c : Codec Bytes) where
  -- A machine that started as `f` has seen a beginning of the log.
  abbrev pub Follows : Kvfsm → List (Log Bytes) → Kvfsm → Type 0
  Follows f log g = (p q : List (Log Bytes)) × (p ++ q ≡ log) × (run c f p ≡ g)

  over-Arrived :
      (done : Option String) (x : Option (Result Error (Unit {0})))
      → wait_over done x ≡ some (ok tt)
      → (done ≡ none) × (x ≡ some (ok tt))
  unfolding wait_over
  over-Arrived none x h = (refl, h)
  over-Arrived (some e) x h = absurd (cc)

  module _ (index : ℕ) (id : String) (prior : AppliedOp) where
    -- The position tells whether the operation is known.
    abbrev Tells : Round → Type 0
    Tells r = (leb index r.fsm.applied_index ≡ true) ↔ (lookup id r.fsm.applied ≡ some prior)

    wait-Arrived :
        (rs : List Round)
        → All Tells rs
        → wait_applied index rs ≡ some (ok tt)
        → Arrived id prior rs
    unfolding wait_applied
    wait-Arrived [] a h = absurd (cc)
    wait-Arrived (r ∷ rs) (t, a) h = elim (Bool-cases (leb index r.fsm.applied_index)) [
      | inl y ↦ here (t.0 y)
      | inr y ↦
          let (n, k) = over-Arrived r.done (wait_applied index rs) (rw y at h) in
          later n (wait-Arrived rs a k)
    ]

    Arrived-wait :
        (rs : List Round)
        → All Tells rs
        → Arrived id prior rs
        → wait_applied index rs ≡ some (ok tt)
    unfolding wait_applied wait_over
    Arrived-wait [] a x = elim x [ ]
    Arrived-wait (r ∷ rs) (t, a) (here k) = rw (t.1 k) refl
    Arrived-wait (r ∷ rs) (t, a) (later n k) = elim (Bool-cases (leb index r.fsm.applied_index)) [
      | inl y ↦ rw y refl
      | inr y ↦ rw (y, n) (Arrived-wait rs a k)
    ]

  module _ (f : Kvfsm) (log pre post : List (Log Bytes)) (id : String) (prior : AppliedOp)
      (ascending : Ascending f.applied_index log) (indexed : IsIndexed f) (part : pre ++ post ≡ log)
      (known : lookup id (run c f pre).applied ≡ some prior) where
    follower-Tells : (r : Round) → Follows f log r.fsm → Tells prior.result.index id prior r
    follower-Tells r (p, q, e, g) =
        let (there, back) =
          applied_index-known c f log p q pre post id prior ascending indexed e part known in
        subst
          (λ (x : Kvfsm).
            (leb prior.result.index x.applied_index ≡ true) ↔ (lookup id x.applied ≡ some prior))
          g (λ h. there (ground (arith, h)), λ h. (let k = back h in ground (arith, k)))

    followers-Tell :
        (rs : List Round)
        → All (λ r. Follows f log r.fsm) rs
        → All (Tells prior.result.index id prior) rs
    followers-Tell [] a = tt
    followers-Tell (r ∷ rs) (x, a) = (follower-Tells r x, followers-Tell rs a)

    -- A node that follows a log whose indices ascend waits for the index of an operation's result.
    -- The wait ends without an error exactly if in some round the node knows the operation with that
    -- result, with the context not done in a round before.
    pub wait_applied-Arrived :
        (rounds : List Round)
        → All (λ r. Follows f log r.fsm) rounds
        → (wait_applied prior.result.index rounds ≡ some (ok tt)) ↔ Arrived id prior rounds
    wait_applied-Arrived rounds a =
        let t = followers-Tell rounds a in
        (
          wait-Arrived prior.result.index id prior rounds t,
          Arrived-wait prior.result.index id prior rounds t,
        )
