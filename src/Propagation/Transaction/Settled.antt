-- ===== src/Propagation/Transaction/Settled.antt =====
-- What an execution reports.
use gantry_core.Base.{
  ◌≡◌, refl, ap, ◌∙◌, subst, inl, inr, ◌≤◌, Bool, true, false, ◌&&◌, ◌||◌, not, if◌then◌else◌, ltb,
  Bool-cases, String, Option, none, some, List, [], ◌∷◌, ◌++◌, map, str_eq, length, arith, All,
}
use mathlib.Core.List.{append_assoc, append-nil}
use gantry_core.Base.Result.{Result, ok, err}
use gantry_core.Propagation.Apply.{AppliedRevision}
use gantry_core.Propagation.Transaction.{
  NodeResult, Executor, stays, successes, finished, validated_as, rolled, validate_nodes, back_if,
  roll_back_done, applied_as, apply_if, turn, apply_nodes, execute,
}

-- A node is applied only after its validation, and rolled back only after it was applied.
abbrev pub InOrder : NodeResult → Type 0
InOrder r = ((not r.applied || r.validated) ≡ true) × ((not r.rolled_back || r.applied) ≡ true)

abbrev pub nodes_of : List NodeResult → List String
nodes_of rs = map (λ r. r.node) rs

-- The nodes are these, in their order, and each result is in order.
abbrev pub Reports : List String → List NodeResult → Type 0
Reports nodes rs = (nodes_of rs ≡ nodes) × All InOrder rs

abbrev pub some_stay : List NodeResult → Bool
some_stay [] = false
some_stay (r ∷ rs) = stays r || some_stay rs

abbrev pub some_do_not : List NodeResult → Bool
some_do_not [] = false
some_do_not (r ∷ rs) = not (stays r) || some_do_not rs

successes_counts :
    (rs : List NodeResult)
    → (ltb 0 (successes rs) ≡ some_stay rs)
      × (ltb (successes rs) (length rs) ≡ some_do_not rs)
      × (successes rs ≤ length rs)
unfolding successes
successes_counts [] = (refl, refl, omega arith)
successes_counts (r ∷ rs) =
    let (a, b, c) = successes_counts rs in
    elim (Bool-cases (stays r)) [
      | inl e ↦ rw e (ground (arith, a, b, c), ground (arith, a, b, c), omega (arith, c))
      | inr e ↦ rw e (ground (arith, a, b, c), ground (arith, a, b, c), omega (arith, c))
    ]

nodes_of-append : (xs ys : List NodeResult) → nodes_of (xs ++ ys) ≡ nodes_of xs ++ nodes_of ys
nodes_of-append [] ys = refl
nodes_of-append (x ∷ xs) ys = ap (λ l. x.node ∷ l) (nodes_of-append xs ys)

All-append : (xs ys : List NodeResult) → All InOrder xs → All InOrder ys → All InOrder (xs ++ ys)
All-append [] ys h k = k
All-append (x ∷ xs) ys (own, h) k = (own, All-append xs ys h k)

Reports-append :
    (ns ms : List String) (xs ys : List NodeResult)
    → Reports ns xs
    → Reports ms ys
    → Reports (ns ++ ms) (xs ++ ys)
Reports-append ns ms xs ys (h, a) (k, b) =
    (nodes_of-append xs ys ∙ (rw h (rw k refl)), All-append xs ys a b)

validated_as-InOrder : (n : String) (o : Option String) → InOrder (validated_as n o)
unfolding validated_as
validated_as-InOrder n none = (refl, refl)
validated_as-InOrder n (some e) = (refl, refl)

validated_as-node : (n : String) (o : Option String) → (validated_as n o).node ≡ n
unfolding validated_as
validated_as-node n none = refl
validated_as-node n (some e) = refl

rolled-Reports :
    (r : NodeResult) (answer : Option String)
    → r.applied ≡ true
    → InOrder r
    → ((rolled r answer).node ≡ r.node) × InOrder (rolled r answer)
unfolding rolled
rolled-Reports r none h (own, back) = (refl, (own, h))
rolled-Reports r (some e) h order = elim (Bool-cases (str_eq r.error "")) [
  | inl f ↦ rw f (refl, order)
  | inr f ↦ rw f (refl, order)
]

module _ {S : Type 0} (ex : Executor S) (rollback_on_failure : Bool) where
  validate_nodes-Reports :
      (ns : List String) (s : S) → Reports ns (validate_nodes ex rollback_on_failure ns s)
  unfolding validate_nodes
  validate_nodes-Reports [] s = (refl, tt)
  validate_nodes-Reports (n ∷ ns) s =
      let (h, a) = validate_nodes-Reports ns s in
      (
        rw (validated_as-node n (ex.validate n s)) (rw h refl),
        (validated_as-InOrder n (ex.validate n s), a),
      )

  back_if-InOrder :
      (b : Bool) (r : NodeResult) (s : S)
      → r.applied ≡ b
      → InOrder r
      → ((back_if ex rollback_on_failure b r s).1.node ≡ r.node)
        × InOrder (back_if ex rollback_on_failure b r s).1
  unfolding back_if
  back_if-InOrder false r s e order = (refl, order)
  back_if-InOrder true r s e order = rolled-Reports r (ex.rollback r.node r.revisions s).1 e order

  roll_back_done-Reports :
      (rs : List NodeResult) (s : S)
      → All InOrder rs
      → Reports (nodes_of rs) (roll_back_done ex rollback_on_failure rs s).1
  unfolding roll_back_done
  roll_back_done-Reports [] s a = (refl, tt)
  roll_back_done-Reports (r ∷ rs) s (own, a) =
      let (same, order) = back_if-InOrder r.applied r s refl own in
      let (h, rest) =
        roll_back_done-Reports rs (back_if ex rollback_on_failure r.applied r s).0 a in
      (cc (same, h), (order, rest))

  Reports-rolled :
      (b : Bool) (ns : List String) (done : List NodeResult) (s : S)
      → Reports ns done
      → Reports ns (if b then roll_back_done ex rollback_on_failure done s else (s, done)).1
  Reports-rolled true ns done s (h, a) =
      let (k, rest) = roll_back_done-Reports done s a in (k ∙ h, rest)
  Reports-rolled false ns done s h = h

  applied_as-Reports :
      (ns : List String) (done : List NodeResult) (r : NodeResult)
      (answer : S × Result String (List AppliedRevision))
      → r.validated ≡ true
      → InOrder r
      → Reports ns done
      → Reports (ns ++ (r.node ∷ [])) (applied_as ex rollback_on_failure done r answer).1
  unfolding applied_as
  applied_as-Reports ns done r (s, ok revisions) valid order h =
      Reports-append ns (r.node ∷ []) done _ h (refl, ((ground (arith, valid), ground arith), tt))
  applied_as-Reports ns done r (s, err e) valid order h =
      Reports-append ns (r.node ∷ []) _ _ (Reports-rolled rollback_on_failure ns done s h)
        (refl, (order, tt))

  apply_if-Reports :
      (b : Bool) (ns : List String) (done : List NodeResult) (r : NodeResult) (s : S)
      → r.validated ≡ b
      → InOrder r
      → Reports ns done
      → Reports (ns ++ (r.node ∷ [])) (apply_if ex rollback_on_failure b done r s).1
  unfolding apply_if
  apply_if-Reports true ns done r s e order h =
      applied_as-Reports ns done r (ex.apply_plan r.node s) e order h
  apply_if-Reports false ns done r s e order h =
      Reports-append ns (r.node ∷ []) done _ h (refl, (order, tt))

  turn-Reports :
      (ns : List String) (done : List NodeResult) (r : NodeResult) (s : S)
      → InOrder r
      → Reports ns done
      → Reports (ns ++ (r.node ∷ [])) (turn ex rollback_on_failure done r s).1
  unfolding turn
  turn-Reports ns done r s order h = apply_if-Reports r.validated ns done r s refl order h

  apply_nodes-Reports :
      (ns : List String) (done rest : List NodeResult) (s : S)
      → Reports ns done
      → All InOrder rest
      → Reports (ns ++ nodes_of rest) (apply_nodes ex rollback_on_failure done rest s).1
  unfolding apply_nodes
  apply_nodes-Reports ns done [] s h a = rw (append-nil ns) h
  apply_nodes-Reports ns done (r ∷ rest) s h (own, a) =
      let (s', done') = turn ex rollback_on_failure done r s in
      subst (λ l. Reports l (apply_nodes ex rollback_on_failure done' rest s').1)
        (append_assoc ns (r.node ∷ []) (nodes_of rest))
        (apply_nodes-Reports (ns ++ (r.node ∷ [])) done' rest s' (turn-Reports ns done r s own h) a)

  -- Whatever the nodes answer, an execution returns one result per node, in the order of the nodes. No
  -- node is applied without its validation and none rolled back that was not applied, and the
  -- execution is partial exactly if one node stays applied and another does not.
  pub execute-Reports :
      (nodes : List String) (s : S)
      → Reports nodes (execute ex rollback_on_failure nodes s).1.results
        × ((execute ex rollback_on_failure nodes s).1.is_partial ≡ (
            some_stay (execute ex rollback_on_failure nodes s).1.results
            && some_do_not (execute ex rollback_on_failure nodes s).1.results))
  unfolding execute finished
  execute-Reports nodes s =
      let (h, a) = validate_nodes-Reports nodes s in
      let results =
        (apply_nodes ex rollback_on_failure [] (validate_nodes ex rollback_on_failure nodes s)
          s).1 in
      let (some_counted, others_counted, within) = successes_counts results in
      (
        subst (λ l. Reports l results) h (apply_nodes-Reports [] [] _ s (refl, tt) a),
        rw some_counted (rw others_counted refl),
      )
