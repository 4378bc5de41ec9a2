-- ===== src/Cluster/Routing/FanOut.antt =====
-- A fan-out ends, whatever order the goroutines run in, and its results do not show the order.
use mathlib.Core.List.{append-nil}
use gantry_core.Base.{
  ℕ, zero, suc, ◌+◌, ◌*◌, ◌≤◌, ◌<◌, ◌≡◌, ◌↔◌, ◌⊎◌, inl, inr, refl, ap, sym, ◌∙◌, Bool-cases, String,
  List, [], ◌∷◌, ◌++◌, length, length-append, arith,
}
use gantry_core.Base.Int.{ℤ, pos, negsuc}
use gantry_core.Base.Order.{
  sort_by-middle, sort_by-inner, sort_by-deep, sort_by-last, sort_by-sort_by, length-sort_by,
}
use gantry_core.Base.Result.{Result, ok, err}
use gantry_core.Base.Sort.{sort_by, insert_sorted, str_leb}
use gantry_core.Cluster.Routing.{
  NodeResult, node_result, effective_limit, Fan, fan_started, FanStep, acquire, finish, result_leb,
  fan_returned,
}

effective_limit-pos : (limit : ℤ) → 0 < effective_limit limit
unfolding effective_limit
effective_limit-pos (pos zero) = omega arith
effective_limit-pos (pos (suc n)) = omega arith
effective_limit-pos (negsuc n) = omega arith

-- The number of calls at once that is given: four where it is not above zero.
abbrev pub given : ℤ → ℕ
given (pos (suc n)) = suc n
given _ = 4

module _ {T : Type 0} where
  ids_of : List (NodeResult T) → List String
  ids_of [] = []
  ids_of (r ∷ rs) = r.node_id ∷ ids_of rs

  ids_of-append : (xs ys : List (NodeResult T)) → ids_of (xs ++ ys) ≡ ids_of xs ++ ids_of ys
  unfolding ids_of
  ids_of-append [] ys = refl
  ids_of-append (x ∷ xs) ys = ap (λ l. x.node_id ∷ l) (ids_of-append xs ys)

  everyone : Fan T → List String
  unfolding ids_of
  everyone f = f.waiting ++ (f.running ++ ids_of f.results)

  module _ (call : String → Result String T) where
    -- The result of each node.
    pub results_of : List String → List (NodeResult T)
    unfolding node_result
    results_of [] = []
    results_of (id ∷ ids) = node_result id (call id) ∷ results_of ids

    results_of-append :
        (xs ys : List String) → results_of (xs ++ ys) ≡ results_of xs ++ results_of ys
    unfolding results_of
    results_of-append [] ys = refl
    results_of-append (x ∷ xs) ys = ap (λ l. node_result x (call x) ∷ l) (results_of-append xs ys)

    node_id-node_result : (id : String) → (node_result id (call id)).node_id ≡ id
    unfolding node_result
    node_id-node_result id = named (call id)
      where
        named : (r : Result String T) → (node_result id r).node_id ≡ id
        named (ok v) = refl
        named (err e) = refl

    insert_sorted-results_of :
        (id : String) (ids : List String)
        → insert_sorted result_leb (node_result id (call id)) (results_of ids)
          ≡ results_of (insert_sorted str_leb id ids)
    unfolding insert_sorted results_of result_leb
    insert_sorted-results_of id [] = refl
    insert_sorted-results_of id (x ∷ xs) = rw (node_id-node_result id) (
        rw (node_id-node_result x) (elim (Bool-cases (str_leb id x)) [
          | inl e ↦ rw e refl
          | inr e ↦ rw e (ap (λ l. node_result x (call x) ∷ l) (insert_sorted-results_of id xs))
        ]))

    sort_by-results_of :
        (ids : List String) → sort_by result_leb (results_of ids) ≡ results_of (sort_by str_leb ids)
    unfolding sort_by results_of
    sort_by-results_of [] = refl
    sort_by-results_of (id ∷ ids) =
        ap (insert_sorted result_leb (node_result id (call id))) (sort_by-results_of ids)
        ∙ insert_sorted-results_of id (sort_by str_leb ids)

    -- The steps of a fan-out, counted.
    pub data FanRun (limit : ℤ) (f : Fan T) : ℕ → Fan T → Type 0 where
      begun : FanRun limit f 0 f
      continued :
          {n : ℕ} {g h : Fan T}
          → FanRun limit f n g
          → FanStep call limit g h
          → FanRun limit f (suc n) h

    ids_of-last :
        (rs : List (NodeResult T)) (id : String)
        → ids_of (rs ++ node_result id (call id) ∷ []) ≡ ids_of rs ++ id ∷ []
    unfolding ids_of
    ids_of-last rs id =
        ids_of-append rs (node_result id (call id) ∷ [])
        ∙ ap (λ k. ids_of rs ++ k ∷ []) (node_id-node_result id)

    results_of-last :
        (rs : List (NodeResult T)) (id : String)
        → rs ≡ results_of (ids_of rs)
        → rs ++ node_result id (call id) ∷ []
          ≡ results_of (ids_of (rs ++ node_result id (call id) ∷ []))
    unfolding results_of
    results_of-last rs id theirs =
        ap (λ l. l ++ node_result id (call id) ∷ []) theirs
        ∙ sym (results_of-append (ids_of rs) (id ∷ []))
        ∙ ap results_of (sym (ids_of-last rs id))

    length-without :
        {l : List String} (before after : List String) (id : String)
        → l ≡ before ++ id ∷ after
        → length l ≡ suc (length (before ++ after))
    length-without before after id e =
        omega (arith, ap length e, length-append before (id ∷ after), length-append before after)

    record Fanned (limit : ℤ) (ids : List String) (n : ℕ) (f : Fan T) : Type 0 where
      everyone_there : sort_by str_leb (everyone f) ≡ sort_by str_leb ids
      results_theirs : f.results ≡ results_of (ids_of f.results)
      steps_counted : n + 2 * length f.waiting + length f.running ≡ 2 * length ids
      few_running : length f.running ≤ effective_limit limit

    fan_started-Fanned : (limit : ℤ) (ids : List String) → Fanned limit ids 0 (fan_started ids)
    unfolding fan_started everyone ids_of results_of
    fan_started-Fanned limit ids = record {
      everyone_there =
          ap (sort_by str_leb) (append-nil (sort_by str_leb ids)) ∙ sort_by-sort_by ids;
      results_theirs = refl;
      steps_counted = omega (arith, length-sort_by ids);
      few_running = omega arith;
    }

    FanStep-Fanned :
        {limit : ℤ} {ids : List String} {n : ℕ} {f g : Fan T}
        → FanStep call limit f g
        → Fanned limit ids n f
        → Fanned limit ids (suc n) g
    unfolding everyone
    FanStep-Fanned {f} (acquire before after id e room) inv = record {
      everyone_there =
          sort_by-middle (before ++ after) id (f.running ++ ids_of f.results)
          ∙ sym (sort_by-inner before id after (f.running ++ ids_of f.results))
          ∙ ap (λ w. sort_by str_leb (w ++ (f.running ++ ids_of f.results))) (sym e)
          ∙ inv.everyone_there;
      results_theirs = inv.results_theirs;
      steps_counted = omega (arith, length-without before after id e);
      few_running = omega (arith, room);
    }
    FanStep-Fanned {f} (finish before after id e) inv = record {
      everyone_there =
          ap (λ l. sort_by str_leb (f.waiting ++ ((before ++ after) ++ l)))
            (ids_of-last f.results id)
          ∙ sort_by-last f.waiting (before ++ after) (ids_of f.results) id
          ∙ sym (sort_by-deep f.waiting before id after (ids_of f.results))
          ∙ ap (λ r. sort_by str_leb (f.waiting ++ (r ++ ids_of f.results))) (sym e)
          ∙ inv.everyone_there;
      results_theirs = results_of-last f.results id inv.results_theirs;
      steps_counted = omega (arith, length-without before after id e);
      few_running = omega (arith, length-without before after id e);
    }

    FanRun-Fanned :
        {limit : ℤ} (ids : List String) {n : ℕ} {f : Fan T}
        → FanRun limit (fan_started ids) n f
        → Fanned limit ids n f
    FanRun-Fanned {limit} ids begun = fan_started-Fanned limit ids
    FanRun-Fanned ids (continued run step) = FanStep-Fanned step (FanRun-Fanned ids run)

    -- When no goroutine is left, what is returned has for each node asked, in the order of their ids,
    -- the result of the call of that node, whatever order the goroutines ran in.
    pub fan_returned-results_of :
        {limit : ℤ} (ids : List String) {n : ℕ} (f : Fan T)
        → FanRun limit (fan_started ids) n f
        → f.waiting ≡ []
        → f.running ≡ []
        → fan_returned f ≡ results_of (sort_by str_leb ids)
    unfolding fan_returned everyone
    fan_returned-results_of ids f run none_waits none_runs =
        let inv = FanRun-Fanned ids run in
        ap (sort_by result_leb) inv.results_theirs
        ∙ sort_by-results_of (ids_of f.results)
        ∙ ap results_of (
            ap (λ w. sort_by str_leb (w ++ ([] ++ ids_of f.results))) (sym none_waits)
            ∙ ap (λ r. sort_by str_leb (f.waiting ++ (r ++ ids_of f.results))) (sym none_runs)
            ∙ inv.everyone_there)

    -- At most so many calls at once, and fewer.
    effective_limit-given : (limit : ℤ) (k : ℕ) → (k ≤ effective_limit limit) ↔ (k ≤ given limit)
    unfolding effective_limit
    effective_limit-given (pos zero) k = (λ h. h, λ h. h)
    effective_limit-given (pos (suc n)) k = (λ h. h, λ h. h)
    effective_limit-given (negsuc n) k = (λ h. h, λ h. h)

    -- A node that waits, where fewer calls are under way than the limit allows, can start.
    starts :
        (limit : ℤ) (f : Fan T) (before after : List String) (id : String)
        → f.waiting ≡ before ++ id ∷ after
        → length f.running < given limit
        → FanStep call limit f (record f { waiting = before ++ after; running = id ∷ f.running })
    starts limit f before after id e h =
        acquire before after id e ((effective_limit-given limit (suc (length f.running))).1 h)

    -- What a fan-out may do next: nothing is left, or a call under way ends, or, while fewer are under
    -- way than the limit allows, any node that waits starts.
    pub record Goes (limit : ℤ) (f : Fan T) : Type 0 where
      pub over_or_on :
          ((f.waiting ≡ []) × (f.running ≡ [])) ⊎ ((g : Fan T) × FanStep call limit f g)
      pub any_starts :
          (before after : List String) (id : String)
          → f.waiting ≡ before ++ id ∷ after
          → length f.running < given limit
          → FanStep call limit f (record f { waiting = before ++ after; running = id ∷ f.running })

    one_more :
        (limit : ℤ) (f : Fan T) (w r : List String)
        → f.waiting ≡ w
        → f.running ≡ r
        → ((w ≡ []) × (r ≡ [])) ⊎ ((g : Fan T) × FanStep call limit f g)
    one_more limit f w (x ∷ r) ew er = inr (_, finish [] r x er)
    one_more limit f [] [] ew er = inl (refl, refl)
    one_more limit f (x ∷ w) [] ew er =
        inr (_, acquire [] w x ew (omega (arith, ap length er, effective_limit-pos limit)))

    -- A fan-out never has more calls under way than the limit it was given, or four where none above
    -- zero was given, and while it has fewer any node that waits can start. It ends after two steps
    -- for each node at most, and until no goroutine is left another step is possible.
    pub FanRun-ends :
        {limit : ℤ} (ids : List String) {n : ℕ} (f : Fan T)
        → FanRun limit (fan_started ids) n f
        → (length f.running ≤ given limit) × (n ≤ 2 * length ids) × Goes limit f
    FanRun-ends {limit} ids f run =
        let inv = FanRun-Fanned ids run in
        (
          (effective_limit-given limit (length f.running)).0 inv.few_running,
          omega (arith, inv.steps_counted),
          record {
            over_or_on = one_more limit f f.waiting f.running refl refl;
            any_starts = starts limit f;
          },
        )
