-- ===== src/Propagation/Transaction/Tests.antt =====
-- Runs whose state is the list of the calls, the last one first.
use gantry_core.Base.{
  ◌≡◌, refl, true, false, ◌&&◌, if◌then◌else◌, String, none, List, [], ◌∷◌, str_eq,
}
use gantry_core.Base.Result.{ok, err}
use gantry_core.Propagation.Transaction.{Executor, execute}
use gantry_core.Propagation.Transaction.Settled.{Reports, some_stay, some_do_not, execute-Reports}

-- Only the node `a` can be applied.
abbrev calls : Executor (List String)
calls = record {
  validate = λ node s. none;
  apply_plan =
      λ node s. if str_eq node "a" then ("apply a" ∷ s, ok []) else ("fail" ∷ s, err "refused");
  rollback = λ node revisions s. ("rollback a" ∷ s, none);
}

-- A node that was rolled back is rolled back again when a later node fails too.
rolls_back_twice :
    (execute calls true ("a" ∷ "b" ∷ "c" ∷ []) []).0
    ≡ "rollback a" ∷ "fail" ∷ "rollback a" ∷ "fail" ∷ "apply a" ∷ []
unfolding execute
rolls_back_twice = refl

-- A node after the one that failed is applied, and stays.
goes_on : (execute calls true ("b" ∷ "a" ∷ []) []).1.is_partial ≡ true
unfolding execute
goes_on = refl

execute-Reports_example :
    Reports ("a" ∷ "b" ∷ []) (execute calls false ("a" ∷ "b" ∷ []) []).1.results
    × ((execute calls false ("a" ∷ "b" ∷ []) []).1.is_partial ≡ (
        some_stay (execute calls false ("a" ∷ "b" ∷ []) []).1.results
        && some_do_not (execute calls false ("a" ∷ "b" ∷ []) []).1.results))
execute-Reports_example = execute-Reports calls false ("a" ∷ "b" ∷ []) []
