-- ===== src/Agent/Tests.antt =====
-- Runs of the agent state, and its theorems at concrete inputs.
use gantry_core.Base.{◌≡◌, refl, true, false, [], ◌∷◌}
use gantry_core.Agent.Recovered.{reconcile_recovered, run_args}
use gantry_core.Agent.RunState.{
  user_stop, output_limit, new_run_state, record_cause, record_error, seal,
}
use gantry_core.Agent.RunState.Later.{Step, Steps, Later, Steps-Later}

-- A stop by the user gives way to the limit, and after the end nothing does.
Steps-Later_example :
    let stopped = (record_cause user_stop new_run_state).0 in
    Later stopped.snapshot
      (record_cause user_stop
        (seal (record_cause output_limit (record_error stopped)).0)).0.snapshot
Steps-Later_example = Steps-Later (record_cause user_stop new_run_state).0 _ (
    Steps.next
      (Steps.next
        (Steps.next (Steps.next Steps.here Step.error_recorded) (Step.cause_recorded output_limit))
        Step.closed)
      (Step.cause_recorded user_stop))

-- The overlap is joined, and what the stream shows already is not shown again.
overlap_joined : reconcile_recovered "one two" "two three" ≡ ("three", false, false)
unfolding reconcile_recovered
overlap_joined = refl

shown_already : reconcile_recovered "one two three" " two " ≡ ("", true, false)
unfolding reconcile_recovered
shown_already = refl

-- The prompt follows the end of the options.
prompt_last :
    run_args "/w" "m" " s " ("a" ∷ []) "--file x"
    ≡ "--print-logs" ∷ "--log-level" ∷ "WARN" ∷ "run" ∷ "--format" ∷ "json" ∷ "--auto" ∷ "--dir"
      ∷ "/w" ∷ "--model" ∷ "m" ∷ "--session" ∷ "s" ∷ "--file" ∷ "a" ∷ "--" ∷ "--file x" ∷ []
unfolding run_args
prompt_last = refl
