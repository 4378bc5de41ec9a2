-- ===== src/Agent/Outcome.antt =====
-- How a finished run is classified (agent/agent.go).
use gantry_core.Base.{
  ◌≡◌, refl, inl, inr, Bool, true, false, not, ◌&&◌, ◌||◌, if◌then◌else◌, ◌==◌, ltb, arith,
  Bool-cases,
}
use gantry_core.Base.Int.{ℤ, eq_ℤ, pos}
use gantry_core.Agent.RunState.{
  Cause, none_yet, user_stop, request_cancelled, output_limit, service_shutdown,
  insufficient_balance, is_none, Snapshot,
}

pub data Outcome : Type 0 where
  completed completed_with_process_error outcome_failed cancelled truncated interrupted incomplete :
      Outcome

pub record ExitStatus : Type 0 where
  pub exited : Bool
  pub exit_code : ℤ
  pub signaled : Bool

-- The condition of the first `if`: the provider failed before anything else ended the run.
unfoldable pub provider_first : Snapshot → Cause → Bool
provider_first s provider =
    not (is_none provider)
    && (s.stop_sequence == 0 || ltb s.provider_error_sequence s.stop_sequence)
    && (is_none s.cause || ltb 0 s.cause_sequence && ltb s.provider_error_sequence s.cause_sequence)

-- The condition of the second `if`.
unfoldable pub error_first : Snapshot → Bool → Bool
error_first s stdout_error =
    stdout_error
    && (s.stop_sequence == 0 || ltb 0 s.error_sequence && ltb s.error_sequence s.stop_sequence)
    && (is_none s.cause
        || ltb 0 s.error_sequence
          && ltb 0 s.cause_sequence
          && ltb s.error_sequence s.cause_sequence)

-- The end of `Classify`, where only the process counts.
unfoldable pub classify_exit : Bool → ExitStatus → Outcome
classify_exit valid_stop exit =
    if exit.signaled
    then outcome_failed
    else if exit.exited && not (eq_ℤ exit.exit_code (pos 0)) && valid_stop
    then completed_with_process_error
    else if exit.exited && not (eq_ℤ exit.exit_code (pos 0))
    then outcome_failed
    else if exit.exited && eq_ℤ exit.exit_code (pos 0) && valid_stop
    then completed
    else outcome_failed

-- `switch state.Cause`
unfoldable pub classify_cause : Cause → Bool → ExitStatus → Outcome
unfolding classify_exit
classify_cause output_limit valid_stop exit = truncated
classify_cause user_stop valid_stop exit = cancelled
classify_cause request_cancelled valid_stop exit = cancelled
classify_cause service_shutdown valid_stop exit = interrupted
classify_cause none_yet valid_stop exit = classify_exit valid_stop exit
classify_cause insufficient_balance valid_stop exit = classify_exit valid_stop exit

-- `Classify`
unfoldable pub classify : Snapshot → Bool → Bool → ExitStatus → Cause → Outcome
unfolding provider_first error_first classify_cause
classify s stdout_error valid_stop exit provider =
    if provider_first s provider
    then outcome_failed
    else if error_first s stdout_error
    then outcome_failed
    else classify_cause s.cause valid_stop exit

abbrev pub is_completed : Outcome → Bool
is_completed completed = true
is_completed completed_with_process_error = true
is_completed _ = false

abbrev pub is_failed : Outcome → Bool
is_failed outcome_failed = true
is_failed _ = false

-- Whether the recorder itself ended the run.
abbrev pub ended_by : Cause → Bool
ended_by none_yet = false
ended_by insufficient_balance = false
ended_by _ = true

classify_exit-completed :
    (valid_stop : Bool) (exit : ExitStatus)
    → is_completed (classify_exit valid_stop exit)
      ≡ (exit.exited && not exit.signaled && valid_stop)
unfolding classify_exit
classify_exit-completed valid_stop exit = ground arith

classify_cause-completed :
    (c : Cause) (valid_stop : Bool) (exit : ExitStatus)
    → is_completed (classify_cause c valid_stop exit)
      ≡ (not (ended_by c) && (exit.exited && not exit.signaled && valid_stop))
unfolding classify_cause
classify_cause-completed c valid_stop exit = ground (arith, classify_exit-completed valid_stop exit)

-- A run counts as completed exactly when the process exited by itself, a valid stop was seen, nothing
-- else ended the run, and neither a provider failure nor an error came before the stop.
pub classify-completed :
    (s : Snapshot) (stdout_error valid_stop : Bool) (exit : ExitStatus) (provider : Cause)
    → is_completed (classify s stdout_error valid_stop exit provider) ≡ (
        not (provider_first s provider)
        && not (error_first s stdout_error)
        && not (ended_by s.cause)
        && (exit.exited && not exit.signaled && valid_stop))
unfolding classify
classify-completed s stdout_error valid_stop exit provider =
    let rest = classify_cause-completed s.cause valid_stop exit in
    elim (Bool-cases (provider_first s provider)) [
      | inl e ↦ rw e refl
      | inr e ↦ elim (Bool-cases (error_first s stdout_error)) [
        | inl f ↦ rw (e, f) refl
        | inr f ↦ rw (e, f) rest
      ]
    ]
