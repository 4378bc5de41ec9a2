-- ===== src/Agent/RunState/Later.antt =====
-- What no interleaving of the recorders can undo.
use gantry_core.Base.{
  ℕ, ◌+◌, ◌≤◌, ◌≡◌, ◌≢◌, refl, sym, ◌∙◌, ◌⊎◌, inl, inr, true, not, ◌||◌, arith, Bool-cases,
}
use gantry_core.Agent.RunState.{
  Cause, none_yet, user_stop, request_cancelled, output_limit, service_shutdown,
  insufficient_balance, Snapshot, RunState, first_write, first_write_at, next_sequence,
  record_error, record_provider_failure, record_error_at, record_stop_at,
  record_provider_failure_at, replaces, record_cause, seal, advance,
}

pub data Step (s : RunState) : RunState → Type 0 where
  numbered : Step s (next_sequence s).0
  error_recorded : Step s (record_error s)
  provider_failed : Step s (record_provider_failure s)
  error_recorded_at : (n : ℕ) → Step s (record_error_at n s)
  stop_recorded_at : (n : ℕ) → Step s (record_stop_at n s)
  provider_failed_at : (n : ℕ) → Step s (record_provider_failure_at n s)
  cause_recorded : (c : Cause) → Step s (record_cause c s).0
  closed : Step s (seal s)

pub data Steps (s : RunState) : RunState → Type 0 where
  here : Steps s s
  next : {mid last : RunState} → Steps s mid → Step mid last → Steps s last

-- How final a cause is: a limit and a shutdown replace nothing of their own rank.
abbrev pub rank : Cause → ℕ
rank none_yet = 0
rank request_cancelled = 1
rank user_stop = 2
rank output_limit = 3
rank service_shutdown = 3
rank insufficient_balance = 0

-- A number that was written stays.
abbrev pub Written : ℕ → ℕ → Type 0
Written old new = old ≢ 0 → new ≡ old

abbrev pub SameCause : Snapshot → Snapshot → Type 0
SameCause s t = (t.cause ≡ s.cause) × (t.cause_sequence ≡ s.cause_sequence)

-- A later state: first numbers stay, a closed state stays closed with its cause, and a cause gives
-- way to a higher rank only.
pub record Later (s t : Snapshot) : Type 0 where
  pub error_kept : Written s.error_sequence t.error_sequence
  pub stop_kept : Written s.stop_sequence t.stop_sequence
  pub provider_kept : Written s.provider_error_sequence t.provider_error_sequence
  pub closed_kept : s.sealed ≡ true → (t.sealed ≡ true) × SameCause s t
  pub cause_rises : SameCause s t ⊎ (rank s.cause + 1 ≤ rank t.cause)

refl_Later : (s : Snapshot) → Later s s
refl_Later s = record {
  error_kept = λ h. refl;
  stop_kept = λ h. refl;
  provider_kept = λ h. refl;
  closed_kept = λ h. (h, (refl, refl));
  cause_rises = inl (refl, refl);
}

Written-trans : (a b c : ℕ) → Written a b → Written b c → Written a c
Written-trans a b c f g h = ground (arith, f h, g, h)

rises :
    (s t u : Snapshot)
    → SameCause s t ⊎ (rank s.cause + 1 ≤ rank t.cause)
    → SameCause t u ⊎ (rank t.cause + 1 ≤ rank u.cause)
    → SameCause s u ⊎ (rank s.cause + 1 ≤ rank u.cause)
rises s t u (inl (e, e')) (inl (f, f')) = inl (f ∙ e, f' ∙ e')
rises s t u (inl (e, e')) (inr f) = inr (rw (sym e) f)
rises s t u (inr e) (inl (f, f')) = inr (rw f e)
rises s t u (inr e) (inr f) = inr (omega (arith, e, f))

trans_Later : {s t u : Snapshot} → Later s t → Later t u → Later s u
trans_Later {s} {t} {u} p q = record {
  error_kept =
      Written-trans s.error_sequence t.error_sequence u.error_sequence p.error_kept q.error_kept;
  stop_kept = Written-trans s.stop_sequence t.stop_sequence u.stop_sequence p.stop_kept q.stop_kept;
  provider_kept =
      Written-trans s.provider_error_sequence t.provider_error_sequence u.provider_error_sequence
        p.provider_kept q.provider_kept;
  closed_kept = λ h.
      let (shut, (e, e')) = p.closed_kept h in
      let (shut', (f, f')) = q.closed_kept shut in (shut', (f ∙ e, f' ∙ e'));
  cause_rises = rises s t u p.cause_rises q.cause_rises;
}

first_write-Written : (old n : ℕ) → Written old (first_write old n)
unfolding first_write
first_write-Written old n h = ground (arith, h)

first_write_at-Written : (old n : ℕ) → Written old (first_write_at old n)
unfolding first_write_at
first_write_at-Written old n h = ground (arith, h)

replaces-rank : (c old : Cause) → replaces c old ≡ true → rank old + 1 ≤ rank c
unfolding replaces
replaces-rank c old h = ground (arith, h)

record_cause-Later : (c : Cause) (s : RunState) → Later s.snapshot (record_cause c s).0.snapshot
unfolding record_cause
record_cause-Later c s =
    elim (Bool-cases (s.snapshot.sealed || not (replaces c s.snapshot.cause))) [
      | inl e ↦ rw e (refl_Later s.snapshot)
      | inr e ↦ rw e (record {
        error_kept = λ h. refl;
        stop_kept = λ h. refl;
        provider_kept = λ h. refl;
        closed_kept = λ h. ground (arith, e, h);
        cause_rises = inr (replaces-rank c s.snapshot.cause (ground (arith, e)));
      })
    ]

-- A step that leaves the cause.
numbers-Later :
    {s t : Snapshot}
    → Written s.error_sequence t.error_sequence
    → Written s.stop_sequence t.stop_sequence
    → Written s.provider_error_sequence t.provider_error_sequence
    → (s.sealed ≡ true → t.sealed ≡ true)
    → SameCause s t
    → Later s t
numbers-Later error stop provider shut same = record {
  error_kept = error;
  stop_kept = stop;
  provider_kept = provider;
  closed_kept = λ h. (shut h, same);
  cause_rises = inl same;
}

unchanged : {n : ℕ} → Written n n
unchanged h = refl

Step-Later : (s t : RunState) → Step s t → Later s.snapshot t.snapshot
unfolding next_sequence record_error record_provider_failure record_error_at record_stop_at
    record_provider_failure_at seal
Step-Later s _ numbered = refl_Later s.snapshot
Step-Later s _ error_recorded =
    numbers-Later (first_write-Written s.snapshot.error_sequence (advance s.sequence)) unchanged
      unchanged (λ h. h) (refl, refl)
Step-Later s _ provider_failed =
    numbers-Later unchanged unchanged
      (first_write-Written s.snapshot.provider_error_sequence (advance s.sequence)) (λ h. h)
      (refl, refl)
Step-Later s _ (error_recorded_at n) =
    numbers-Later (first_write_at-Written s.snapshot.error_sequence n) unchanged unchanged (λ h. h)
      (refl, refl)
Step-Later s _ (stop_recorded_at n) =
    numbers-Later unchanged (first_write_at-Written s.snapshot.stop_sequence n) unchanged (λ h. h)
      (refl, refl)
Step-Later s _ (provider_failed_at n) =
    numbers-Later unchanged unchanged (first_write_at-Written s.snapshot.provider_error_sequence n)
      (λ h. h) (refl, refl)
Step-Later s _ (cause_recorded c) = record_cause-Later c s
Step-Later s _ closed = numbers-Later unchanged unchanged unchanged (λ h. refl) (refl, refl)

-- Whatever the recorders do in whatever order: the first number of an error, a stop or a provider
-- failure stays, a closed state keeps its cause, and a cause is replaced only by one of higher rank,
-- where a cancelled request is below a stop by the user, and that below a limit and a shutdown.
pub Steps-Later : (s t : RunState) → Steps s t → Later s.snapshot t.snapshot
Steps-Later s _ here = refl_Later s.snapshot
Steps-Later s t (next {mid} steps step) =
    trans_Later (Steps-Later s mid steps) (Step-Later mid t step)
