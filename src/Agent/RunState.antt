-- ===== src/Agent/RunState.antt =====
-- The state that the readers, the watchers and the requests of one run share (agent/agent.go). Every
-- operation holds the lock, so an interleaving of them is a sequence of steps. The counters are uint64.
pub mod Later
use gantry_core.Base.{
  ℕ, ◌+◌, ◌%◌, ◌^◌, Bool, true, false, not, ◌&&◌, ◌||◌, if◌then◌else◌, ◌==◌, ltb,
}

pub data Cause : Type 0 where
  none_yet user_stop request_cancelled output_limit service_shutdown insufficient_balance : Cause

pub record Snapshot : Type 0 where
  pub cause : Cause
  pub error_sequence : ℕ
  pub cause_sequence : ℕ
  pub stop_sequence : ℕ
  pub provider_error_sequence : ℕ
  pub sealed : Bool

pub record RunState : Type 0 where
  pub snapshot : Snapshot
  pub sequence : ℕ

unfoldable pub new_run_state : RunState
new_run_state = record {
  snapshot = record {
    cause = none_yet;
    error_sequence = 0;
    cause_sequence = 0;
    stop_sequence = 0;
    provider_error_sequence = 0;
    sealed = false;
  };
  sequence = 0;
}

-- `s.sequence++`
unfoldable pub advance : ℕ → ℕ
advance n = (n + 1) % 2 ^ 64

-- `if *seq == 0 { *seq = n }`
unfoldable pub first_write : ℕ → ℕ → ℕ
first_write old n = if old == 0 then n else old

-- `if n > 0 && *seq == 0 { *seq = n }`
unfoldable pub first_write_at : ℕ → ℕ → ℕ
first_write_at old n = if ltb 0 n && old == 0 then n else old

unfoldable pub next_sequence : RunState → RunState × ℕ
unfolding advance
next_sequence s = (record s { sequence = advance s.sequence }, advance s.sequence)

unfoldable pub record_error : RunState → RunState
unfolding advance first_write
record_error s =
    let n = advance s.sequence in
    record {
      snapshot = record s.snapshot { error_sequence = first_write s.snapshot.error_sequence n };
      sequence = n;
    }

unfoldable pub record_provider_failure : RunState → RunState
unfolding advance first_write
record_provider_failure s =
    let n = advance s.sequence in
    record {
      snapshot = record s.snapshot {
        provider_error_sequence = first_write s.snapshot.provider_error_sequence n;
      };
      sequence = n;
    }

unfoldable pub record_error_at : ℕ → RunState → RunState
unfolding first_write_at
record_error_at n s = record s {
  snapshot = record s.snapshot { error_sequence = first_write_at s.snapshot.error_sequence n };
}

unfoldable pub record_stop_at : ℕ → RunState → RunState
unfolding first_write_at
record_stop_at n s = record s {
  snapshot = record s.snapshot { stop_sequence = first_write_at s.snapshot.stop_sequence n };
}

unfoldable pub record_provider_failure_at : ℕ → RunState → RunState
unfolding first_write_at
record_provider_failure_at n s = record s {
  snapshot = record s.snapshot {
    provider_error_sequence = first_write_at s.snapshot.provider_error_sequence n;
  };
}

abbrev pub is_none : Cause → Bool
is_none none_yet = true
is_none _ = false

abbrev pub is_cancelled : Cause → Bool
is_cancelled request_cancelled = true
is_cancelled _ = false

abbrev pub is_stop : Cause → Bool
is_stop user_stop = true
is_stop _ = false

-- The guards of the switch in `RecordCause`: whether a cause may replace the current one.
unfoldable pub replaces : Cause → Cause → Bool
replaces request_cancelled old = is_none old
replaces user_stop old = is_none old || is_cancelled old
replaces output_limit old = is_none old || is_cancelled old || is_stop old
replaces service_shutdown old = is_none old || is_cancelled old
replaces none_yet old = false
replaces insufficient_balance old = false

unfoldable pub record_cause : Cause → RunState → RunState × Bool
unfolding replaces advance
record_cause c s = if s.snapshot.sealed || not (replaces c s.snapshot.cause) then (s, false) else (
  record {
    snapshot = record s.snapshot { cause = c; cause_sequence = advance s.sequence };
    sequence = advance s.sequence;
  },
  true,
)

unfoldable pub seal : RunState → RunState
seal s = record s { snapshot = record s.snapshot { sealed = true } }
