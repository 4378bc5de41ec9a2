-- ===== src/Replication/Authority.antt =====
-- The configured mode, the runtime readiness and the routing of authoritative mutations
-- (replication/authority.go), and the driver that derives readiness (replication/readiness.go).
pub mod Routing
use gantry_core.Base.{
  ℕ, Bool, true, false, String, Option, none, some, List, [], ◌∷◌, ltb, str_eq, if◌then◌else◌,
  Assoc, lookup,
}
use gantry_core.Base.Int.{ℤ, pos, ltb_ℤ}
use gantry_core.Base.Result.{Result, err}
use gantry_core.Replication.Error.{Error, standalone, mutation_unavailable}
use gantry_core.Replication.Fsm.{ApplyResult}
use gantry_core.Replication.Node.{RaftState, follower, candidate, leader, shutdown}

-- `ModeStandalone` and `ModeReplicated`.
pub data Mode : Type 0 where
  standalone_mode replicated_mode : Mode

unfoldable pub mode_text : Mode → String
mode_text replicated_mode = "replicated"
mode_text standalone_mode = "standalone"

-- The envelope of a forwarded mutation.
pub record ForwardRequest : Type 0 where
  pub kind : String
  pub object_id : String
  pub op_id : String
  pub revision : ℤ
  pub payload : String

-- A context, as far as its request identity goes.
abbrev pub Context : Type 0
Context = Option String

unfoldable pub with_request_id : Context → String → Context
with_request_id ctx id = some id

-- `RequestID`
unfoldable pub request_id : Context → String
request_id none = ""
request_id (some id) = id

-- The constants `Readiness…`; `String` is total on them.
pub data Readiness : Type 0 where
  starting learner ready_follower ready_leader no_leader unhealthy shutting_down : Readiness

unfoldable pub readiness_text : Readiness → String
readiness_text starting = "starting"
readiness_text learner = "learner/catching-up"
readiness_text ready_follower = "ready-follower"
readiness_text ready_leader = "ready-leader"
readiness_text no_leader = "no-leader"
readiness_text unhealthy = "unhealthy"
readiness_text shutting_down = "shutting-down"

-- `F` is the type of forwarding transports, which this code only keeps.
pub record Authority (F : Type 0) : Type 0 where
  pub mode : Mode
  pub readiness : Readiness
  pub forward : Option F

module _ {F : Type 0} where
  unfoldable pub new_authority : Authority F
  new_authority = record { mode = standalone_mode; readiness = starting; forward = none }

  unfoldable pub set_mode : Authority F → Mode → Authority F
  set_mode a m = record a { mode = m }

  unfoldable pub set_readiness : Authority F → Readiness → Authority F
  set_readiness a r = record a { readiness = r }

  unfoldable pub set_forward_client : Authority F → Option F → Authority F
  set_forward_client a f = record a { forward = f }

  -- `ForwardClient`
  unfoldable pub forward_client : Authority F → Option F
  forward_client a = a.forward

  -- `State`
  unfoldable pub authority_state : Authority F → Mode × Readiness
  authority_state a = (a.mode, a.readiness)

-- What `Route` calls: at most one of the two actions it is given, which is recorded with its result.
pub data Call : Type 0 where
  proposed forwarded nothing : Call

abbrev pub Answer : Type 0
Answer = Result Error ApplyResult

-- `switch rd`
unfoldable pub by_readiness : Readiness → Answer → Answer → Call × Answer
unfolding readiness_text
by_readiness ready_leader propose forward = (proposed, propose)
by_readiness ready_follower propose forward = (forwarded, forward)
by_readiness starting propose forward =
    (nothing, err (mutation_unavailable (readiness_text starting)))
by_readiness learner propose forward =
    (nothing, err (mutation_unavailable (readiness_text learner)))
by_readiness no_leader propose forward =
    (nothing, err (mutation_unavailable (readiness_text no_leader)))
by_readiness unhealthy propose forward =
    (nothing, err (mutation_unavailable (readiness_text unhealthy)))
by_readiness shutting_down propose forward =
    (nothing, err (mutation_unavailable (readiness_text shutting_down)))

unfoldable pub by_mode : Mode → Readiness → Answer → Answer → Call × Answer
unfolding by_readiness
by_mode standalone_mode r propose forward = (nothing, err standalone)
by_mode replicated_mode r propose forward = by_readiness r propose forward

-- `Route`, with the answers that the actions would give.
unfoldable pub route : {F : Type 0} → Authority F → Answer → Answer → Call × Answer
unfolding by_mode
route a propose forward = by_mode a.mode a.readiness propose forward

-- The values that `caughtUp` reads from raft's statistics. `parse_duration` is `time.ParseDuration`
-- in nanoseconds.
pub record Stats : Type 0 where
  pub applied_index : ℕ
  pub last_log_index : ℕ
  pub last_contact : String

-- A missing statistic is the empty text.
abbrev text_or_empty : Option String → String
text_or_empty none = ""
text_or_empty (some t) = t

-- `parseIndex` ignores the error of `strconv.ParseUint`, whose number and error are `parse_uint`.
unfoldable pub parse_index : (String → ℕ × Option String) → Option String → ℕ
parse_index parse_uint v = (parse_uint (text_or_empty v)).0

unfoldable pub read_stats : (String → ℕ × Option String) → Assoc String → Stats
unfolding parse_index
read_stats parse_uint stats = record {
  applied_index = parse_index parse_uint (lookup "applied_index" stats);
  last_log_index = parse_index parse_uint (lookup "last_log_index" stats);
  last_contact = text_or_empty (lookup "last_contact" stats);
}

-- The interval that `NewReadinessDriver` keeps, in nanoseconds.
unfoldable pub driver_interval : ℤ → ℤ
driver_interval given = if ltb_ℤ (pos 0) given then given else pos 150_000_000

-- What one cycle of `Run` reads: whether the health hook fails, the raft state, whether a leader's
-- address is known, and the statistics.
pub record Cycle : Type 0 where
  pub sick : Bool
  pub state : RaftState
  pub leader_addr : String
  pub stats : Stats

module _ (parse_duration : String → Option ℤ) where
  unfoldable pub recent : String → Bool
  recent contact =
      if str_eq contact "0"
      then true
      else if str_eq contact ""
      then false
      else if str_eq contact "never"
      then false
      else elim (parse_duration contact) [ none ↦ false | some d ↦ ltb_ℤ d (pos 2000000000) ]

  unfoldable pub caught_up : Stats → Bool
  unfolding recent
  caught_up s = if ltb s.applied_index s.last_log_index then false else recent s.last_contact

  unfoldable pub follower_readiness : String → Stats → Readiness
  unfolding caught_up
  follower_readiness addr s =
      if str_eq addr "" then no_leader else if caught_up s then ready_follower else learner

  unfoldable pub state_readiness : RaftState → String → Stats → Readiness
  unfolding follower_readiness
  state_readiness leader addr s = ready_leader
  state_readiness follower addr s = follower_readiness addr s
  state_readiness candidate addr s = no_leader
  state_readiness shutdown addr s = shutting_down

  unfoldable pub derive : Cycle → Readiness
  unfolding state_readiness
  derive k = if k.sick then unhealthy else state_readiness k.state k.leader_addr k.stats

  -- `Run` with the authority as its `set`: the cycles before the context is done, then the last
  -- assignment.
  unfoldable pub drive : {F : Type 0} → Authority F → List Cycle → Authority F
  unfolding derive set_readiness
  drive a [] = set_readiness a shutting_down
  drive a (k ∷ ks) = drive (set_readiness a (derive k)) ks
