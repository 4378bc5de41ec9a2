-- ===== src/Replication/WaitTests.antt =====
-- A wait of a follower, as a run and as its theorem at a concrete input.
use gantry_core.Base.{◌≡◌, ◌↔◌, refl, none, some, List, [], ◌∷◌, arith, lookup}
use gantry_core.Base.Int.{pos}
use gantry_core.Base.Result.{ok, err}
use gantry_core.Replication.Error.{context_done}
use gantry_core.Replication.Fsm.{AppliedOp, Log, run}
use gantry_core.Replication.Operation.{Operation}
use gantry_core.Replication.Node.Wait.{Round, wait_applied, Arrived, wait_applied-Arrived}
use gantry_core.Replication.Fsm.Position.{IsIndexed}
use gantry_core.Replication.Tests.{plain, write, start, entry, written_state, all_open}

-- The log has one operation more than the follower sees in the first round.
abbrev log : List (Log Operation)
log = entry 1 (write "op-1" "k" "v") ∷ entry 2 (write "op-2" "k" "w") ∷ []

abbrev second : AppliedOp
second = record {
  digest = "w";
  result = record {
    index = 2;
    term = 1;
    op_id = "op-2";
    object_id = "k";
    kind = "kv.set";
    version = pos 1;
    revision = pos 2;
  };
}

abbrev rounds : List Round
rounds =
    record { fsm = written_state; done = none }
    ∷ record { fsm = run plain start log; done = some "cancelled" }
    ∷ []

known : lookup "op-2" (run plain start log).applied ≡ some second
unfolding all_open
known = refl

-- A context that is done while the operation is on its way ends the wait with its error.
cancelled :
    wait_applied 2 (record { fsm = written_state; done = some "cancelled" } ∷ rounds)
    ≡ some (err (context_done "cancelled"))
unfolding all_open wait_applied
cancelled = refl

new_known : IsIndexed start
unfolding all_open
new_known id p h = absurd (cc)

wait_applied-Arrived_example : (wait_applied 2 rounds ≡ some (ok tt)) ↔ Arrived "op-2" second rounds
unfolding all_open
wait_applied-Arrived_example =
    wait_applied-Arrived plain start log log [] "op-2" second (omega arith, (omega arith, tt))
      new_known refl known rounds
      (
        (entry 1 (write "op-1" "k" "v") ∷ [], entry 2 (write "op-2" "k" "w") ∷ [], refl, refl),
        ((log, [], refl, refl), tt),
      )
