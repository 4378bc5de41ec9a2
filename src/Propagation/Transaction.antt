-- ===== src/Propagation/Transaction.antt =====
-- One plan on several nodes (propagation/transaction.go).
pub mod Settled
mod Tests
use gantry_core.Base.{
  ℕ, ◌+◌, Bool, true, false, ◌&&◌, not, if◌then◌else◌, ltb, String, Option, none, some, List, [],
  ◌∷◌, ◌++◌, str_eq, length,
}
use gantry_core.Base.Result.{Result, ok, err}
use gantry_core.Propagation.Apply.{AppliedRevision}
use Prim.Native.String.{◌++◌ as append_str}

pub record NodeResult : Type 0 where
  pub node : String
  pub validated : Bool
  pub applied : Bool
  pub rolled_back : Bool
  pub revisions : List AppliedRevision
  pub error : String

-- `Executor`, for one plan. The nodes are one state, which `Apply` and `Rollback` change.
pub record Executor (S : Type 0) : Type 0 where
  pub validate : String → S → Option String
  pub apply_plan : String → S → S × Result String (List AppliedRevision)
  pub rollback : String → List AppliedRevision → S → S × Option String

-- The times are left out.
pub record TransactionResult : Type 0 where
  pub results : List NodeResult
  pub is_partial : Bool

abbrev pub stays : NodeResult → Bool
stays r = r.applied && not r.rolled_back

unfoldable pub successes : List NodeResult → ℕ
successes [] = 0
successes (r ∷ rs) = (if stays r then 1 else 0) + successes rs

-- The test after the loops.
unfoldable pub finished : List NodeResult → TransactionResult
unfolding successes
finished rs = record {
  results = rs;
  is_partial = ltb 0 (successes rs) && ltb (successes rs) (length rs);
}

unfoldable pub validated_as : String → Option String → NodeResult
validated_as n none = record {
  node = n;
  validated = true;
  applied = false;
  rolled_back = false;
  revisions = [];
  error = "";
}
validated_as n (some e) = record {
  node = n;
  validated = false;
  applied = false;
  rolled_back = false;
  revisions = [];
  error = e;
}

-- What the answer of `Rollback` leaves in the result of the node.
unfoldable pub rolled : NodeResult → Option String → NodeResult
rolled r none = record r { rolled_back = true }
rolled r (some e) = if str_eq r.error "" then record r { error = append_str "rollback: " e } else r

module _ {S : Type 0} (ex : Executor S) (rollback_on_failure : Bool) where
  -- The first loop of `Execute`.
  unfoldable pub validate_nodes : List String → S → List NodeResult
  unfolding validated_as
  validate_nodes [] s = []
  validate_nodes (n ∷ ns) s = validated_as n (ex.validate n s) ∷ validate_nodes ns s

  -- A node, if it was applied, is rolled back.
  unfoldable pub back_if : Bool → NodeResult → S → S × NodeResult
  unfolding rolled
  back_if false r s = (s, r)
  back_if true r s = let (s', answer) = ex.rollback r.node r.revisions s in (s', rolled r answer)

  -- The loop that takes back the nodes before the one that failed.
  unfoldable pub roll_back_done : List NodeResult → S → S × List NodeResult
  unfolding back_if
  roll_back_done [] s = (s, [])
  roll_back_done (r ∷ rs) s =
      let (s', r') = back_if r.applied r s in
      let (last, rest) = roll_back_done rs s' in (last, r' ∷ rest)

  -- After `Apply`: the nodes before, and this one.
  unfoldable pub applied_as :
      List NodeResult → NodeResult → S × Result String (List AppliedRevision) → S × List NodeResult
  unfolding roll_back_done
  applied_as done r (s, ok revisions) =
      (s, done ++ (record r { applied = true; revisions = revisions } ∷ []))
  applied_as done r (s, err e) =
      let (s', done') = if rollback_on_failure then roll_back_done done s else (s, done) in
      (s', done' ++ (record r { error = e } ∷ []))

  unfoldable pub apply_if : Bool → List NodeResult → NodeResult → S → S × List NodeResult
  unfolding applied_as
  apply_if false done r s = (s, done ++ (r ∷ []))
  apply_if true done r s = applied_as done r (ex.apply_plan r.node s)

  -- One turn of the second loop.
  unfoldable pub turn : List NodeResult → NodeResult → S → S × List NodeResult
  unfolding apply_if
  turn done r s = apply_if r.validated done r s

  unfoldable pub apply_nodes : List NodeResult → List NodeResult → S → S × List NodeResult
  unfolding turn
  apply_nodes done [] s = (s, done)
  apply_nodes done (r ∷ rest) s = let (s', done') = turn done r s in apply_nodes done' rest s'

  -- `Execute`
  unfoldable pub execute : List String → S → S × TransactionResult
  unfolding validate_nodes apply_nodes finished
  execute nodes s =
      let (s', results) = apply_nodes [] (validate_nodes nodes s) s in (s', finished results)
