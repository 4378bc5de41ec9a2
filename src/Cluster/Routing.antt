-- ===== src/Cluster/Routing.antt =====
-- Targets of a cluster command, and a call that fans out to nodes (cluster/routing.go).
pub mod FanOut
use Prim.Native.String.{len}
use text.Mathlib.Text.{starts_with}
use gantry_core.Base.{
  ℕ, zero, suc, ◌<◌, ◌≡◌, ◌++◌, length, leb, Bool, true, false, ◌&&◌, ◌||◌, not, if◌then◌else◌,
  String, Option, none, some, List, [], ◌∷◌, str_eq,
}
use gantry_core.Base.Int.{ℤ, pos, negsuc}
use gantry_core.Base.Result.{Result, ok, err}
use gantry_core.Base.Sort.{sort_by, str_leb}
use gantry_core.Base.Text.{trim_space, drop_chars}

pub data Target : Type 0 where
  target_all target_local target_members : Target
  target_node : String → Target

pub data TargetError : Type 0 where
  target_invalid : TargetError

-- `ParseTarget` on the trimmed text. `strings.TrimPrefix` drops the five characters of the prefix.
unfoldable pub parse_trimmed : String → Result TargetError Target
unfolding drop_chars
parse_trimmed raw =
    if str_eq raw "" || str_eq raw "all"
    then ok target_all
    else if str_eq raw "local"
    then ok target_local
    else if str_eq raw "members"
    then ok target_members
    else if starts_with raw "node:" && leb 4 (len (drop_chars 5 raw))
    then ok (target_node (drop_chars 5 raw))
    else if leb 4 (len raw)
    then ok (target_node raw)
    else err target_invalid

-- `ParseTarget`
unfoldable pub parse_target : String → Result TargetError Target
unfolding parse_trimmed
parse_target raw = parse_trimmed (trim_space raw)

pub record NodeResult (T : Type 0) : Type 0 where
  pub node_id : String
  pub owner_node : String
  pub is_ok : Bool
  pub error : String
  pub value : Option T

pub record Report (T : Type 0) : Type 0 where
  pub request_id : String
  pub partial : Bool
  pub results : List (NodeResult T)

-- The result of one call, whose error is its text.
unfoldable pub node_result : {T : Type 0} → String → Result String T → NodeResult T
node_result id (ok v) = record {
  node_id = id;
  owner_node = id;
  is_ok = true;
  error = "";
  value = some v;
}
node_result id (err e) = record {
  node_id = id;
  owner_node = id;
  is_ok = false;
  error = e;
  value = none;
}

-- The size of the semaphore.
unfoldable pub effective_limit : ℤ → ℕ
effective_limit (pos zero) = 4
effective_limit (pos (suc n)) = suc n
effective_limit (negsuc n) = 4

-- The goroutines of `FanOut`: those that wait for the semaphore, those that hold it, and what was
-- appended under the lock.
pub record Fan (T : Type 0) : Type 0 where
  pub waiting : List String
  pub running : List String
  pub results : List (NodeResult T)

unfoldable pub fan_started : {T : Type 0} → List String → Fan T
unfolding sort_by
fan_started ids = record { waiting = sort_by str_leb ids; running = []; results = [] }

-- One goroutine takes the semaphore, or one ends its call, appends its result and lets go.
pub data FanStep {T : Type 0} (call : String → Result String T) (limit : ℤ) (f : Fan T)
    : Fan T → Type 0 where
  acquire :
      (before after : List String) (id : String)
      → f.waiting ≡ before ++ id ∷ after
      → length f.running < effective_limit limit
      → FanStep call limit f (record f { waiting = before ++ after; running = id ∷ f.running })
  finish :
      (before after : List String) (id : String)
      → f.running ≡ before ++ id ∷ after
      → FanStep call limit f (record f {
        running = before ++ after;
        results = f.results ++ node_result id (call id) ∷ [];
      })

unfoldable pub result_leb : {T : Type 0} → NodeResult T → NodeResult T → Bool
result_leb x y = str_leb x.node_id y.node_id

-- What `FanOut` returns after the last goroutine is done.
unfoldable pub fan_returned : {T : Type 0} → Fan T → List (NodeResult T)
unfolding sort_by result_leb
fan_returned f = sort_by result_leb f.results

-- `IsPartial`
unfoldable pub is_partial : {T : Type 0} → List (NodeResult T) → Bool
is_partial [] = false
is_partial (r ∷ rs) = not r.is_ok || is_partial rs
