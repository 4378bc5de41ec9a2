-- ===== src/Auth/Execution/Permitted.antt =====
-- Who is authorized, and which executions are accepted.
use gantry_core.Base.{
  ◌≡◌, refl, ◌∙◌, inl, inr, Bool, true, false, ◌&&◌, ◌||◌, not, String, Option, none, some, str_eq,
  eq_iff, arith, if◌then◌else◌, Bool-cases,
}
use gantry_core.Base.Result.{Result, ok, err, ◌>>◌, guard}
use gantry_core.Auth.Execution.{
  Actor, Execution, Authorization, ActorError, mode_invalid, scope_missing, not_local,
  target_unexpected, target_missing, is_empty, validate_actor, validate_execution, contains,
  contains_any, authorize_capability, authorize_boundary, authorize,
}

abbrev pub succeeds : Result ActorError (Unit {0}) → Bool
succeeds (ok u) = true
succeeds (err e) = false

-- An actor carries exactly the authority that its kind allows.
abbrev pub well_formed : Actor → Bool
well_formed a =
    not (str_eq a.project "")
    && not (str_eq a.installation "")
    && not (str_eq a.subject "")
    && (str_eq a.kind "human" && not (str_eq a.account_id "") && is_empty a.token_scopes
        || str_eq a.kind "api-token"
          && str_eq a.account_id ""
          && is_empty a.capabilities
          && not (is_empty a.token_scopes)
        || (str_eq a.kind "service" || str_eq a.kind "cluster-node")
          && str_eq a.account_id ""
          && is_empty a.capabilities
          && is_empty a.token_scopes)

-- Who may pass which boundary.
abbrev pub passes : Authorization → Actor → Bool
passes c a =
    str_eq c.boundary "session" && str_eq a.kind "human"
    || str_eq c.boundary "capability"
      && (str_eq a.kind "human" && contains a.capabilities c.capability
          || str_eq a.kind "api-token" && contains_any a.token_scopes c.token_scopes)
    || str_eq c.boundary "service" && str_eq a.kind "service"
    || str_eq c.boundary "cluster-node" && str_eq a.kind "cluster-node"

abbrev pub permitted : Authorization → Option Actor → Bool
permitted c none = str_eq c.boundary "public"
permitted c (some a) = str_eq c.boundary "public" || well_formed a && passes c a

succeeds-if :
    (b : Bool) (r s : Result ActorError (Unit {0}))
    → succeeds (if b then r else s) ≡ (if b then succeeds r else succeeds s)
succeeds-if true r s = refl
succeeds-if false r s = refl

succeeds-guard : (b : Bool) (e : ActorError) → succeeds (guard b e) ≡ b
succeeds-guard true e = refl
succeeds-guard false e = refl

-- A string is not two different constants.
differ : (k a b : String) → str_eq a b ≡ false → str_eq k a ≡ true → str_eq k b ≡ false
differ k a b h e = ground (arith, eq_iff k a, eq_iff k b, eq_iff a b, h, e)

-- A chain of tests of which at most one holds.
one_of_three :
    (h t v x y z : Bool)
    → (h ≡ true → t ≡ false)
    → (h ≡ true → v ≡ false)
    → (t ≡ true → v ≡ false)
    → (if h then x else if t then y else if v then z else false) ≡ (h && x || t && y || v && z)
one_of_three true t v x y z ht hv tv = ground (arith, ht refl, hv refl)
one_of_three false true v x y z ht hv tv = ground (arith, tv refl)
one_of_three false false v x y z ht hv tv = ground arith

one_of_two :
    (h t x y : Bool)
    → (h ≡ true → t ≡ false)
    → (if h then x else if t then y else false) ≡ (h && x || t && y)
one_of_two true t x y ht = ground (arith, ht refl)
one_of_two false t x y ht = ground arith

one_of_four :
    (s c v n w x y z : Bool)
    → (s ≡ true → c ≡ false)
    → (s ≡ true → v ≡ false)
    → (s ≡ true → n ≡ false)
    → (c ≡ true → v ≡ false)
    → (c ≡ true → n ≡ false)
    → (v ≡ true → n ≡ false)
    → (if s then w else if c then x else if v then y else if n then z else false)
      ≡ (s && w || c && x || v && y || n && z)
one_of_four true c v n w x y z sc sv sn cv cn vn = ground (arith, sc refl, sv refl, sn refl)
one_of_four false c v n w x y z sc sv sn cv cn vn = one_of_three c v n x y z cv cn vn

-- `service` and `cluster-node` share a case.
either :
    (k a b : String) → str_eq k a ≡ false → str_eq k b ≡ false → (str_eq k a || str_eq k b) ≡ false
either k a b h g = ground (arith, h, g)

-- The three parts of the switch on the kind.
kind_parts :
    (a : Actor)
    → succeeds (validate_actor a) ≡ (
        if str_eq a.project "" || str_eq a.installation "" || str_eq a.subject ""
        then false
        else if str_eq a.kind "human"
        then (if str_eq a.account_id ""
            then false
            else if not (is_empty a.token_scopes)
            then false
            else true)
        else if str_eq a.kind "api-token"
        then (if not (str_eq a.account_id "")
              || not (is_empty a.capabilities)
              || is_empty a.token_scopes
            then false
            else true)
        else if str_eq a.kind "service" || str_eq a.kind "cluster-node"
        then (if not (str_eq a.account_id "")
              || not (is_empty a.capabilities)
              || not (is_empty a.token_scopes)
            then false
            else true)
        else false)
unfolding validate_actor
kind_parts a = simp succeeds-if

validate_actor-well_formed : (a : Actor) → succeeds (validate_actor a) ≡ well_formed a
validate_actor-well_formed a =
    let k = a.kind in
    kind_parts a
    ∙ rw
        (one_of_three (str_eq k "human") (str_eq k "api-token")
          (str_eq k "service" || str_eq k "cluster-node") _ _ _ (differ k "human" "api-token" refl)
          (λ e.
            either k "service" "cluster-node" (differ k "human" "service" refl e)
              (differ k "human" "cluster-node" refl e))
          (λ e.
            either k "service" "cluster-node" (differ k "api-token" "service" refl e)
              (differ k "api-token" "cluster-node" refl e)))
        (ground arith)

authorize_boundary-passes :
    (c : Authorization) (a : Actor) → succeeds (authorize_boundary c a) ≡ passes c a
unfolding authorize_boundary authorize_capability
authorize_boundary-passes c a =
    simp (succeeds-if, succeeds-guard)
      (one_of_four (str_eq c.boundary "session") (str_eq c.boundary "capability")
          (str_eq c.boundary "service") (str_eq c.boundary "cluster-node") _ _ _ _
          (differ c.boundary "session" "capability" refl)
          (differ c.boundary "session" "service" refl)
          (differ c.boundary "session" "cluster-node" refl)
          (differ c.boundary "capability" "service" refl)
          (differ c.boundary "capability" "cluster-node" refl)
          (differ c.boundary "service" "cluster-node" refl)
        ∙ rw
            (one_of_two (str_eq a.kind "human") (str_eq a.kind "api-token")
              (contains a.capabilities c.capability) (contains_any a.token_scopes c.token_scopes)
              (differ a.kind "human" "api-token" refl))
            refl)

succeeds->> : (r s : Result ActorError (Unit {0})) → succeeds (r >> s) ≡ (succeeds r && succeeds s)
succeeds->> (ok u) s = refl
succeeds->> (err e) s = refl

-- Authorization lets through exactly who is permitted: everyone at a public boundary; elsewhere an
-- actor that carries no authority but its kind's, and that the boundary names: a human for a
-- session, a human with the capability or a token with one of the scopes for a capability, and a
-- service or a node for their own.
pub authorize-permitted :
    (c : Authorization) (actor : Option Actor) → succeeds (authorize c actor) ≡ permitted c actor
unfolding authorize
authorize-permitted c none = elim (Bool-cases (str_eq c.boundary "public")) [
  | inl e ↦ rw e refl
  | inr e ↦ rw e refl
]
authorize-permitted c (some a) = elim (Bool-cases (str_eq c.boundary "public")) [
  | inl e ↦ rw e refl
  | inr e ↦ rw e (
      succeeds->> (validate_actor a) (authorize_boundary c a)
      ∙ rw (validate_actor-well_formed a, authorize_boundary-passes c a) refl)
]

-- An execution runs where it is: its actor is well formed and of the same project and installation,
-- and only a node of the cluster acts on another node.
abbrev pub runs : Execution → Bool
runs e =
    well_formed e.actor
    && not (str_eq e.project "")
    && not (str_eq e.installation "")
    && str_eq e.project e.actor.project
    && str_eq e.installation e.actor.installation
    && ((str_eq e.mode "local" || str_eq e.mode "remote") && str_eq e.target_node ""
        || str_eq e.mode "cluster"
          && not (str_eq e.target_node "")
          && str_eq e.actor.kind "cluster-node")

mode_check :
    (e : Execution)
    → succeeds (
        if str_eq e.mode "local" || str_eq e.mode "remote"
        then (if str_eq e.target_node "" then ok tt else err target_unexpected)
        else if str_eq e.mode "cluster"
        then (if str_eq e.target_node "" || not (str_eq e.actor.kind "cluster-node")
            then err target_missing
            else ok tt)
        else err (mode_invalid e.mode))
      ≡ ((str_eq e.mode "local" || str_eq e.mode "remote") && str_eq e.target_node ""
          || str_eq e.mode "cluster"
            && not (str_eq e.target_node "")
            && str_eq e.actor.kind "cluster-node")
mode_check e = simp succeeds-if (
    one_of_two (str_eq e.mode "local" || str_eq e.mode "remote") (str_eq e.mode "cluster") _ _ (
      here (str_eq e.mode "local") (str_eq e.mode "remote") (differ e.mode "local" "cluster" refl)
        (differ e.mode "remote" "cluster" refl))
    ∙ ground arith)
  where
    here :
        (l r : Bool) {c : Bool}
        → (l ≡ true → c ≡ false)
        → (r ≡ true → c ≡ false)
        → (l || r) ≡ true
        → c ≡ false
    here true r lc rc h = lc refl
    here false true lc rc h = rc refl
    here false false lc rc h = cc

regroup :
    (w p i a b m : Bool)
    → (w && (not (p || i) && (a && b && m))) ≡ (w && not p && not i && a && b && m)
regroup w p i a b m = ground arith

-- An execution is accepted exactly when its actor is well formed, it names its project and its
-- installation and these are the actor's, and its target fits its mode: none for a local or a remote
-- execution, and one with the actor a node of the cluster for an execution on the cluster.
pub validate_execution-runs : (e : Execution) → succeeds (validate_execution e) ≡ runs e
unfolding validate_execution
validate_execution-runs e =
    let located = not (str_eq e.project "" || str_eq e.installation "") in
    let local = str_eq e.project e.actor.project && str_eq e.installation e.actor.installation in
    succeeds->> (validate_actor e.actor) _
    ∙ rw
        (
          validate_actor-well_formed e.actor,
          succeeds->> (guard located scope_missing) _,
          succeeds->> (guard local not_local) _,
          succeeds-guard located scope_missing,
          succeeds-guard local not_local,
          mode_check e,
        )
        (regroup (well_formed e.actor) (str_eq e.project "") (str_eq e.installation "")
          (str_eq e.project e.actor.project) (str_eq e.installation e.actor.installation) _)
