-- ===== src/Contracts/Registry/Owned.antt =====
-- Ids, routes and commands are each owned once in a registry.
use gantry_core.Base.{
  ◌≡◌, refl, subst, true, false, not, inl, inr, String, Option, none, some, List, [], ◌∷◌, str_eq,
  eq_iff, eq_refl, is_some, Assoc, lookup, lookup-insert, lookup-insert_self, All, Bool-cases,
  arith,
}
use gantry_core.Base.Result.{
  Result, ok, err, Holds, holds, failed, Holds->>=, Holds-guard, Holds-weaken,
}
use gantry_core.Contracts.{Contract, ContractError, Cli, validate_contract}
use gantry_core.Contracts.Registry.{
  Registry, route_key, command_key, checked, command_free, add_command, register, register_all,
  added, new_registry, no_contracts,
}

-- The command of a contract belongs to an id.
pub Commanded : Assoc String → String → Option Cli → Type 0
unfolding command_key lookup
Commanded commands id none = Unit
Commanded commands id (some c) = lookup (command_key c) commands ≡ some id

-- What is registered under an id: a valid contract of that id, which owns its route and command.
pub record Registered (r : Registry) (id : String) (c : Contract) : Type 0 where
  pub valid : validate_contract c ≡ ok tt
  pub own_id : c.id ≡ id
  pub own_route : lookup (route_key c.route) r.routes ≡ some id
  pub own_command : Commanded r.commands id c.cli

pub Sound : Registry → Type 0
Sound r = (id : String) (c : Contract) → lookup id r.contracts ≡ some c → Registered r id c

checked-Holds : (r : Result ContractError (Unit {0})) → Holds (λ _. r ≡ ok tt) (checked r)
unfolding checked
checked-Holds (ok tt) = holds refl
checked-Holds (err e) = failed

add_command-other :
    (id new : String) (mine theirs : Option Cli) (commands : Assoc String)
    → command_free commands mine ≡ true
    → Commanded commands id theirs
    → Commanded (add_command new mine commands) id theirs
unfolding command_free add_command Commanded
add_command-other id new none theirs commands free owned = owned
add_command-other id new (some c) none commands free owned = tt
add_command-other id new (some c) (some d) commands free owned = ground (
  arith,
  lookup-insert (command_key c) (command_key d) new commands,
  eq_iff (command_key c) (command_key d),
)

add_command-own :
    (id : String) (mine : Option Cli) (commands : Assoc String)
    → Commanded (add_command id mine commands) id mine
unfolding add_command Commanded
add_command-own id none commands = tt
add_command-own id (some c) commands =
    ground
      (arith, lookup-insert (command_key c) (command_key c) id commands, eq_refl (command_key c))

-- What a registration that passed its checks leaves.
added-Sound :
    (new : Contract) (r : Registry)
    → Sound r
    → validate_contract new ≡ ok tt
    → is_some (lookup (route_key new.route) r.routes) ≡ false
    → command_free r.commands new.cli ≡ true
    → Sound (added new r)
unfolding Sound added
added-Sound new r sound valid route_free free id c found = elim (Bool-cases (str_eq new.id id)) [
  | inl same ↦
      subst (λ x. Registered (added new r) id x)
        (ground (arith, lookup-insert new.id id new r.contracts))
        (record {
          valid = valid;
          own_id = (eq_iff new.id id).0 same;
          own_route =
              subst (λ k. lookup (route_key new.route) (added new r).routes ≡ some k)
                ((eq_iff new.id id).0 same)
                (lookup-insert_self (route_key new.route) new.id r.routes);
          own_command =
              subst (λ k. Commanded (added new r).commands k new.cli) ((eq_iff new.id id).0 same)
                (add_command-own new.id new.cli r.commands);
        })
  | inr other ↦
      let old = sound id c (ground (arith, lookup-insert new.id id new r.contracts)) in
      record {
        valid = old.valid;
        own_id = old.own_id;
        own_route = ground (
          arith,
          old.own_route,
          eq_iff (route_key new.route) (route_key c.route),
          lookup-insert (route_key new.route) (route_key c.route) new.id r.routes,
        );
        own_command = add_command-other id new.id new.cli c.cli r.commands free old.own_command;
      }
]

-- A later registration keeps what is registered.
pub Kept : Registry → Registry → Type 0
Kept r r' =
    (id : String) (c : Contract) → lookup id r.contracts ≡ some c → lookup id r'.contracts ≡ some c

added-Kept :
    (new : Contract) (r : Registry)
    → is_some (lookup new.id r.contracts) ≡ false
    → Kept r (added new r)
unfolding Kept added
added-Kept new r free id c found =
    ground (arith, found, eq_iff new.id id, lookup-insert new.id id new r.contracts)

pub register-Sound :
    (new : Contract) (r : Registry)
    → Sound r
    → Holds (λ r'. Sound r' × Kept r r' × (lookup new.id r'.contracts ≡ some new)) (register new r)
unfolding register added
register-Sound new r sound = Holds->>= _ (checked-Holds (validate_contract new)) (λ u valid.
    Holds-guard (not (is_some (lookup new.id r.contracts))) _ _ (λ id_free.
      Holds-guard (not (is_some (lookup (route_key new.route) r.routes))) _ _ (λ route_free.
        Holds-guard (command_free r.commands new.cli) _ _ (λ free. holds (
          added-Sound new r sound valid (ground (arith, route_free)) free,
          added-Kept new r (ground (arith, id_free)),
          lookup-insert_self new.id new r.contracts,
        )))))

register_all-Sound :
    (cs : List Contract) (r : Registry)
    → Sound r
    → Holds
        (λ r'. Sound r' × Kept r r' × All (λ c. lookup c.id r'.contracts ≡ some c) cs)
        (register_all cs r)
unfolding register_all Kept
register_all-Sound [] r sound = holds (sound, (λ id c found. found), tt)
register_all-Sound (c ∷ cs) r sound =
    Holds->>= _ (register-Sound c r sound) (λ r' (sound', kept, own).
      Holds-weaken (register_all-Sound cs r' sound') (λ r'' (sound'', kept', all).
        (sound'', (λ id d found. kept' id d (kept id d found)), (kept' c.id c own, all))))

-- A registry that is created holds each contract given to it under its id, and whatever it holds is
-- a valid contract under its own id, whose route and whose command belong to that id.
pub new_registry-Sound :
    (cs : List Contract)
    → Holds (λ r. Sound r × All (λ c. lookup c.id r.contracts ≡ some c) cs) (new_registry cs)
unfolding new_registry Sound lookup
new_registry-Sound cs =
    Holds-weaken (register_all-Sound cs no_contracts (λ id c found. cc))
      (λ r (sound, _, all). (sound, all))
