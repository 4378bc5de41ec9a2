-- ===== src/Contracts/Registry.antt =====
-- The registry of contracts (operation/operation.go).
pub mod Owned
use Prim.Native.String.{◌++◌ as append_str}
use gantry_core.Base.{
  Bool, true, not, String, Option, none, some, List, [], ◌∷◌, is_some, Assoc, lookup, insert,
}
use gantry_core.Base.Sort.{sort_by, str_leb}
use gantry_core.Base.Result.{Result, ok, err, ◌>>=◌, ◌>>◌, guard}
use gantry_core.Contracts.{Contract, ContractError, Route, Cli, validate_contract}

pub record Registry : Type 0 where
  pub contracts : Assoc Contract
  pub routes : Assoc String
  pub commands : Assoc String

-- The owner of the route or command is part of the message.
pub data RegistryError : Type 0 where
  contract_invalid : ContractError → RegistryError
  id_taken route_taken command_taken : RegistryError

unfoldable pub route_key : Route → String
route_key r = append_str r.method (append_str " " r.path)

unfoldable pub command_key : Cli → String
command_key c = append_str c.resource (append_str " " c.verb)

-- `contract.Validate()` with its error passed on.
unfoldable pub checked : Result ContractError (Unit {0}) → Result RegistryError (Unit {0})
checked (ok u) = ok u
checked (err e) = err (contract_invalid e)

unfoldable pub command_free : Assoc String → Option Cli → Bool
unfolding command_key lookup
command_free commands none = true
command_free commands (some c) = not (is_some (lookup (command_key c) commands))

unfoldable pub add_command : String → Option Cli → Assoc String → Assoc String
unfolding command_key insert
add_command id none commands = commands
add_command id (some c) commands = insert (command_key c) id commands

unfoldable pub added : Contract → Registry → Registry
unfolding route_key add_command insert
added c r = record {
  contracts = insert c.id c r.contracts;
  routes = insert (route_key c.route) c.id r.routes;
  commands = add_command c.id c.cli r.commands;
}

-- `Register`. All that it writes comes after the last check, so an error changes nothing.
unfoldable pub register : Contract → Registry → Result RegistryError Registry
unfolding checked validate_contract route_key command_free added lookup
register c r =
    checked (validate_contract c)
    >> guard (not (is_some (lookup c.id r.contracts))) id_taken
    >> guard (not (is_some (lookup (route_key c.route) r.routes))) route_taken
    >> guard (command_free r.commands c.cli) command_taken
    >> ok (added c r)

unfoldable pub register_all : List Contract → Registry → Result RegistryError Registry
unfolding register
register_all [] r = ok r
register_all (c ∷ cs) r = register c r >>= λ r'. register_all cs r'

abbrev pub no_contracts : Registry
no_contracts = record { contracts = []; routes = []; commands = [] }

-- `NewRegistry`
unfoldable pub new_registry : List Contract → Result RegistryError Registry
unfolding register_all
new_registry cs = register_all cs no_contracts

-- `Get`
unfoldable pub get_contract : String → Registry → Option Contract
unfolding lookup
get_contract id r = lookup id r.contracts

unfoldable pub values : Assoc Contract → List Contract
values [] = []
values ((k, c) ∷ m) = c ∷ values m

abbrev contract_leb : Contract → Contract → Bool
contract_leb x y = str_leb x.id y.id

-- `Contracts`
unfoldable pub contracts : Registry → List Contract
unfolding values sort_by
contracts r = sort_by contract_leb (values r.contracts)
