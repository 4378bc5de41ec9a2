-- ===== src/Contracts/Tests.antt =====
-- Contracts at concrete inputs.
use gantry_core.Base.{◌≡◌, refl, true, false, some, [], ◌∷◌, lookup, All}
use gantry_core.Base.Int.{pos}
use gantry_core.Base.Result.{err, ok, Holds, ◌>>=◌}
use gantry_core.Contracts.{Contract, id_matches, scope_matches, word_matches}
use gantry_core.Contracts.Registry.{new_registry, register, route_taken}
use gantry_core.Contracts.Registry.Owned.{Sound, new_registry-Sound}

patterns :
    (id_matches "jobs.list" ≡ true)
    × (id_matches "jobs" ≡ false)
    × (id_matches "jobs." ≡ false)
    × (word_matches "a-1" ≡ true)
    × (scope_matches "jobs:read.all" ≡ true)
    × (scope_matches "jobs:" ≡ false)
unfolding id_matches scope_matches word_matches
patterns = (refl, refl, refl, refl, refl, refl)

abbrev pub listing : Contract
listing = record {
  schema_version = pos 1;
  id = "jobs.list";
  kind = "read";
  route = record { method = "GET"; path = "/api/jobs/{id}" };
  cli = some (record { resource = "jobs"; verb = "list"; implemented = true });
  authorization = record { boundary = "session"; capability = ""; token_scopes = [] };
  schemas = record { input = ""; output = "jobs" };
  audit = record { event = ""; required = false };
  idempotency = record { supported = false; required = false; retry_safe = true };
  automation = "automatable";
  secret_inputs = [];
  secret_outputs = "/token" ∷ [];
}

abbrev pub clearing : Contract
clearing = record listing {
  id = "jobs.clear";
  kind = "destructive";
  route = record { method = "DELETE"; path = "/api/jobs" };
  cli = some (record { resource = "jobs"; verb = "clear"; implemented = true });
  audit = record { event = "jobs.cleared"; required = true };
  idempotency = record { supported = false; required = false; retry_safe = false };
}

-- A second contract for the route is refused.
route_once : new_registry (listing ∷ record listing { id = "jobs.other" } ∷ []) ≡ err route_taken
unfolding new_registry register
route_once = refl

-- Both contracts are registered.
two_registered :
    (new_registry (listing ∷ clearing ∷ []) >>= λ r. ok (lookup "jobs.clear" r.contracts))
    ≡ ok (some clearing)
unfolding new_registry register
two_registered = refl

new_registry-Sound_example :
    Holds
      (λ r. Sound r × All (λ c. lookup c.id r.contracts ≡ some c) (listing ∷ clearing ∷ []))
      (new_registry (listing ∷ clearing ∷ []))
new_registry-Sound_example = new_registry-Sound (listing ∷ clearing ∷ [])
