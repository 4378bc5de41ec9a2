-- ===== src/Propagation/Reconcile/Tests.antt =====
-- Drift of a node with one object, and the other checks, at concrete inputs.
use gantry_core.Base.{◌≡◌, refl, false, true, String, some, [], ◌∷◌, Assoc}
use gantry_core.Base.Int.{pos}
use gantry_core.Base.Result.{ok, err}
use gantry_core.Propagation.Plan.{Envelope, Existing, source_wins, authoritative}
use gantry_core.Propagation.Reconcile.{
  detect_drift, validate_ownership, owned_by_other, check_provided, secret_unavailable,
}

abbrev envelope : String → Envelope
envelope id = record {
  kind = "k";
  id = id;
  schema_version = pos 1;
  revision = pos 1;
  source_node = "a";
  digest = "d";
  dependencies = [];
  secrets = [];
  conflict = source_wins;
  permission = "";
  target = "all";
  payload = "p";
}

abbrev actual : Assoc Existing
actual =
    (
      "k/1",
      record {
        kind = "k";
        id = "1";
        digest = "d";
        owner = "";
        revision = pos 3;
        schema_version = pos 1;
      },
    )
    ∷ []

-- The first object is in sync and the second is missing.
one_missing :
    detect_drift "b" (envelope "2" ∷ envelope "1" ∷ []) actual
    ≡ record { kind = "k"; id = "2"; expected_digest = "d"; actual_digest = ""; node = "b" } ∷ []
unfolding detect_drift
one_missing = refl

owned_elsewhere :
    validate_ownership authoritative (record { object_owner = "b"; source_node = "a" })
    ≡ err owned_by_other
unfolding validate_ownership
owned_elsewhere = refl

-- The statuses found so far come with the error.
secret_missing :
    check_provided (record { name = "s"; required = true } ∷ []) (some (λ name. ok false))
    ≡ (record { name = "s"; present = false; required = true } ∷ [], some (secret_unavailable "s"))
unfolding check_provided
secret_missing = refl
