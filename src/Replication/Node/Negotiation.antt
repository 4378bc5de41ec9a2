-- ===== src/Replication/Node/Negotiation.antt =====
-- What a node advertises is what its machine accepts.
use gantry_core.Base.{
  ℕ, zero, suc, ◌+◌, ◌≡◌, refl, ap, ◌∙◌, ◌&&◌, String, Option, none, some, List, [], ◌∷◌, arith,
}
use gantry_core.Base.Int.{ℤ, pos, negsuc, ltb_ℤ, leb_ℤ}
use gantry_core.Replication.Fsm.{Kvfsm, clamp_schema, new_with_schema, set_supported}
use gantry_core.Replication.Node.{
  Capabilities, Node, Machine, reference, custom, set_machine, choose_machine, supports_operation,
  contains_version, count_from, versions_to, new_node, max_schema,
  set_supported_replication_version,
}

-- The greatest version that a machine accepts, where it is the reference one.
abbrev pub supported_by : Machine → Option ℤ
supported_by (reference f) = some f.supported
supported_by (custom s) = none

-- The machine is the reference one, and the versions are those from 1 to the one that it supports, and
-- no others.
abbrev pub IsNegotiated : Node → Type 0
IsNegotiated n =
    (max : ℤ) × (supported_by n.fsm ≡ some max)
    × ((v : ℤ) → supports_operation n.caps v ≡ (leb_ℤ (pos 1) v && leb_ℤ v max))

contains-count_from :
    (v : ℤ) (a k : ℕ)
    → contains_version v (count_from a k) ≡ (leb_ℤ (pos a) v && ltb_ℤ v (pos (a + k)))
unfolding contains_version count_from
contains-count_from v a zero = ground arith
contains-count_from (pos n) a (suc k) = ground (arith, contains-count_from (pos n) (a + 1) k)
contains-count_from (negsuc n) a (suc k) = ground (arith, contains-count_from (negsuc n) (a + 1) k)

contains-versions_to :
    (v m : ℤ) → contains_version v (versions_to m) ≡ (leb_ℤ (pos 1) v && leb_ℤ v m)
unfolding versions_to contains_version
contains-versions_to v (pos n) = contains-count_from v 1 n ∙ ground arith
contains-versions_to v (negsuc n) = ground arith

clamp_twice : (n : ℤ) → clamp_schema (clamp_schema n) ≡ clamp_schema n
unfolding clamp_schema
clamp_twice n = ground arith

clamp-max_schema : (n : ℤ) → clamp_schema (max_schema n) ≡ max_schema n
unfolding clamp_schema max_schema
clamp-max_schema n = ground arith

-- The reference machine.
abbrev pub IsReference : Machine → Type 0
IsReference m = (f : Kvfsm) × (m ≡ reference f)

set_supported-IsNegotiated :
    (n : Node) (max : ℤ)
    → IsReference n.fsm
    → IsNegotiated (set_supported_replication_version n max)
unfolding set_supported_replication_version supports_operation set_machine set_supported
set_supported-IsNegotiated n max (f, e) = (
  clamp_schema (clamp_schema max),
  ap (λ m. supported_by (set_machine m (clamp_schema max))) e,
  λ v. contains-versions_to v (clamp_schema max) ∙ rw (clamp_twice max) refl,
)

set_supported-IsReference :
    (n : Node) (max : ℤ)
    → IsReference n.fsm
    → IsReference (set_supported_replication_version n max).fsm
unfolding set_supported_replication_version set_machine
set_supported-IsReference n max (f, e) =
    (set_supported f (clamp_schema max), ap (λ m. set_machine m (clamp_schema max)) e)

-- Successive upgrades and downgrades of a live node.
unfoldable pub upgrades : Node → List ℤ → Node
upgrades n [] = n
upgrades n (m ∷ ms) = upgrades (set_supported_replication_version n m) ms

upgrades-IsNegotiated :
    (n : Node) (ms : List ℤ) → IsReference n.fsm → IsNegotiated n → IsNegotiated (upgrades n ms)
unfolding upgrades
upgrades-IsNegotiated n [] f h = h
upgrades-IsNegotiated n (m ∷ ms) f h =
    upgrades-IsNegotiated (set_supported_replication_version n m) ms
      (set_supported-IsReference n m f) (set_supported-IsNegotiated n m f)

-- Where a node advertises what its machine accepts: where it has made the reference machine itself,
-- and where it was given one, after a first upgrade or downgrade.
pub data Settles : Option Machine → List ℤ → Type 0 where
  by_default : {ms : List ℤ} → Settles none ms
  by_upgrade : {f : Kvfsm} {m : ℤ} {ms : List ℤ} → Settles (some (reference f)) (m ∷ ms)

-- After its creation and any upgrades and downgrades a node with the machine it makes itself, which is
-- the reference one, advertises exactly the operation schema versions that this machine accepts: from
-- 1 to the machine's maximum. With a reference machine that it is given it does so after the first
-- upgrade or downgrade.
pub new_node-upgrades-IsNegotiated :
    (id : String) (machine : Option Machine) (schema format : ℤ) (features : List String)
    (given fabric : Option (String → Option Capabilities)) (ms : List ℤ)
    → Settles machine ms
    → IsNegotiated (upgrades (new_node id machine schema format features given fabric) ms)
unfolding new_node upgrades supports_operation new_with_schema choose_machine
new_node-upgrades-IsNegotiated id machine schema format features given fabric ms by_default =
    upgrades-IsNegotiated _ ms (new_with_schema (max_schema schema), refl)
      (
        clamp_schema (max_schema schema),
        refl,
        λ v. contains-versions_to v (max_schema schema) ∙ rw (clamp-max_schema schema) refl,
      )
new_node-upgrades-IsNegotiated id machine schema format features given fabric ms
      (by_upgrade {f} {m} {ms = rest}) =
    let n = new_node id (some (reference f)) schema format features given fabric in
    upgrades-IsNegotiated (set_supported_replication_version n m) rest
      (set_supported-IsReference n m (f, refl)) (set_supported-IsNegotiated n m (f, refl))
