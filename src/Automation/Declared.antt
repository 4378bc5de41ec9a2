-- ===== src/Automation/Declared.antt =====
-- Which contract a command finds (automation/automation.go: find).
use gantry_core.Base.{
  ◌≡◌, ◌↔◌, refl, ap, eq_iff, sym, subst, ◌∙◌, inl, inr, true, Bool-cases, String, Option, none,
  some, List, [], ◌∷◌, str_eq, arith,
}
use gantry_core.Contracts.{Contract, Cli}
use gantry_core.Automation.Run.{find_contract, is_command}

-- A contract for a command, and the first one of a list.
abbrev pub Names : String → String → Contract → Type 0
Names resource verb c = (k : Cli) × (c.cli ≡ some k) × (k.resource ≡ resource) × (k.verb ≡ verb)

pub data Declares (resource verb : String) : List Contract → Contract → Type 0 where
  here :
      {c : Contract} {cs : List Contract}
      → Names resource verb c
      → Declares resource verb (c ∷ cs) c
  there :
      {c d : Contract} {cs : List Contract}
      → ¬ Names resource verb d
      → Declares resource verb cs c
      → Declares resource verb (d ∷ cs) c

is_command-Names :
    (resource verb : String) (o : Option Cli)
    → (is_command resource verb o ≡ true)
      ↔ ((k : Cli) × (o ≡ some k) × (k.resource ≡ resource) × (k.verb ≡ verb))
unfolding is_command
is_command-Names resource verb none = (λ h. absurd (cc), λ (k, e, r, v). absurd (cc))
is_command-Names resource verb (some k) = (
  λ h. (
    k,
    refl,
    (eq_iff k.resource resource).0 (ground (arith, h)),
    (eq_iff k.verb verb).0 (ground (arith, h)),
  ),
  λ (j, e, r, v).
      let same : j ≡ k = cc in
      let x : str_eq k.resource resource ≡ true =
        (eq_iff k.resource resource).1 (ap (λ (c : Cli). c.resource) (sym same) ∙ r) in
      let y : str_eq k.verb verb ≡ true =
        (eq_iff k.verb verb).1 (ap (λ (c : Cli). c.verb) (sym same) ∙ v) in
      rw (x, y) refl,
)

pub find_contract-Declares :
    (cs : List Contract) (resource verb : String) (c : Contract)
    → find_contract cs resource verb ≡ some c
    → Declares resource verb cs c
unfolding find_contract
find_contract-Declares [] resource verb c h = absurd (cc)
find_contract-Declares (d ∷ cs) resource verb c h =
    elim (Bool-cases (is_command resource verb d.cli)) [
      | inl e ↦
          let same : d ≡ c = (let k = rw e at h in cc) in
          subst (Declares resource verb (d ∷ cs)) same
            (here ((is_command-Names resource verb d.cli).0 e))
      | inr e ↦
          there (λ n. let y = (is_command-Names resource verb d.cli).1 n in absurd (cc))
            (find_contract-Declares cs resource verb c (rw e at h))
    ]
