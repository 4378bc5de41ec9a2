-- ===== src/Cluster/Pairing/Lifecycle.antt =====
-- The states of a pairing end, and do not come back to the first.
use gantry_core.Base.{
  ℕ, ◌≤◌, ◌<◌, ◌≡◌, refl, sym, ◌∙◌, Bool, true, false, ◌&&◌, if◌then◌else◌, String, List, [], ◌∷◌,
  str_eq, eq_iff, length, All, All-weaken, arith,
}
use gantry_core.Base.Result.{Result, ok, err, guard}
use gantry_core.Cluster.Pairing.{
  Invitation, PairingError, validate_invitation, validate_transition, transition_allowed,
  invitation_unavailable, transition_invalid,
}

unfoldable pub passes : Result PairingError (Unit {0}) → Bool
passes (ok u) = true
passes (err e) = false

-- The states that follow one after the other, each by a valid transition.
unfoldable pub follows : String → List String → Bool
unfolding passes validate_transition
follows from [] = true
follows from (to ∷ rest) = passes (validate_transition from to) && follows to rest

-- How many transitions may still come.
rank : String → ℕ
rank s = if str_eq s "pending" then 2 else if str_eq s "approved" then 1 else 0

rank-le : (s : String) → rank s ≤ 2
unfolding rank
rank-le s = ground arith

passes-validate_transition :
    (from to : String) → passes (validate_transition from to) ≡ transition_allowed from to
unfolding passes validate_transition
passes-validate_transition from to = by_test (transition_allowed from to)
  where
    by_test : (b : Bool) → passes (guard b transition_invalid) ≡ b
    by_test true = refl
    by_test false = refl

apart : (t a b : String) → str_eq a b ≡ false → str_eq t a ≡ true → str_eq t b ≡ false
apart t a b ne e = rw ((eq_iff t a).0 e) ne

transition_allowed-descends :
    (from to : String)
    → transition_allowed from to ≡ true
    → (rank to < rank from) × (str_eq to "pending" ≡ false)
unfolding transition_allowed rank
transition_allowed-descends from to h = ground (
  arith,
  apart to "approved" "used" refl,
  apart to "approved" "pending" refl,
  apart to "used" "pending" refl,
  apart to "rejected" "pending" refl,
  apart to "expired" "pending" refl,
  h,
)

follows-descends :
    (from : String) (ss : List String)
    → follows from ss ≡ true
    → (length ss ≤ rank from) × All (λ s. str_eq s "pending" ≡ false) ss
unfolding follows
follows-descends from [] h = (omega arith, tt)
follows-descends from (to ∷ rest) h =
    let allowed : transition_allowed from to ≡ true =
      sym (passes-validate_transition from to) ∙ ground (arith, h) in
    let (less, left) = transition_allowed-descends from to allowed in
    let (short, others) = follows-descends to rest (ground (arith, h)) in
    (omega (arith, less, short), (left, others))

-- From any state at most two transitions follow, and in no state that is reached the invitation is
-- available, at any time.
pub follows-ends :
    (i : Invitation) (ss : List String) (now : ℕ)
    → follows i.state ss ≡ true
    → (length ss ≤ 2)
      × All (λ s. validate_invitation (record i { state = s }) now ≡ err invitation_unavailable) ss
unfolding validate_invitation
follows-ends i ss now h =
    let (short, others) = follows-descends i.state ss h in
    (
      omega (arith, short, rank-le i.state),
      All-weaken (λ s. str_eq s "pending" ≡ false) _ (λ s left. rw left refl) ss others,
    )
