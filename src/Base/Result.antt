-- ===== src/Base/Result.antt =====
-- A Go call that returns a value and an `error`.
use mathlib.Core.Path.{◌≡◌, refl, ap, subst}
use mathlib.Core.Bool.{Bool, true, false}
use gantry_core.Base.Tests.{if◌then◌else◌}
use mathlib.Core.Logic.{◌⊎◌, inl, inr}

pub data Result {ℓ κ} (E : Type ℓ) (A : Type κ) : Type (ℓ ⊔ κ) where
  ok : A → Result E A
  err : E → Result E A

infixl 6 ◌>>=◌
infixr 5 ◌>>◌
abbrev pub ◌>>=◌ {ℓ κ μ} :
    {E : Type ℓ} {A : Type κ} {B : Type μ} → Result E A → (A → Result E B) → Result E B
err e >>= _ = err e
ok a >>= next = next a

abbrev pub ◌>>◌ {ℓ κ} : {E : Type ℓ} {B : Type κ} → Result E (Unit {0}) → Result E B → Result E B
first >> second = first >>= λ _. second

-- `if !b { return e }`
abbrev pub guard {ℓ} : {E : Type ℓ} → Bool → E → Result E (Unit {0})
guard false failure = err failure
guard true failure = ok tt

pub Result-cases {ℓ κ} :
    {E : Type ℓ} {A : Type κ} (r : Result E A) → ((e : E) × (r ≡ err e)) ⊎ ((a : A) × (r ≡ ok a))
Result-cases (ok a) = inr (a, refl)
Result-cases (err e) = inl (e, refl)

-- A chain that succeeds has a first step that succeeds.
pub >>=-eq-ok {ℓ κ μ} :
    {E : Type ℓ} {A : Type κ} {B : Type μ} {out : B} (first : Result E A) (next : A → Result E B)
    → (first >>= next) ≡ ok out
    → (mid : A) × (first ≡ ok mid) × (next mid ≡ ok out)
>>=-eq-ok (err e) next h = cc
>>=-eq-ok (ok mid) next h = (mid, refl, h)

pub guard-eq-ok {ℓ} : {E : Type ℓ} (b : Bool) (e : E) {u : Unit {0}} → guard b e ≡ ok u → b ≡ true
guard-eq-ok true e h = refl
guard-eq-ok false e h = cc

-- What holds of the result of a call that succeeds.
pub data Holds {ℓ κ μ} {E : Type ℓ} {A : Type κ} (P : A → Type μ)
    : Result E A → Type (ℓ ⊔ κ ⊔ μ) where
  failed : {e : E} → Holds P (err e)
  holds : {a : A} → P a → Holds P (ok a)

pub Holds->>= {ℓ κ μ ν} :
    {E : Type ℓ} {A : Type κ} {B : Type κ} {P : A → Type μ} {Q : B → Type ν} {first : Result E A}
    (next : A → Result E B)
    → Holds P first
    → ((a : A) → P a → Holds Q (next a))
    → Holds Q (first >>= next)
Holds->>= next failed f = failed
Holds->>= next (holds {a = a} h) f = f a h

pub Holds-weaken {ℓ κ μ ν} :
    {E : Type ℓ} {A : Type κ} {P : A → Type μ} {Q : A → Type ν} {r : Result E A}
    → Holds P r
    → ((a : A) → P a → Q a)
    → Holds Q r
Holds-weaken failed f = failed
Holds-weaken (holds {a = a} h) f = holds (f a h)

pub Holds-guard {ℓ κ ν} :
    {E : Type ℓ} {B : Type κ} {Q : B → Type ν} (b : Bool) (e : E) (next : Result E B)
    → (b ≡ true → Holds Q next)
    → Holds Q (guard b e >> next)
Holds-guard false e next f = failed
Holds-guard true e next f = f refl

pub Holds-test {ℓ κ} :
    {E : Type ℓ} {P : Unit {0} → Type κ} (b : Bool) (e : E)
    → (b ≡ true → P tt)
    → Holds P (guard b e)
Holds-test false e f = failed
Holds-test true e f = holds (f refl)

pub Holds-if {ℓ κ ν} :
    {E : Type ℓ} {B : Type κ} {Q : B → Type ν} (b : Bool) (x y : Result E B)
    → (b ≡ true → Holds Q x)
    → (b ≡ false → Holds Q y)
    → Holds Q (if b then x else y)
Holds-if true x y f g = f refl
Holds-if false x y f g = g refl

value_or {ℓ κ} : {E : Type ℓ} {A : Type κ} → A → Result E A → A
value_or a (ok b) = b
value_or a (err e) = a

pub Holds-ok {ℓ κ μ} :
    {E : Type ℓ} {A : Type κ} {P : A → Type μ} {r : Result E A} (a : A) → Holds P r → r ≡ ok a → P a
unfolding value_or
Holds-ok a failed h = cc
Holds-ok {P = P} a (holds p) h = subst P (ap (value_or a) h) p

-- Two chains with the same first step agree if what follows does.
pub >>=-same {ℓ κ μ} :
    {E : Type ℓ} {A : Type κ} {B : Type μ} (r : Result E A) (f g : A → Result E B)
    → ((a : A) → f a ≡ g a)
    → (r >>= f) ≡ (r >>= g)
>>=-same (err e) f g h = refl
>>=-same (ok a) f g h = h a

pub Holds-self {ℓ κ} : {E : Type ℓ} {A : Type κ} (r : Result E A) → Holds (λ a. r ≡ ok a) r
Holds-self (ok a) = holds refl
Holds-self (err e) = failed
