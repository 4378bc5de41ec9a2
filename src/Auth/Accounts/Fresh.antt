-- ===== src/Auth/Accounts/Fresh.antt =====
-- What a loop that fills a map with keys and refuses a repeated one guarantees.
use gantry_core.Base.{
  ◌≡◌, refl, sym, ap, subst, ◌∙◌, ◌||◌, false, String, List, [], ◌∷◌, ◌++◌, str_eq, has, arith,
}

-- The keys in the order the loop meets them: none is empty, seen before or repeated.
abbrev pub Fresh : List String → List String → Type 0
Fresh seen [] = Unit
Fresh seen (x ∷ xs) = (str_eq x "" ≡ false) × (has x seen ≡ false) × Fresh (x ∷ seen) xs

abbrev pub push_all : List String → List String → List String
push_all [] seen = seen
push_all (x ∷ xs) seen = push_all xs (x ∷ seen)

-- The same without the test for an empty key.
abbrev pub New : List String → List String → Type 0
New seen [] = Unit
New seen (x ∷ xs) = (has x seen ≡ false) × New (x ∷ seen) xs

-- The loop takes the keys from one map to another.
abbrev pub Grows : List String → List String → List String → Type 0
Grows before xs after = Fresh before xs × (after ≡ push_all xs before)

Fresh-append :
    (before xs ys : List String)
    → Fresh before xs
    → Fresh (push_all xs before) ys
    → Fresh before (xs ++ ys)
Fresh-append before [] ys f g = g
Fresh-append before (x ∷ xs) ys (filled, fresh, f) g =
    (filled, fresh, Fresh-append (x ∷ before) xs ys f g)

push_all-append :
    (before xs ys : List String) → push_all (xs ++ ys) before ≡ push_all ys (push_all xs before)
push_all-append before [] ys = refl
push_all-append before (x ∷ xs) ys = push_all-append (x ∷ before) xs ys

pub Grows-append :
    (before mid after xs ys : List String)
    → Grows before xs mid
    → Grows mid ys after
    → Grows before (xs ++ ys) after
Grows-append before mid after xs ys (f, e) (g, e') = (
  Fresh-append before xs ys f (subst (λ m. Fresh m ys) e g),
  e' ∙ ap (push_all ys) e ∙ sym (push_all-append before xs ys),
)

pub has-push_all :
    (k : String) (xs seen : List String) → has k (push_all xs seen) ≡ (has k xs || has k seen)
has-push_all k [] seen = refl
has-push_all k (x ∷ xs) seen = has-push_all k xs (x ∷ seen) ∙ ground arith
