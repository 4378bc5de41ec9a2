-- ===== src/Base/Sort.antt =====
-- Go's `sort.Strings`, and `sort.Slice` by a string key where the keys differ.
use Prim.Native.Nat.{Ordering}
use Prim.Native.String.{String, compare}
use mathlib.Core.Path.{◌≡◌, refl, ◌∙◌}
use native.Mathlib.Omega.{arith}
use mathlib.Core.Bool.{Bool, true, false, ◌||◌}
use gantry_core.Base.Lists.{has}
use text.Mathlib.Text.{◌==◌ as str_eq}
use mathlib.Core.List.{List, [], ◌∷◌, Perm}
use mathlib.Core.List.Perm
use gantry_core.Base.Tests.{if◌then◌else◌, Bool-cases}
use mathlib.Core.Logic.{inl, inr}

abbrev pub str_leb : String → String → Bool
str_leb s t = elim (compare s t) [ Ordering.gt ↦ false | _ ↦ true ]

module _ {ℓ} {A : Type ℓ} (leb : A → A → Bool) where
  unfoldable pub insert_sorted : A → List A → List A
  insert_sorted a [] = a ∷ []
  insert_sorted a (x ∷ xs) =
      let rest = insert_sorted a xs in if leb a x then a ∷ x ∷ xs else x ∷ rest

  unfoldable pub sort_by : List A → List A
  unfolding insert_sorted
  sort_by [] = []
  sort_by (x ∷ xs) = insert_sorted x (sort_by xs)

  pub insert_sorted-perm : (a : A) (xs : List A) → Perm (insert_sorted a xs) (a ∷ xs)
  unfolding insert_sorted
  insert_sorted-perm a [] = Perm.refl _
  insert_sorted-perm a (x ∷ xs) = elim (Bool-cases (leb a x)) [
    | inl e ↦ rw e (Perm.refl _)
    | inr e ↦ rw e (Perm.trans (Perm.cons x (insert_sorted-perm a xs)) (Perm.swap a x xs))
  ]

  pub sort_by-perm : (xs : List A) → Perm (sort_by xs) xs
  unfolding sort_by
  sort_by-perm [] = Perm.refl _
  sort_by-perm (x ∷ xs) =
      Perm.trans (insert_sorted-perm x (sort_by xs)) (Perm.cons x (sort_by-perm xs))

-- What a sorted list holds.
pub has-insert_sorted :
    (leb : String → String → Bool) (x a : String) (xs : List String)
    → has x (insert_sorted leb a xs) ≡ (str_eq a x || has x xs)
unfolding insert_sorted
has-insert_sorted leb x a [] = refl
has-insert_sorted leb x a (y ∷ ys) = ground (arith, has-insert_sorted leb x a ys)

pub has-sort_by :
    (leb : String → String → Bool) (x : String) (xs : List String)
    → has x (sort_by leb xs) ≡ has x xs
unfolding sort_by
has-sort_by leb x [] = refl
has-sort_by leb x (y ∷ ys) = has-insert_sorted leb x y (sort_by leb ys) ∙ rw (has-sort_by leb x ys)
