-- ===== src/Base/Order.antt =====
-- The order of Go's strings is total, antisymmetric and transitive, so sorting forgets an order.
use Prim.Native.Nat.{ℕ, suc, Ordering, compare as compare_ℕ}
use Prim.Native.Char.{Char, code}
use Prim.Native.String.{String, compare, then as first_of}
use Prim.Native.String.compare
use mathlib.Core.Path.{◌≡◌, refl, ap, ap₂, sym, ◌∙◌}
use mathlib.Core.Bool.{Bool, true, false, ◌||◌, ◌&&◌}
use mathlib.Core.Logic.{◌⊎◌, inl, inr}
use mathlib.Core.List.{append_assoc, append-nil, List, [], ◌∷◌, ◌++◌}
use native.Mathlib.Omega.{arith}
use text.Mathlib.TextEquality.{codes_equal}
use gantry_core.Base.Lists.{length}
use gantry_core.Base.Tests.{ltb, ◌==◌, if◌then◌else◌, Bool-cases}
use gantry_core.Base.Sort.{str_leb, insert_sorted, sort_by}

not_gt : Ordering → Bool
not_gt Ordering.gt = false
not_gt _ = true

str_leb-nil : (s : String) → str_leb "" s ≡ true
unfolding not_gt
str_leb-nil String.[] = refl
str_leb-nil (String.◌∷◌ d t) = ap not_gt (compare.nil-cons d t)

str_leb-cons-nil : (c : Char) (s : String) → str_leb (String.◌∷◌ c s) "" ≡ false
unfolding not_gt
str_leb-cons-nil c s = ap not_gt (compare.cons-nil c s)

not_gt-then :
    (m n : ℕ) (o : Ordering) → not_gt (first_of (compare_ℕ m n) o) ≡ (ltb m n || m == n && not_gt o)
unfolding not_gt
not_gt-then m n Ordering.lt = ground arith
not_gt-then m n Ordering.eq = ground arith
not_gt-then m n Ordering.gt = ground arith

str_leb-cons :
    (c d : Char) (s t : String)
    → str_leb (String.◌∷◌ c s) (String.◌∷◌ d t)
      ≡ (ltb (code c) (code d) || code c == code d && str_leb s t)
unfolding not_gt
str_leb-cons c d s t =
    ap not_gt (compare.cons-cons c d s t) ∙ not_gt-then (code c) (code d) (compare s t)

-- One step of the order: a smaller first character, or the same one and then the rest.
lex : ℕ → ℕ → Bool → Bool
lex m n rest = ltb m n || m == n && rest

lex-total : (m n : ℕ) (p q : Bool) → (p || q) ≡ true → (lex m n p || lex n m q) ≡ true
unfolding lex
lex-total m n p q h = ground (arith, h)

lex-antisym :
    (m n : ℕ) (p q : Bool) → lex m n p ≡ true → lex n m q ≡ true → (m ≡ n) × ((p && q) ≡ true)
unfolding lex
lex-antisym m n p q h k = ground (arith, h, k)

lex_trans :
    (m n o : ℕ) (p q r : Bool)
    → (p ≡ true → q ≡ true → r ≡ true)
    → lex m n p ≡ true
    → lex n o q ≡ true
    → lex m o r ≡ true
unfolding lex
lex_trans m n o p q r f h k = ground (arith, f, h, k)

pub str_leb-total : (s t : String) → (str_leb s t || str_leb t s) ≡ true
unfolding lex
str_leb-total String.[] t = rw (str_leb-nil t) refl
str_leb-total (String.◌∷◌ c s) String.[] = rw (str_leb-cons-nil c s) (str_leb-nil (String.◌∷◌ c s))
str_leb-total (String.◌∷◌ c s) (String.◌∷◌ d t) = rw (str_leb-cons c d s t) (
    rw (str_leb-cons d c t s)
      (lex-total (code c) (code d) (str_leb s t) (str_leb t s) (str_leb-total s t)))

pub str_leb-antisym : (s t : String) → str_leb s t ≡ true → str_leb t s ≡ true → s ≡ t
unfolding lex
str_leb-antisym String.[] String.[] h k = refl
str_leb-antisym String.[] (String.◌∷◌ d t) h k = absurd (ground (arith, str_leb-cons-nil d t, k))
str_leb-antisym (String.◌∷◌ c s) String.[] h k = absurd (ground (arith, str_leb-cons-nil c s, h))
str_leb-antisym (String.◌∷◌ c s) (String.◌∷◌ d t) h k =
    let (same, rest) =
      lex-antisym (code c) (code d) (str_leb s t) (str_leb t s) (sym (str_leb-cons c d s t) ∙ h)
        (sym (str_leb-cons d c t s) ∙ k) in
    ap₂ String.◌∷◌ (codes_equal c d (ground (arith, same)))
      (str_leb-antisym s t (ground (arith, rest)) (ground (arith, rest)))

pub str_leb_trans : (s t u : String) → str_leb s t ≡ true → str_leb t u ≡ true → str_leb s u ≡ true
unfolding lex
str_leb_trans String.[] t u h k = str_leb-nil u
str_leb_trans (String.◌∷◌ c s) String.[] u h k = absurd (ground (arith, str_leb-cons-nil c s, h))
str_leb_trans (String.◌∷◌ c s) (String.◌∷◌ d t) String.[] h k =
    absurd (ground (arith, str_leb-cons-nil d t, k))
str_leb_trans (String.◌∷◌ c s) (String.◌∷◌ d t) (String.◌∷◌ e u) h k =
    str_leb-cons c e s u
    ∙ lex_trans (code c) (code d) (code e) (str_leb s t) (str_leb t u) (str_leb s u)
        (str_leb_trans s t u) (sym (str_leb-cons c d s t) ∙ h) (sym (str_leb-cons d e t u) ∙ k)

-- Two insertions may be exchanged.
insert_sorted_comm :
    (x y : String) (l : List String)
    → insert_sorted str_leb x (insert_sorted str_leb y l)
      ≡ insert_sorted str_leb y (insert_sorted str_leb x l)
unfolding insert_sorted
insert_sorted_comm x y [] = exchange (Bool-cases (str_leb x y)) (Bool-cases (str_leb y x))
  where
    exchange :
        (str_leb x y ≡ true) ⊎ (str_leb x y ≡ false)
        → (str_leb y x ≡ true) ⊎ (str_leb y x ≡ false)
        → (if str_leb x y then x ∷ y ∷ [] else y ∷ x ∷ [])
          ≡ (if str_leb y x then y ∷ x ∷ [] else x ∷ y ∷ [])
    exchange (inl h) (inl k) = rw h (rw k (let e = str_leb-antisym x y h k in cc))
    exchange (inl h) (inr k) = rw h (rw k refl)
    exchange (inr h) (inl k) = rw h (rw k refl)
    exchange (inr h) (inr k) = absurd (ground (arith, str_leb-total x y, h, k))
insert_sorted_comm x y (z ∷ l) = ground (
  arith,
  str_leb-total x y,
  str_leb-antisym x y,
  str_leb_trans x y z,
  str_leb_trans y x z,
  insert_sorted_comm x y l,
)

-- Where an element stands in a list makes no difference to the sorted list.
pub sort_by-middle :
    (xs : List String) (x : String) (ys : List String)
    → sort_by str_leb (xs ++ x ∷ ys) ≡ insert_sorted str_leb x (sort_by str_leb (xs ++ ys))
unfolding sort_by
sort_by-middle [] x ys = refl
sort_by-middle (w ∷ xs) x ys =
    ap (insert_sorted str_leb w) (sort_by-middle xs x ys)
    ∙ insert_sorted_comm w x (sort_by str_leb (xs ++ ys))

pub sort_by-inner :
    (before : List String) (id : String) (after rest : List String)
    → sort_by str_leb ((before ++ id ∷ after) ++ rest)
      ≡ insert_sorted str_leb id (sort_by str_leb ((before ++ after) ++ rest))
sort_by-inner before id after rest =
    ap (sort_by str_leb) (append_assoc before (id ∷ after) rest)
    ∙ sort_by-middle before id (after ++ rest)
    ∙ ap (λ l. insert_sorted str_leb id (sort_by str_leb l)) (sym (append_assoc before after rest))

pub sort_by-deep :
    (front before : List String) (id : String) (after rest : List String)
    → sort_by str_leb (front ++ ((before ++ id ∷ after) ++ rest))
      ≡ insert_sorted str_leb id (sort_by str_leb (front ++ ((before ++ after) ++ rest)))
sort_by-deep front before id after rest =
    ap (sort_by str_leb) (
      sym (append_assoc front (before ++ id ∷ after) rest)
      ∙ ap (λ l. l ++ rest) (sym (append_assoc front before (id ∷ after))))
    ∙ sort_by-inner (front ++ before) id after rest
    ∙ ap (λ l. insert_sorted str_leb id (sort_by str_leb l))
        (ap (λ l. l ++ rest) (append_assoc front before after)
          ∙ append_assoc front (before ++ after) rest)

pub sort_by-last :
    (front middle rest : List String) (id : String)
    → sort_by str_leb (front ++ (middle ++ (rest ++ id ∷ [])))
      ≡ insert_sorted str_leb id (sort_by str_leb (front ++ (middle ++ rest)))
sort_by-last front middle rest id =
    ap (sort_by str_leb) (
      ap (λ l. front ++ l) (sym (append_assoc middle rest (id ∷ [])))
      ∙ sym (append_assoc front (middle ++ rest) (id ∷ [])))
    ∙ sort_by-middle (front ++ (middle ++ rest)) id []
    ∙ ap (λ l. insert_sorted str_leb id (sort_by str_leb l))
        (append-nil (front ++ (middle ++ rest)))

-- Sorting twice is sorting once.
sort_by-insert_sorted :
    (x : String) (l : List String)
    → sort_by str_leb (insert_sorted str_leb x l) ≡ insert_sorted str_leb x (sort_by str_leb l)
unfolding sort_by insert_sorted
sort_by-insert_sorted x [] = refl
sort_by-insert_sorted x (z ∷ l) = elim (Bool-cases (str_leb x z)) [
  | inl e ↦ rw e refl
  | inr e ↦ rw e (
      ap (insert_sorted str_leb z) (sort_by-insert_sorted x l)
      ∙ insert_sorted_comm z x (sort_by str_leb l))
]

pub sort_by-sort_by : (l : List String) → sort_by str_leb (sort_by str_leb l) ≡ sort_by str_leb l
unfolding sort_by
sort_by-sort_by [] = refl
sort_by-sort_by (x ∷ l) =
    sort_by-insert_sorted x (sort_by str_leb l) ∙ ap (insert_sorted str_leb x) (sort_by-sort_by l)

length-insert_sorted :
    (x : String) (l : List String) → length (insert_sorted str_leb x l) ≡ suc (length l)
unfolding insert_sorted
length-insert_sorted x [] = refl
length-insert_sorted x (z ∷ l) = ground (arith, length-insert_sorted x l)

pub length-sort_by : (l : List String) → length (sort_by str_leb l) ≡ length l
unfolding sort_by
length-sort_by [] = refl
length-sort_by (x ∷ l) = length-insert_sorted x (sort_by str_leb l) ∙ ap suc (length-sort_by l)
