-- ===== src/Propagation/Plan/Ordered.antt =====
-- The order of the items of a plan (propagation/plan.go: Diff).
use gantry_core.Base.{
  ◌≡◌, sym, ◌≢◌, eq_iff, inl, inr, true, false, Bool-cases, List, [], ◌∷◌, str_eq, arith,
}
use gantry_core.Base.Sort.{str_leb, insert_sorted, sort_by}
use gantry_core.Base.Order.{str_leb-total}
use gantry_core.Propagation.Plan.{PlanItem, item_leb}

-- Not after the other: a smaller kind, or the same kind and an id that is not greater.
pub data NotAfter (x y : PlanItem) : Type 0 where
  same_kind : x.kind ≡ y.kind → str_leb x.id y.id ≡ true → NotAfter x y
  smaller_kind : x.kind ≢ y.kind → str_leb x.kind y.kind ≡ true → NotAfter x y

abbrev pub InOrder : List PlanItem → Type 0
InOrder [] = Unit
InOrder (x ∷ []) = Unit
InOrder (x ∷ y ∷ rest) = NotAfter x y × InOrder (y ∷ rest)

item_leb-NotAfter : (x y : PlanItem) → item_leb x y ≡ true → NotAfter x y
item_leb-NotAfter x y h = elim (Bool-cases (str_eq x.kind y.kind)) [
  | inl e ↦ same_kind ((eq_iff x.kind y.kind).0 e) (rw e at h)
  | inr e ↦ smaller_kind (λ same. let k = (eq_iff x.kind y.kind).1 same in absurd (cc)) (rw e at h)
]

not-item_leb : (x y : PlanItem) → item_leb x y ≡ false → NotAfter y x
not-item_leb x y h = elim (Bool-cases (str_eq x.kind y.kind)) [
  | inl e ↦
      let later : str_leb x.id y.id ≡ false = (rw e at h) in
      same_kind (sym ((eq_iff x.kind y.kind).0 e)) (ground (arith, str_leb-total x.id y.id, later))
  | inr e ↦
      let later : str_leb x.kind y.kind ≡ false = (rw e at h) in
      smaller_kind (λ same. let k = (eq_iff x.kind y.kind).1 (sym same) in absurd (cc))
        (ground (arith, str_leb-total x.kind y.kind, later))
]

-- An item before a list whose first item it is not after.
abbrev Heads : PlanItem → List PlanItem → Type 0
Heads x [] = Unit
Heads x (y ∷ rest) = NotAfter x y

cons-InOrder : (x : PlanItem) (xs : List PlanItem) → Heads x xs → InOrder xs → InOrder (x ∷ xs)
cons-InOrder x [] h k = tt
cons-InOrder x (y ∷ ys) h k = (h, k)

tail-InOrder : (x : PlanItem) (xs : List PlanItem) → InOrder (x ∷ xs) → Heads x xs × InOrder xs
tail-InOrder x [] h = (tt, tt)
tail-InOrder x (y ∷ ys) h = h

Heads-insert_sorted :
    (x a : PlanItem) (xs : List PlanItem)
    → NotAfter x a
    → Heads x xs
    → Heads x (insert_sorted item_leb a xs)
unfolding insert_sorted
Heads-insert_sorted x a [] h k = h
Heads-insert_sorted x a (y ∷ ys) h k = elim (Bool-cases (item_leb a y)) [
  | inl e ↦ rw e h
  | inr e ↦ rw e k
]

insert_sorted-InOrder :
    (a : PlanItem) (xs : List PlanItem) → InOrder xs → InOrder (insert_sorted item_leb a xs)
unfolding insert_sorted
insert_sorted-InOrder a [] h = tt
insert_sorted-InOrder a (x ∷ xs) h = elim (Bool-cases (item_leb a x)) [
  | inl e ↦ rw e (item_leb-NotAfter a x e, h)
  | inr e ↦
      let (heads, rest) = tail-InOrder x xs h in
      rw e (
        cons-InOrder x (insert_sorted item_leb a xs)
          (Heads-insert_sorted x a xs (not-item_leb a x e) heads) (insert_sorted-InOrder a xs rest))
]

pub sort_by-InOrder : (xs : List PlanItem) → InOrder (sort_by item_leb xs)
unfolding sort_by
sort_by-InOrder [] = tt
sort_by-InOrder (x ∷ xs) = insert_sorted-InOrder x (sort_by item_leb xs) (sort_by-InOrder xs)
