-- ===== src/Auth/Sessions/Sorted.antt =====
-- Sorting keeps what a login looks at.
use gantry_core.Base.{
  ◌≡◌, refl, ap, ◌∙◌, inl, inr, ℕ, suc, Bool, false, ◌||◌, Bool-cases, length, String, List, [],
  ◌∷◌, str_eq, eq_iff, has, Once, All, arith,
}
use gantry_core.Base.Sort.{sort_by, insert_sorted}
use gantry_core.Auth.Sessions.{Candidate}
use gantry_core.Auth.Sessions.Owned.{ids}

pub has-insert_sorted-ids :
    (order : Candidate → Candidate → Bool) (j : String) (c : Candidate) (cs : List Candidate)
    → has j (ids (insert_sorted order c cs)) ≡ (str_eq c.0 j || has j (ids cs))
unfolding insert_sorted
has-insert_sorted-ids order j c [] = refl
has-insert_sorted-ids order j c (x ∷ cs) = ground (arith, has-insert_sorted-ids order j c cs)

pub has-sort_by-ids :
    (order : Candidate → Candidate → Bool) (j : String) (cs : List Candidate)
    → has j (ids (sort_by order cs)) ≡ has j (ids cs)
unfolding sort_by
has-sort_by-ids order j [] = refl
has-sort_by-ids order j (c ∷ cs) =
    has-insert_sorted-ids order j c (sort_by order cs) ∙ rw (has-sort_by-ids order j cs) refl

pub insert_sorted-Once :
    (order : Candidate → Candidate → Bool) (c : Candidate) (cs : List Candidate)
    → has c.0 (ids cs) ≡ false
    → Once (ids cs)
    → Once (ids (insert_sorted order c cs))
unfolding insert_sorted
insert_sorted-Once order c [] fresh once = (refl, tt)
insert_sorted-Once order c (x ∷ cs) fresh (own, once) = elim (Bool-cases (order c x)) [
  | inl e ↦ rw e (fresh, (own, once))
  | inr e ↦ rw e (
    has-insert_sorted-ids order x.0 c cs
        ∙ ground (arith, eq_iff c.0 x.0, eq_iff x.0 c.0, fresh, own),
    insert_sorted-Once order c cs (ground (arith, fresh)) once,
  )
]

pub sort_by-Once :
    (order : Candidate → Candidate → Bool) (cs : List Candidate)
    → Once (ids cs)
    → Once (ids (sort_by order cs))
unfolding sort_by
sort_by-Once order [] once = tt
sort_by-Once order (c ∷ cs) (own, once) =
    insert_sorted-Once order c (sort_by order cs) (has-sort_by-ids order c.0 cs ∙ own)
      (sort_by-Once order cs once)

pub insert_sorted-All :
    (P : Candidate → Type 0) (order : Candidate → Candidate → Bool) (c : Candidate)
    (cs : List Candidate)
    → P c
    → All P cs
    → All P (insert_sorted order c cs)
unfolding insert_sorted
insert_sorted-All P order c [] p all = (p, tt)
insert_sorted-All P order c (x ∷ cs) p (q, all) = elim (Bool-cases (order c x)) [
  | inl e ↦ rw e (p, (q, all))
  | inr e ↦ rw e (q, insert_sorted-All P order c cs p all)
]

pub sort_by-All :
    (P : Candidate → Type 0) (order : Candidate → Candidate → Bool) (cs : List Candidate)
    → All P cs
    → All P (sort_by order cs)
unfolding sort_by
sort_by-All P order [] all = tt
sort_by-All P order (c ∷ cs) (p, all) =
    insert_sorted-All P order c (sort_by order cs) p (sort_by-All P order cs all)

pub length-insert_sorted :
    (order : Candidate → Candidate → Bool) (c : Candidate) (cs : List Candidate)
    → length (insert_sorted order c cs) ≡ suc (length cs)
unfolding insert_sorted
length-insert_sorted order c [] = refl
length-insert_sorted order c (x ∷ cs) = ground (arith, length-insert_sorted order c cs)

pub length-sort_by :
    (order : Candidate → Candidate → Bool) (cs : List Candidate)
    → length (sort_by order cs) ≡ length cs
unfolding sort_by
length-sort_by order [] = refl
length-sort_by order (c ∷ cs) =
    length-insert_sorted order c (sort_by order cs)
    ∙ ap (λ (n : ℕ). suc n) (length-sort_by order cs)
