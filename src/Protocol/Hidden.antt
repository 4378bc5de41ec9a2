-- ===== src/Protocol/Hidden.antt =====
-- After a redaction no pointer shows what was there.
use gantry_core.Base.{
  ℕ, zero, suc, ◌==◌, ◌≡◌, ◌⊎◌, eq_iff, eq_refl, ◌∙◌, refl, sym, subst, inl, inr, Bool-cases,
  if◌then◌else◌, String, Option, none, some, List, [], ◌∷◌, str_eq, All, arith,
}
use gantry_core.Base.Result.{ok, Holds, holds, Holds->>=, Holds-self, Holds-weaken}
use gantry_core.Protocol.Redact.{
  Json, null, boolean, number, text, array, object, Elems, no_elem, elem, Props, no_prop, prop,
  pointer_parts, atoi_index, update_prop, update_elem, update_at, change, redact_below, redact_at,
  redact_all, redact, found, JsonCodec,
}

-- What stands under a name, at an index, or at the end of a path.
prop_at : String → Props → Option Json
prop_at name no_prop = none
prop_at name (prop k v ps) = if str_eq k name then some v else prop_at name ps

elem_at : ℕ → Elems → Option Json
elem_at n no_elem = none
elem_at zero (elem v vs) = some v
elem_at (suc n) (elem v vs) = elem_at n vs

index_at : Option ℕ → Elems → Option Json
unfolding elem_at
index_at none vs = none
index_at (some n) vs = elem_at n vs

below : String → Json → Option Json
unfolding prop_at index_at
below part (object ps) = prop_at part ps
below part (array vs) = index_at (atoi_index part) vs
below part v = none

abbrev along : (Json → Option Json) → Option Json → Option Json
along f none = none
along f (some w) = f w

pub at_path : List String → Json → Option Json
unfolding below
at_path [] v = some v
at_path (part ∷ parts) v = along (at_path parts) (below part v)

-- Nothing is there, or the mark of a redaction.
pub Masked : Option Json → Type 0
Masked none = Unit
Masked (some v) = v ≡ text "[redacted]"

mapped : (Json → Json) → Option Json → Option Json
mapped f none = none
mapped f (some v) = some (f v)

prop_at-update_prop :
    (a b : String) (f : Json → Json) (ps : Props)
    → prop_at a (update_prop b f ps)
      ≡ (if str_eq b a then mapped f (prop_at a ps) else prop_at a ps)
unfolding prop_at update_prop mapped
prop_at-update_prop a b f no_prop = ground arith
prop_at-update_prop a b f (prop k v ps) =
    ground (arith, prop_at-update_prop a b f ps, eq_iff k b, eq_iff k a, eq_iff b a)

elem_at-update_elem :
    (n m : ℕ) (f : Json → Json) (vs : Elems)
    → elem_at n (update_elem m f vs) ≡ (if m == n then mapped f (elem_at n vs) else elem_at n vs)
unfolding elem_at update_elem mapped
elem_at-update_elem n m f no_elem = ground arith
elem_at-update_elem zero zero f (elem v vs) = refl
elem_at-update_elem zero (suc m) f (elem v vs) = ground arith
elem_at-update_elem (suc n) zero f (elem v vs) = ground arith
elem_at-update_elem (suc n) (suc m) f (elem v vs) = ground (arith, elem_at-update_elem n m f vs)

index_at-update_at :
    (n m : Option ℕ) (f : Json → Json) (vs : Elems)
    → (index_at n (update_at m f vs) ≡ index_at n vs)
      ⊎ (index_at n (update_at m f vs) ≡ mapped f (index_at n vs))
unfolding index_at update_at
index_at-update_at none m f vs = inl refl
index_at-update_at (some n) none f vs = inl refl
index_at-update_at (some n) (some m) f vs = elim (Bool-cases (m == n)) [
  | inl e ↦ inr (elem_at-update_elem n m f vs ∙ rw e refl)
  | inr e ↦ inl (elem_at-update_elem n m f vs ∙ rw e refl)
]

index_at-update_at_self :
    (n : Option ℕ) (f : Json → Json) (vs : Elems)
    → index_at n (update_at n f vs) ≡ mapped f (index_at n vs)
unfolding index_at update_at mapped
index_at-update_at_self none f vs = refl
index_at-update_at_self (some n) f vs = elem_at-update_elem n n f vs ∙ ground arith

-- What a change makes of another place, or of its own.
below-change :
    (a b : String) (f : Json → Json) (v : Json)
    → (below a (change b f v) ≡ below a v) ⊎ (below a (change b f v) ≡ mapped f (below a v))
unfolding below change update_at index_at mapped
below-change a b f (object ps) = elim (Bool-cases (str_eq b a)) [
  | inl e ↦ inr (prop_at-update_prop a b f ps ∙ rw e refl)
  | inr e ↦ inl (prop_at-update_prop a b f ps ∙ rw e refl)
]
below-change a b f (array vs) = index_at-update_at (atoi_index a) (atoi_index b) f vs
below-change a b f null = inl refl
below-change a b f (boolean x) = inl refl
below-change a b f (number x) = inl refl
below-change a b f (text x) = inl refl

below-change_self :
    (a : String) (f : Json → Json) (v : Json) → below a (change a f v) ≡ mapped f (below a v)
unfolding below change update_at index_at mapped
below-change_self a f (object ps) = prop_at-update_prop a a f ps ∙ rw (eq_refl a) refl
below-change_self a f (array vs) = index_at-update_at_self (atoi_index a) f vs
below-change_self a f null = refl
below-change_self a f (boolean x) = refl
below-change_self a f (number x) = refl
below-change_self a f (text x) = refl

redact_below-masks :
    (parts : List String) (v : Json) → Masked (at_path parts (redact_below parts v))
unfolding at_path redact_below Masked mapped
redact_below-masks [] v = refl
redact_below-masks (part ∷ parts) v =
    subst (λ o. Masked (along (at_path parts) o))
      (sym (below-change_self part (redact_below parts) v))
      (masks (below part v) (λ w. redact_below-masks parts w))
  where
    masks :
        (o : Option Json)
        → ((w : Json) → Masked (at_path parts (redact_below parts w)))
        → Masked (along (at_path parts) (mapped (redact_below parts) o))
    masks none rest = tt
    masks (some w) rest = rest w

-- A mark is not lifted by a later redaction.
redact_below-keeps :
    (path parts : List String) (v : Json)
    → Masked (at_path path v)
    → Masked (at_path path (redact_below parts v))
unfolding at_path redact_below Masked mapped
redact_below-keeps [] [] v h = refl
redact_below-keeps [] (part ∷ parts) v h = rw h refl
redact_below-keeps (a ∷ path) [] v h = tt
redact_below-keeps (a ∷ path) (part ∷ parts) v h =
    elim (below-change a part (redact_below parts) v) [
      | inl same ↦ subst (λ o. Masked (along (at_path path) o)) (sym same) h
      | inr changed ↦
          subst (λ o. Masked (along (at_path path) o)) (sym changed)
            (kept (below a v) (λ w. redact_below-keeps path parts w) h)
    ]
  where
    kept :
        (o : Option Json)
        → ((w : Json) → Masked (at_path path w) → Masked (at_path path (redact_below parts w)))
        → Masked (along (at_path path) o)
        → Masked (along (at_path path) (mapped (redact_below parts) o))
    kept none rest k = tt
    kept (some w) rest k = rest w k

-- A pointer shows nothing of a value: the place that it names is missing or marked.
pub Hidden : Json → String → Type 0
Hidden v pointer =
    (part : String) (parts : List String)
    → pointer_parts pointer ≡ ok (part ∷ parts)
    → Masked (at_path (part ∷ parts) v)

redact_at-keeps :
    (pointer : String) (parts : List String) (v : Json)
    → Hidden v pointer
    → Hidden (redact_at parts v) pointer
unfolding Hidden redact_at
redact_at-keeps pointer [] v h part parts e = h part parts e
redact_at-keeps pointer (p ∷ ps) v h part parts e =
    redact_below-keeps (part ∷ parts) (p ∷ ps) v (h part parts e)

redact_at-hides :
    (pointer : String) (parts : List String) (v : Json)
    → pointer_parts pointer ≡ ok parts
    → Hidden (redact_at parts v) pointer
unfolding Hidden redact_at
redact_at-hides pointer [] v h part parts e = cc
redact_at-hides pointer (p ∷ ps) v h part parts e =
    let same : (p ∷ ps) ≡ (part ∷ parts) = cc in
    subst (λ l. Masked (at_path l (redact_below (p ∷ ps) v))) same (redact_below-masks (p ∷ ps) v)

redact_all-hides :
    (pointers : List String) (v : Json)
    → Holds
        (λ w. All (Hidden w) pointers × ((q : String) → Hidden v q → Hidden w q))
        (redact_all pointers v)
unfolding redact_all
redact_all-hides [] v = holds (tt, λ q h. h)
redact_all-hides (p ∷ ps) v = Holds->>= _ (Holds-self (pointer_parts p)) (λ parts e.
    Holds-weaken (redact_all-hides ps (redact_at parts v)) (λ w (all, keeps).
      ((keeps p (redact_at-hides p parts v e), all), λ q h. keeps q (redact_at-keeps q parts v h))))

-- What a redaction returns shows nothing at any of its pointers that names a place below the root:
-- the place is missing or holds the mark, whatever the other pointers are.
pub redact-hides :
    (codec : JsonCodec) (value : Json) (pointers : List String)
    → Holds (λ w. All (Hidden w) pointers) (redact codec value pointers)
unfolding redact
redact-hides codec value pointers =
    Holds->>= _ (Holds-self (found (codec.marshal value))) (λ body _.
      Holds->>= _ (Holds-self (found (codec.unmarshal body)))
        (λ clone _. Holds-weaken (redact_all-hides pointers clone) (λ w (all, _). all)))
