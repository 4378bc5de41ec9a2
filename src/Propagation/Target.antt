-- ===== src/Propagation/Target.antt =====
-- Which nodes a propagation goes to (propagation/target.go). `strings.ToLower` is a parameter.
use gantry_core.Base.{
  ◌≡◌, refl, ◌∙◌, inl, inr, Bool, true, false, not, ◌&&◌, ◌||◌, if◌then◌else◌, Bool-cases, String,
  List, [], ◌∷◌, str_eq, eq_iff, has, Once, arith,
}
use gantry_core.Base.Sort.{sort_by, insert_sorted, str_leb, has-insert_sorted, has-sort_by}
use gantry_core.Base.Result.{Result, ok, err, Holds, holds, failed, Holds-if}

pub record Member : Type 0 where
  pub id : String
  pub labels : List String
  pub capabilities : List String
  pub enabled : Bool

pub record Selector : Type 0 where
  pub nodes : List String
  pub labels : List String
  pub capabilities : List String
  pub exclude : List String
  pub all : Bool

pub data SelectError : Type 0 where
  selector_empty : SelectError

insert_sorted-Once :
    (order : String → String → Bool) (new : String) (xs : List String)
    → has new xs ≡ false
    → Once xs
    → Once (insert_sorted order new xs)
unfolding insert_sorted
insert_sorted-Once order new [] fresh once = (fresh, once)
insert_sorted-Once order new (x ∷ xs) fresh (own, once) =
    let later = insert_sorted-Once order new xs (ground (arith, fresh)) once in
    elim (Bool-cases (order new x)) [
      | inl e ↦ rw e (fresh, (own, once))
      | inr e ↦ rw e (
        (has-insert_sorted order x new xs ∙ ground (arith, eq_iff new x, eq_iff x new, fresh, own)),
        later,
      )
    ]

sort_by-Once :
    (order : String → String → Bool) (xs : List String) → Once xs → Once (sort_by order xs)
unfolding sort_by
sort_by-Once order [] once = once
sort_by-Once order (x ∷ xs) (own, once) =
    insert_sorted-Once order x (sort_by order xs) (has-sort_by order x xs ∙ own)
      (sort_by-Once order xs once)

abbrev is_nil : List String → Bool
is_nil [] = true
is_nil (x ∷ xs) = false

module _ (lower : String → String) where
  -- `m[strings.ToLower(x)] = true` over a list
  unfoldable pub lowered : List String → List String
  lowered [] = []
  lowered (x ∷ xs) = lower x ∷ lowered xs

  unfoldable pub some_known : List String → List String → Bool
  some_known known [] = false
  some_known known (x ∷ xs) = has (lower x) known || some_known known xs

  unfoldable pub every_known : List String → List String → Bool
  every_known known [] = true
  every_known known (x ∷ xs) = has (lower x) known && every_known known xs

  -- `hasAny`
  unfoldable pub has_any : List String → List String → Bool
  unfolding lowered some_known
  has_any have want = not (is_nil want) && some_known (lowered have) want

  -- `hasAll`, which no empty wish passes.
  unfoldable pub has_all : List String → List String → Bool
  unfolding lowered every_known
  has_all have want = not (is_nil want) && every_known (lowered have) want

  -- `match`
  unfoldable pub matches : Selector → Member → Bool
  unfolding has_any has_all
  matches s m =
      s.all
      || has m.id s.nodes
      || has_any m.labels s.labels
      || has_all m.capabilities s.capabilities

  -- The loop over the members; `want` is a set of ids.
  unfoldable pub select_from : Selector → List Member → List String → List String
  unfolding matches
  select_from s [] want = want
  select_from s (m ∷ ms) want = select_from s ms (
      if not m.enabled || has m.id s.exclude
      then want
      else if matches s m && not (has m.id want)
      then m.id ∷ want
      else want)

  -- `Select`
  unfoldable pub select : Selector → List Member → Result SelectError (List String)
  unfolding select_from
  select s members =
      if not s.all && is_nil s.nodes && is_nil s.labels && is_nil s.capabilities
      then err selector_empty
      else ok (sort_by str_leb (select_from s members []))

  -- Whether some enabled member of this id, which is not excluded, matches.
  abbrev pub chosen : Selector → List Member → String → Bool
  chosen s [] id = false
  chosen s (m ∷ ms) id =
      str_eq m.id id && m.enabled && not (has m.id s.exclude) && matches s m || chosen s ms id

  -- What one turn of the loop keeps.
  turn : Selector → Member → List String → List String
  turn s m want =
      if not m.enabled || has m.id s.exclude
      then want
      else if matches s m && not (has m.id want)
      then m.id ∷ want
      else want

  has-turn :
      (s : Selector) (m : Member) (want : List String) (id : String)
      → has id (turn s m want)
        ≡ (str_eq m.id id && m.enabled && not (has m.id s.exclude) && matches s m || has id want)
  unfolding turn
  has-turn s m want id = ground (arith, eq_iff m.id id)

  turn-Once : (s : Selector) (m : Member) (want : List String) → Once want → Once (turn s m want)
  unfolding turn
  turn-Once s m want h = elim (Bool-cases (not m.enabled || has m.id s.exclude)) [
    | inl e ↦ rw e h
    | inr e ↦ elim (Bool-cases (matches s m && not (has m.id want))) [
      | inl f ↦ rw (e, f) (ground (arith, f), h)
      | inr f ↦ rw (e, f) h
    ]
  ]

  has-select_from :
      (s : Selector) (ms : List Member) (want : List String) (id : String)
      → has id (select_from s ms want) ≡ (chosen s ms id || has id want)
  unfolding select_from turn
  has-select_from s [] want id = refl
  has-select_from s (m ∷ ms) want id =
      has-select_from s ms (turn s m want) id ∙ rw (has-turn s m want id) (ground arith)

  select_from-Once :
      (s : Selector) (ms : List Member) (want : List String)
      → Once want
      → Once (select_from s ms want)
  unfolding select_from turn
  select_from-Once s [] want h = h
  select_from-Once s (m ∷ ms) want h = select_from-Once s ms (turn s m want) (turn-Once s m want h)

  -- A selection holds exactly the ids of the enabled members that are not excluded and match, each
  -- once; a selector that asks for nothing is refused.
  pub select-chosen :
      (s : Selector) (members : List Member)
      → Holds
          (λ ids. Once ids × ((id : String) → has id ids ≡ chosen s members id))
          (select s members)
  unfolding select
  select-chosen s members =
      Holds-if (not s.all && is_nil s.nodes && is_nil s.labels && is_nil s.capabilities) _ _
        (λ e. failed)
        (λ e. holds (
          sort_by-Once str_leb (select_from s members []) (select_from-Once s members [] tt),
          λ id.
              has-sort_by str_leb id (select_from s members [])
              ∙ has-select_from s members [] id
              ∙ ground arith,
        ))
