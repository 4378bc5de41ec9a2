-- ===== src/Auth/Capabilities/Laws.antt =====
-- What an account may do, and what a tidied list holds.
use gantry_core.Base.{
  ◌≡◌, refl, ◌∙◌, inl, inr, Bool, true, false, ◌&&◌, ◌||◌, String, Option, none, some, List, [],
  ◌∷◌, str_eq, has, arith, eq_iff, if◌then◌else◌, Bool-cases, eq_refl,
}
use gantry_core.Base.Text.{trim_space}
use gantry_core.Base.Sort.{has-insert_sorted, has-sort_by, sort_by, insert_sorted, str_leb}
use gantry_core.Auth.Accounts.{Account, Role}
use gantry_core.Auth.Capabilities.{
  add, gather_role, gather_roles, gather, effective_capabilities, has_capability, dedupe_from,
  dedupe_strings,
}

has-add : (x c : String) (set : List String) → has x (add c set) ≡ (str_eq c x || has x set)
unfolding add
has-add x c set = ground (arith, eq_iff c x)

-- Whether some role of this identity grants the capability, itself or by granting everything.
abbrev pub role_grants : String → List Role → String → Bool
role_grants id [] key = false
role_grants id (r ∷ rs) key =
    str_eq r.id id && has_capability r.capabilities key || role_grants id rs key

abbrev pub grants : List String → List Role → String → Bool
grants [] roles key = false
grants (id ∷ ids) roles key = role_grants id roles key || grants ids roles key

-- What a gathered set answers for a key: everything, or what it holds.
abbrev answers : Option (List String) → String → Bool
answers none key = true
answers (some set) key = has_capability set key

-- A capability that the set holds is one the set answers for.
has_capability-has :
    (key c : String) (set : List String)
    → has c set ≡ true
    → has_capability set key ≡ (str_eq c "*" || str_eq c key || has_capability set key)
unfolding has_capability
has_capability-has key c [] h = cc
has_capability-has key c (d ∷ ds) h = elim (Bool-cases (str_eq d c)) [
  | inl e ↦ ground (arith, eq_iff d c, e)
  | inr e ↦ ground (arith, has_capability-has key c ds (ground (arith, e, h)))
]

has_capability-add :
    (key c : String) (set : List String)
    → has_capability (add c set) key ≡ (str_eq c "*" || str_eq c key || has_capability set key)
unfolding add has_capability
has_capability-add key c set = elim (Bool-cases (has c set)) [
  | inl e ↦ rw e (has_capability-has key c set e)
  | inr e ↦ rw e
]

has_capability-insert_sorted :
    (leb : String → String → Bool) (key a : String) (xs : List String)
    → has_capability (insert_sorted leb a xs) key
      ≡ (str_eq a "*" || str_eq a key || has_capability xs key)
unfolding insert_sorted has_capability
has_capability-insert_sorted leb key a [] = refl
has_capability-insert_sorted leb key a (y ∷ ys) =
    ground (arith, has_capability-insert_sorted leb key a ys)

has_capability-sort_by :
    (leb : String → String → Bool) (key : String) (xs : List String)
    → has_capability (sort_by leb xs) key ≡ has_capability xs key
unfolding sort_by has_capability
has_capability-sort_by leb key [] = refl
has_capability-sort_by leb key (y ∷ ys) =
    has_capability-insert_sorted leb key y (sort_by leb ys) ∙ rw (has_capability-sort_by leb key ys)

answers-gather_role :
    (key : String) (cs set : List String)
    → answers (gather_role cs set) key ≡ (has_capability cs key || has_capability set key)
unfolding gather_role has_capability
answers-gather_role key [] set = refl
answers-gather_role key (c ∷ cs) set =
    let rest = answers-gather_role key cs (add c set) in
    let here = has_capability-add key c set in
    elim (Bool-cases (str_eq c "*")) [ inl e ↦ rw e | inr e ↦ rw e (ground (arith, rest, here, e)) ]

-- A step that answers more keys, after one that may have answered all.
answers-then :
    (key : String) (more : Bool) (next : List String → Option (List String))
    → ((set : List String) → answers (next set) key ≡ (more || has_capability set key))
    → (o : Option (List String))
    → answers (elim o [ none ↦ none | some set ↦ next set ]) key ≡ (more || answers o key)
answers-then key more next h none = ground arith
answers-then key more next h (some set) = h set

answers-role :
    (key : String) (r : Role) (id : String) (set : List String)
    → answers (if str_eq r.id id then gather_role r.capabilities set else some set) key
      ≡ (str_eq r.id id && has_capability r.capabilities key || has_capability set key)
answers-role key r id set = elim (Bool-cases (str_eq r.id id)) [
  | inl e ↦ rw e (answers-gather_role key r.capabilities set)
  | inr e ↦ rw e
]

answers-gather_roles :
    (key id : String) (roles : List Role) (set : List String)
    → answers (gather_roles id roles set) key ≡ (role_grants id roles key || has_capability set key)
unfolding gather_roles
answers-gather_roles key id [] set = refl
answers-gather_roles key id (r ∷ rs) set =
    let first = if str_eq r.id id then gather_role r.capabilities set else some set in
    let here = answers-role key r id set in
    answers-then key (role_grants id rs key) (gather_roles id rs) (answers-gather_roles key id rs)
      first
    ∙ rw here (ground arith)

answers-gather :
    (key : String) (ids : List String) (roles : List Role) (set : List String)
    → answers (gather ids roles set) key ≡ (grants ids roles key || has_capability set key)
unfolding gather
answers-gather key [] roles set = refl
answers-gather key (id ∷ ids) roles set =
    answers-then key (grants ids roles key) (gather ids roles) (answers-gather key ids roles)
      (gather_roles id roles set)
    ∙ rw (answers-gather_roles key id roles set) (ground arith)

-- The list made of a gathered set has the capabilities that the set answers for.
has_capability-listed :
    (key : String) (o : Option (List String))
    → has_capability (elim o [ none ↦ "*" ∷ [] | some set ↦ sort_by str_leb set ]) key
      ≡ answers o key
unfolding has_capability
has_capability-listed key none = rw (eq_refl "*")
has_capability-listed key (some set) = has_capability-sort_by str_leb key set

-- An account has a capability exactly when it is enabled and one of its roles grants it, by the
-- capability's own name or by `*`: collecting, stopping early and sorting lose and add nothing.
pub has_capability-effective_capabilities :
    (account : Account) (roles : List Role) (key : String)
    → has_capability (effective_capabilities account roles) key
      ≡ (account.enabled && grants account.roles roles key)
unfolding effective_capabilities has_capability
has_capability-effective_capabilities account roles key =
    let all = answers-gather key account.roles roles [] in
    elim (Bool-cases account.enabled) [
      | inl e ↦
          rw e (has_capability-listed key (gather account.roles roles []) ∙ all ∙ ground arith)
      | inr e ↦ rw e
    ]

-- Whether some string of the list is this one after trimming.
abbrev pub trims_to : List String → String → Bool
trims_to [] x = false
trims_to (v ∷ vs) x = str_eq (trim_space v) x || trims_to vs x

-- No string occurs twice, and none is empty.
abbrev pub Distinct : List String → Type 0
Distinct [] = Unit
Distinct (x ∷ xs) = (has x xs ≡ false) × (str_eq x "" ≡ false) × Distinct xs

-- What one turn of the loop leaves.
keep : String → List String → List String
keep t out = if str_eq t "" || has t out then out else t ∷ out

keep-Distinct : (t : String) (out : List String) → Distinct out → Distinct (keep t out)
unfolding keep
keep-Distinct t out h = elim (Bool-cases (str_eq t "" || has t out)) [
  | inl e ↦ rw e h
  | inr e ↦ rw e (ground arith, ground arith, h)
]

has-keep :
    (x t : String) (out : List String)
    → str_eq x "" ≡ false
    → has x (keep t out) ≡ (str_eq t x || has x out)
unfolding keep
has-keep x t out h = ground (arith, eq_iff t x, eq_iff t "", eq_iff x "")

dedupe_from-Distinct : (vs out : List String) → Distinct out → Distinct (dedupe_from vs out)
unfolding dedupe_from keep
dedupe_from-Distinct [] out h = h
dedupe_from-Distinct (v ∷ vs) out h =
    dedupe_from-Distinct vs (keep (trim_space v) out) (keep-Distinct (trim_space v) out h)

has-dedupe_from :
    (x : String) (vs out : List String)
    → str_eq x "" ≡ false
    → has x (dedupe_from vs out) ≡ (trims_to vs x || has x out)
unfolding dedupe_from keep
has-dedupe_from x [] out h = refl
has-dedupe_from x (v ∷ vs) out h =
    has-dedupe_from x vs (keep (trim_space v) out) h
    ∙ rw (has-keep x (trim_space v) out h) (ground arith)

insert_sorted-Distinct :
    (leb : String → String → Bool) (a : String) (xs : List String)
    → has a xs ≡ false
    → str_eq a "" ≡ false
    → Distinct xs
    → Distinct (insert_sorted leb a xs)
unfolding insert_sorted
insert_sorted-Distinct leb a [] h g d = (h, g, d)
insert_sorted-Distinct leb a (y ∷ ys) h g (fresh, filled, d) =
    let rest = insert_sorted-Distinct leb a ys (ground (arith, h)) g d in
    elim (Bool-cases (leb a y)) [
      | inl e ↦ rw e (h, g, (fresh, filled, d))
      | inr e ↦ rw e (
        (has-insert_sorted leb y a ys ∙ ground (arith, eq_iff a y, eq_iff y a, h, fresh)),
        filled,
        rest,
      )
    ]

sort_by-Distinct :
    (leb : String → String → Bool) (xs : List String) → Distinct xs → Distinct (sort_by leb xs)
unfolding sort_by
sort_by-Distinct leb [] d = d
sort_by-Distinct leb (y ∷ ys) (fresh, filled, d) =
    insert_sorted-Distinct leb y (sort_by leb ys) (has-sort_by leb y ys ∙ fresh) filled
      (sort_by-Distinct leb ys d)

-- A tidied list holds each non-empty string that some entry trims to, no other and none twice.
pub dedupe_strings_lem :
    (vs : List String)
    → Distinct (dedupe_strings vs)
      × ((x : String) → str_eq x "" ≡ false → has x (dedupe_strings vs) ≡ trims_to vs x)
unfolding dedupe_strings
dedupe_strings_lem vs = (
  sort_by-Distinct str_leb (dedupe_from vs []) (dedupe_from-Distinct vs [] tt),
  λ x h. has-sort_by str_leb x (dedupe_from vs []) ∙ has-dedupe_from x vs [] h ∙ ground arith,
)
