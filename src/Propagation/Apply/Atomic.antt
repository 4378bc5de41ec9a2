-- ===== src/Propagation/Apply/Atomic.antt =====
-- A failed bundle that was taken back whole leaves the node as it was.
use gantry_core.Base.{
  ◌≡◌, refl, ap, subst, ◌∙◌, ◌≤◌, Option-cases, Bool, true, false, not, if◌then◌else◌, Bool-cases,
  inl, inr, String, Option, none, some, List, [], ◌∷◌, ◌++◌, str_eq, eq_iff, has, All, arith, Assoc,
  ℕ, suc, ◌+◌, length, length-append,
}
use gantry_core.Base.Result.{Result, ok, err}
use gantry_core.Propagation.Plan.{with_sorted, all_sorted, Envelope, PlanError, key}
use gantry_core.Propagation.Preview.{Preview}
use gantry_core.Propagation.Apply.{
  ObjectState, AppliedRevision, LocalAdapter, ApplyBundleResult, Applied, failed_with, done,
  refused, invalid, blocked, kinds_of, state_before, restored, roll_back, apply_all,
  apply_previewed, preview_local, apply_local, apply_after, nothing_applied, on_result,
}

-- What an adapter promises for a source. `View` is what stands at the key of an object. A successful
-- call touches its own object only, an apply that reports an error has changed nothing, and a
-- restore of what the snapshot had, or of what stands for no object, brings that back.
pub record IsReversible (a : LocalAdapter) (source : List Envelope) : Type 1 where
  pub View : Type 0
  pub view : a.Store → String → View
  pub applied_elsewhere :
      (e : Envelope) (s s' : a.Store) (r : AppliedRevision) (j : String)
      → a.apply e s ≡ (s', ok r)
      → str_eq (key e) j ≡ false
      → view s' j ≡ view s j
  pub failed_unchanged :
      (e : Envelope) (s s' : a.Store) (m j : String)
      → a.apply e s ≡ (s', err m)
      → view s' j ≡ view s j
  pub restored_elsewhere :
      All
        (λ e.
          (first s s' : a.Store) (before : Assoc ObjectState) (j : String)
          → a.snapshot (kinds_of source) first ≡ ok before
          → a.restore (state_before before (key e)) s ≡ (s', none)
          → str_eq (key e) j ≡ false
          → view s' j ≡ view s j)
        source
  pub restored_back :
      All
        (λ e.
          (first s s' : a.Store) (before : Assoc ObjectState)
          → a.snapshot (kinds_of source) first ≡ ok before
          → a.restore (state_before before (key e)) s ≡ (s', none)
          → view s' (key e) ≡ view first (key e))
        source

too_few : {A : Type 0} (n c l : ℕ) → n ≤ c + l → n ≡ c + suc l → A
too_few n c l h g = ground (arith, h, g)

module _ (a : LocalAdapter) (View : Type 0) (view : a.Store → String → View) (first : a.Store) where
  -- Everything but these keys is as it was.
  abbrev pub Else : List String → a.Store → Type 0
  Else ks s = (j : String) → has j ks ≡ false → view s j ≡ view first j

  -- A failure after which every applied key counts as rolled back leaves everything as it was.
  abbrev pub Whole : a.Store × Applied → Type 0
  Whole (s, failed_with out) = out.rolled_back_count ≡ length out.revisions → Else [] s
  Whole (s, done out) = Unit
  Whole (s, refused m) = Unit
  Whole (s, invalid e) = Unit
  Whole (s, blocked is) = Unit

module _ (a : LocalAdapter) (before : Assoc ObjectState) where
  restored-count :
      (e : Option String) (out : ApplyBundleResult)
      → (restored a e out).rolled_back_count ≤ out.rolled_back_count + 1
  unfolding restored
  restored-count none out = omega arith
  restored-count (some m) out = omega arith

  roll_back-count :
      (ks : List String) (s : a.Store) (out : ApplyBundleResult)
      → (roll_back a before ks s out).1.rolled_back_count ≤ out.rolled_back_count + length ks
  unfolding roll_back
  roll_back-count [] s out = omega arith
  roll_back-count (k ∷ ks) s out = elim (Bool-cases (state_before before k).reversible) [
    | inl e ↦ rw e (
        omega (
          arith,
          roll_back-count ks (a.restore (state_before before k) s).0
              (restored a (a.restore (state_before before k) s).1 out),
          restored-count (a.restore (state_before before k) s).1 out,
        ))
    | inr e ↦ rw e (omega (arith, roll_back-count ks s out))
  ]

  module _ (View : Type 0) (view : a.Store → String → View) (first : a.Store) where
    -- A key that a successful restore brings back, alone.
    abbrev pub Back : String → Type 0
    Back k =
        (s s' : a.Store)
        → a.restore (state_before before k) s ≡ (s', none)
        → (view s' k ≡ view first k) × ((j : String) → str_eq k j ≡ false → view s' j ≡ view s j)

    brought-Back :
        (k : String) (ks : List String) (s s' : a.Store)
        → Back k
        → Else a View view first (k ∷ ks) s
        → a.restore (state_before before k) s ≡ (s', none)
        → Else a View view first ks s'
    brought-Back k ks s s' back same h j new = elim (Bool-cases (str_eq k j)) [
      | inl e ↦
          let same_key : k ≡ j = ground (arith, eq_iff k j, e) in
          subst (λ x. view s' x ≡ view first x) same_key (back s s' h).0
      | inr e ↦ (back s s' h).1 j e ∙ same j (ground (arith, e, new))
    ]

    restored-some :
        (m : String) (out : ApplyBundleResult)
        → (restored a (some m) out).rolled_back_count ≡ out.rolled_back_count
    unfolding restored
    restored-some m out = refl

    restored-none :
        (out : ApplyBundleResult)
        → (restored a none out).rolled_back_count ≡ out.rolled_back_count + 1
    unfolding restored
    restored-none out = refl

    -- Where every key counts as rolled back, all of them are back.
    roll_back-Else :
        (ks : List String) (s : a.Store) (out : ApplyBundleResult)
        → All Back ks
        → Else a View view first ks s
        → (roll_back a before ks s out).1.rolled_back_count ≡ out.rolled_back_count + length ks
        → Else a View view first [] (roll_back a before ks s out).0
    unfolding roll_back
    roll_back-Else [] s out backs same whole = same
    roll_back-Else (k ∷ ks) s out (back, backs) same whole =
        elim (Bool-cases (state_before before k).reversible) [
          | inr e ↦ too_few _ _ _ (roll_back-count ks s out) (rw e at whole)
          | inl e ↦ elim (Option-cases (a.restore (state_before before k) s).1) [
            | inr (m, f) ↦
                too_few _ _ _
                  (roll_back-count ks (a.restore (state_before before k) s).0
                    (restored a (some m) out))
                  (rw (e, f) at whole)
            | inl f ↦
                rw (e, f)
                  (roll_back-Else ks (a.restore (state_before before k) s).0 (restored a none out)
                    backs
                    (brought-Back k ks s (a.restore (state_before before k) s).0 back same
                      (ap (λ x. ((a.restore (state_before before k) s).0, x)) f))
                    ((rw (e, f) at whole) ∙ omega (arith, restored-none out)))
          ]
        ]

    restored-revisions :
        (e : Option String) (out : ApplyBundleResult) → (restored a e out).revisions ≡ out.revisions
    unfolding restored
    restored-revisions none out = refl
    restored-revisions (some m) out = refl

    roll_back-revisions :
        (ks : List String) (s : a.Store) (out : ApplyBundleResult)
        → (roll_back a before ks s out).1.revisions ≡ out.revisions
    unfolding roll_back
    roll_back-revisions [] s out = refl
    roll_back-revisions (k ∷ ks) s out = elim (Bool-cases (state_before before k).reversible) [
      | inr e ↦ rw e (roll_back-revisions ks s out)
      | inl e ↦ rw e (
          roll_back-revisions ks (a.restore (state_before before k) s).0
            (restored a (a.restore (state_before before k) s).1 out)
          ∙ restored-revisions (a.restore (state_before before k) s).1 out)
    ]

    on_result-Whole :
        {R : Type 0} (r : Result String R) (go : R → a.Store × Applied)
        (stop : String → a.Store × Applied)
        → ((x : R) → r ≡ ok x → Whole a View view first (go x))
        → ((m : String) → r ≡ err m → Whole a View view first (stop m))
        → Whole a View view first (on_result r go stop)
    on_result-Whole (ok x) go stop f g = f x refl
    on_result-Whole (err m) go stop f g = g m refl

    module _
        (elsewhere : (e : Envelope) (s s' : a.Store) (r : AppliedRevision) (j : String)
          → a.apply e s ≡ (s', ok r)
          → str_eq (key e) j ≡ false
          → view s' j ≡ view s j)
        (unchanged : (e : Envelope) (s s' : a.Store) (m j : String)
          → a.apply e s ≡ (s', err m)
          → view s' j ≡ view s j) where
      apply_all-Whole :
          (es : List Envelope) (applied : List String) (s : a.Store) (out : ApplyBundleResult)
          → All (λ e. Back (key e)) es
          → All Back applied
          → Else a View view first applied s
          → out.rolled_back_count ≡ 0
          → length out.revisions ≡ length applied
          → Whole a View view first (apply_all a before es applied s out)
      unfolding apply_all
      apply_all-Whole [] applied s out backs backs' same zeros count = tt
      apply_all-Whole (e ∷ es) applied s out (back, backs) backs' same zeros count =
          on_result-Whole (a.apply e s).1 _ _
            (λ r f.
              apply_all-Whole es (key e ∷ applied) (a.apply e s).0
                (record out { revisions = out.revisions ++ (r ∷ []) }) backs (back, backs')
                (λ j new.
                  elsewhere e s (a.apply e s).0 r j (ap (λ x. ((a.apply e s).0, x)) f)
                    (ground (arith, new))
                  ∙ same j (ground (arith, new)))
                zeros (length-append out.revisions (r ∷ []) ∙ omega (arith, count)))
            (λ m f whole.
              roll_back-Else applied (a.apply e s).0
                (record out { errors = out.errors ++ (m ∷ []) }) backs'
                (λ j new.
                  unchanged e s (a.apply e s).0 m j (ap (λ x. ((a.apply e s).0, x)) f) ∙ same j new)
                (whole
                  ∙ ap length (
                      roll_back-revisions applied (a.apply e s).0
                        (record out { errors = out.errors ++ (m ∷ []) }))
                  ∙ omega (arith, count, zeros)))

-- What an adapter's promises say of each key.
backs :
    (a : LocalAdapter) (source : List Envelope) (r : IsReversible a source) (first : a.Store)
    (before : Assoc ObjectState)
    → a.snapshot (kinds_of source) first ≡ ok before
    → All (λ e. Back a before r.View r.view first (key e)) source
backs a source r first before h = both source r.restored_back r.restored_elsewhere
  where
    both :
        (es : List Envelope)
        → All
            (λ e.
              (first s s' : a.Store) (before : Assoc ObjectState)
              → a.snapshot (kinds_of source) first ≡ ok before
              → a.restore (state_before before (key e)) s ≡ (s', none)
              → r.view s' (key e) ≡ r.view first (key e))
            es
        → All
            (λ e.
              (first s s' : a.Store) (before : Assoc ObjectState) (j : String)
              → a.snapshot (kinds_of source) first ≡ ok before
              → a.restore (state_before before (key e)) s ≡ (s', none)
              → str_eq (key e) j ≡ false
              → r.view s' j ≡ r.view s j)
            es
        → All (λ e. Back a before r.View r.view first (key e)) es
    both [] f g = tt
    both (e ∷ es) (f, fs) (g, gs) = (
      (λ s s' k. (f first s s' before h k, λ j new. g first s s' before j h k new)),
      both es fs gs,
    )

-- Sorting dependencies keeps the keys.
backs-all_sorted :
    (P : String → Type 0) (es : List Envelope)
    → All (λ e. P (key e)) es
    → All (λ e. P (key e)) (all_sorted es)
unfolding with_sorted
backs-all_sorted P [] h = tt
backs-all_sorted P (e ∷ es) (p, h) = (p, backs-all_sorted P es h)

if-Whole :
    (a : LocalAdapter) (View : Type 0) (view : a.Store → String → View) (first : a.Store) (b : Bool)
    (x y : a.Store × Applied)
    → Whole a View view first x
    → Whole a View view first y
    → Whole a View view first (if b then x else y)
if-Whole a View view first true x y f g = f
if-Whole a View view first false x y f g = g

apply_after-Whole :
    (a : LocalAdapter) (source : List Envelope) (r : IsReversible a source) (first : a.Store)
    (p : Result String (Result PlanError Preview))
    → Whole a r.View r.view first (apply_after a source first p)
unfolding apply_after apply_previewed
apply_after-Whole a source r first (err m) = tt
apply_after-Whole a source r first (ok (err e)) = tt
apply_after-Whole a source r first (ok (ok p)) =
    if-Whole a r.View r.view first (not p.applicable) _ _ tt
      (after (a.snapshot (kinds_of source) first) refl)
  where
    after :
        (o : Result String (Assoc ObjectState))
        → a.snapshot (kinds_of source) first ≡ o
        → Whole a r.View r.view first (
            on_result o
              (λ before. apply_all a before (all_sorted source) [] first nothing_applied)
              (λ m. (first, refused m)))
    after (err m) h = tt
    after (ok before) h =
        apply_all-Whole a before r.View r.view first r.applied_elsewhere r.failed_unchanged
          (all_sorted source) [] first nothing_applied
          (backs-all_sorted (Back a before r.View r.view first) source
            (backs a source r first before h))
          tt (λ j new. refl) refl refl

-- A bundle is atomic where it can be: when applying it fails and the result counts every applied
-- object as rolled back, each object of the node stands as it stood before the call.
pub apply_local-atomic :
    (a : LocalAdapter) (canonical_digest : String → Option String) (source : List Envelope)
    (r : IsReversible a source) (first last : a.Store) (out : ApplyBundleResult)
    → apply_local a canonical_digest source first ≡ (last, failed_with out)
    → out.rolled_back_count ≡ length out.revisions
    → (j : String) → r.view last j ≡ r.view first j
unfolding apply_local
apply_local-atomic a canonical_digest source r first last out h whole j =
    subst (Whole a r.View r.view first) h
      (apply_after-Whole a source r first (preview_local a canonical_digest source first)) whole j
      refl
