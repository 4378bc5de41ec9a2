-- ===== src/Propagation/Manager/Spaced.antt =====
-- A pass over the due profiles (propagation/runner.go): who runs, and who runs again.
use gantry_core.Base.{
  ℕ, ◌+◌, ◌<◌, ◌≡◌, ◌≢◌, refl, ◌∙◌, ◌⊎◌, inl, inr, Bool, true, false, not, ◌||◌, if◌then◌else◌, ltb,
  ◌==◌, String, Option, none, some, List, [], ◌∷◌, ◌++◌, str_eq, has, eq_iff, eq_refl, All, arith,
  Bool-cases, Once,
}
use gantry_core.Base.Text.{trim_space}
use gantry_core.Base.Result.{Result, ok, err, Holds, holds, failed}
use gantry_core.Propagation.Schedule.{
  Profile, ScheduleError, due, due_by, elapsed, Ready, due-Ready,
}
use gantry_core.Propagation.Reconcile.{ProfileError, validate_profile}
use gantry_core.Propagation.Manager.{
  StateStore, ManagerError, RunReport, ProfileRunFunc, schedule_failed, store_failed,
  profile_refused, run_failed, store_error, saved_run, save_profile, save_valid, after_run,
  finish_run, run_if_due, run_each, run_listed, run_due_profiles, profiles, listed,
}

-- What the interface asks of a store, read as a map from ids to profiles: a save that succeeds changes
-- the profile of its id alone, and one that fails changes nothing. A run leaves the profiles alone.
pub record IsStore {W : Type 0} (st : StateStore W) (fn : ProfileRunFunc W)
    (stored : W → String → Option Profile) : Type 0 where
  pub saves :
      (p : Profile) (w : W) (id : String)
      → (st.save p w).1 ≡ none
      → stored (st.save p w).0 id ≡ (if str_eq p.id id then some p else stored w id)
  pub refuses :
      (p : Profile) (w : W) (id : String) {e : String}
      → (st.save p w).1 ≡ some e
      → stored (st.save p w).0 id ≡ stored w id
  pub runs : (p : Profile) (w : W) (id : String) → stored (fn p w).0 id ≡ stored w id

abbrev pub ids : List Profile → List String
ids [] = []
ids (p ∷ ps) = p.id ∷ ids ps

module _ (clock_minutes : String → Option ℕ) (duration : String → Option ℕ) (now minute : ℕ) where
  -- The profile as a run that succeeds saves it.
  abbrev pub ran : Profile → Profile
  ran p = record p { last_run_at = some now }

  -- Not due again before the interval of its schedule is over.
  abbrev pub IsSpaced : Profile → Type 0
  IsSpaced p =
      (d : ℕ) × (duration p.schedule ≡ some d)
      × (d ≢ 0)
      × ((later m : ℕ) → later < now + d → due clock_minutes duration (ran p) later m ≡ ok false)

  -- One profile in a pass: what was stored under its id before and after, and its reports.
  pub data Turn (p : Profile) (before after : Option Profile) : List RunReport → Type 0 where
    not_due :
        due clock_minutes duration p now minute ≡ ok false → after ≡ before → Turn p before after []
    unreadable :
        {r : RunReport} (e : ScheduleError)
        → due clock_minutes duration p now minute ≡ err e
        → r.error ≡ some (schedule_failed e)
        → after ≡ before
        → Turn p before after (r ∷ [])
    unsuccessful :
        {r : RunReport} (e : ManagerError)
        → due clock_minutes duration p now minute ≡ ok true
        → r.error ≡ some e
        → after ≡ before
        → Turn p before after (r ∷ [])
    succeeded :
        {r : RunReport}
        → due clock_minutes duration p now minute ≡ ok true
        → r.error ≡ none
        → after ≡ some (ran p)
        → IsSpaced p
        → Turn p before after (r ∷ [])

  -- The profiles of a pass in their order, with the reports one after another.
  pub data Turns (before after : String → Option Profile)
      : List Profile → List RunReport → Type 0 where
    end : Turns before after [] []
    next :
        {p : Profile} {ps : List Profile} {r rs : List RunReport}
        → Turn p (before p.id) (after p.id) r
        → Turns before after ps rs
        → Turns before after (p ∷ ps) (r ++ rs)

  Ready-of :
      (p : Profile) (r : Result ScheduleError Bool)
      → Holds (Ready clock_minutes duration p now minute) r
      → r ≡ ok true
      → Ready clock_minutes duration p now minute true
  Ready-of p (ok true) (holds y) h = y
  Ready-of p (ok false) (holds y) h = absurd (cc)
  Ready-of p (err e) failed h = absurd (cc)

  scheduled :
      (p : Profile)
      → due clock_minutes duration p now minute ≡ ok true
      → (not p.enabled || str_eq (trim_space p.schedule) "") ≡ false
  unfolding due
  scheduled p h = elim (Bool-cases (not p.enabled || str_eq (trim_space p.schedule) "")) [
    | inl y ↦ absurd (ground (arith, y, h))
    | inr y ↦ y
  ]

  due-IsSpaced : (p : Profile) → due clock_minutes duration p now minute ≡ ok true → IsSpaced p
  unfolding due due_by elapsed
  due-IsSpaced p h =
      let (on, (d, e, z, over), window) =
        Ready-of p _ (due-Ready clock_minutes duration p now minute) h in
      let no : (d == 0) ≡ false = ground (arith, z) in
      (
        d,
        e,
        z,
        λ later m l.
            let early : ltb later (now + d) ≡ true = ground (arith, l) in
            rw (scheduled p h, e, no, early) refl,
      )

  module _ {W : Type 0} (st : StateStore W) (fn : ProfileRunFunc W)
      (stored : W → String → Option Profile) (lawful : IsStore st fn stored) where
    -- A save failed and kept everything, or put the profile in its place.
    abbrev Saved : Profile → W → W × Option ManagerError → Type 0
    Saved p w y =
        ((e : ManagerError) × (y.1 ≡ some e) × ((id : String) → stored y.0 id ≡ stored w id))
        ⊎ ((y.1 ≡ none)
            × ((id : String) → stored y.0 id ≡ (if str_eq p.id id then some p else stored w id)))

    -- What a turn did to its own profile, and that it left the others alone.
    abbrev Turned : Profile → W → W × List RunReport → Type 0
    Turned p w y =
        Turn p (stored w p.id) (stored y.0 p.id) y.1
        × ((id : String) → str_eq p.id id ≡ false → stored y.0 id ≡ stored w id)

    save-Saved :
        (p : Profile) (w : W) → Saved p w (save_profile clock_minutes duration (some st) p minute w)
    unfolding save_profile save_valid
    save-Saved p w = by_validity (validate_profile clock_minutes duration p minute)
      where
        by_store :
            (x : Option String) → (st.save p w).1 ≡ x → Saved p w ((st.save p w).0, store_error x)
        by_store none h = inr (refl, λ id. lawful.saves p w id h)
        by_store (some e) h = inl (store_failed e, refl, λ id. lawful.refuses p w id h)

        by_validity :
            (x : Result ProfileError (Unit {0}))
            → Saved p w (save_valid clock_minutes duration st p w x)
        by_validity (err e) = inl (profile_refused e, refl, λ id. refl)
        by_validity (ok u) = by_store (st.save p w).1 refl

    kept-Turned :
        (p : Profile) (w w' : W) (r : RunReport) (e : ManagerError)
        → due clock_minutes duration p now minute ≡ ok true
        → r.error ≡ some e
        → ((id : String) → stored w' id ≡ stored w id)
        → Turned p w (w', r ∷ [])
    kept-Turned p w w' r e h k same = (unsuccessful e h k (same p.id), λ id n. same id)

    saved_run-Turned :
        (p : Profile) (w w' : W) (r : RunReport) (y : W × Option ManagerError)
        → Saved (ran p) w' y
        → r.error ≡ none
        → due clock_minutes duration p now minute ≡ ok true
        → ((id : String) → stored w' id ≡ stored w id)
        → Turned p w ((saved_run r y).0, (saved_run r y).1 ∷ [])
    saved_run-Turned p w w' r (v, some e) (inl (x, k, kept)) h d same =
        kept-Turned p w v (record r { error = some e }) e d refl (λ id. kept id ∙ same id)
    saved_run-Turned p w w' r (v, some e) (inr (k, put)) h d same = absurd (cc)
    saved_run-Turned p w w' r (v, none) (inl (x, k, kept)) h d same = absurd (cc)
    saved_run-Turned p w w' r (v, none) (inr (k, put)) h d same = (
      succeeded d h (put p.id ∙ rw (eq_refl p.id) refl) (due-IsSpaced p d),
      λ id n. put id ∙ rw n (same id),
    )

    after-Turned :
        (p : Profile) (w w' : W) (r : RunReport) (x : Option ManagerError)
        → r.error ≡ x
        → due clock_minutes duration p now minute ≡ ok true
        → ((id : String) → stored w' id ≡ stored w id)
        → let y = after_run clock_minutes duration st fn now minute p w' r x in
          Turned p w (y.0, y.1 ∷ [])
    unfolding after_run
    after-Turned p w w' r (some e) h d same = kept-Turned p w w' r e d h same
    after-Turned p w w' r none h d same =
        saved_run-Turned p w w' r _ (save-Saved (ran p) w') h d same

    finish-Turned :
        (p : Profile) (w : W) (y : W × RunReport × Option String)
        → due clock_minutes duration p now minute ≡ ok true
        → ((id : String) → stored y.0 id ≡ stored w id)
        → let z = finish_run clock_minutes duration st fn now minute p y in
          Turned p w (z.0, z.1 ∷ [])
    unfolding finish_run
    finish-Turned p w (w', r, some e) d same = kept-Turned p w w' _ (run_failed e) d refl same
    finish-Turned p w (w', r, none) d same = after-Turned p w w' r r.error refl d same

    turn-Turned :
        (p : Profile) (w : W) (x : Result ScheduleError Bool)
        → due clock_minutes duration p now minute ≡ x
        → Turned p w (run_if_due clock_minutes duration st fn now minute p w x)
    unfolding run_if_due
    turn-Turned p w (err e) h = (unreadable e h refl refl, λ id n. refl)
    turn-Turned p w (ok false) h = (not_due h refl, λ id n. refl)
    turn-Turned p w (ok true) h = finish-Turned p w (fn p w) h (lawful.runs p w)

    run-other :
        (ps : List Profile) (w : W) (id : String)
        → has id (ids ps) ≡ false
        → stored (run_each clock_minutes duration st fn now minute ps w).0 id ≡ stored w id
    unfolding run_each
    run-other [] w id h = refl
    run-other (p ∷ ps) w id h =
        let y =
          run_if_due clock_minutes duration st fn now minute p w
            (due clock_minutes duration p now minute) in
        run-other ps y.0 id (ground (arith, h)) ∙ (turn-Turned p w _ refl).1 id (ground (arith, h))

    -- The profiles of the rest stand as before the turn.
    rest-before :
        (base : String → Option Profile) (own : String) (w w' : W) (ps : List Profile)
        → has own (ids ps) ≡ false
        → ((id : String) → str_eq own id ≡ false → stored w' id ≡ stored w id)
        → All (λ q. stored w q.id ≡ base q.id) ps
        → All (λ q. stored w' q.id ≡ base q.id) ps
    rest-before base own w w' [] h f b = tt
    rest-before base own w w' (q ∷ ps) h f (x, b) = (
      f q.id (ground (arith, h, eq_iff q.id own, eq_iff own q.id)) ∙ x,
      rest-before base own w w' ps (ground (arith, h)) f b,
    )

    each-Turns :
        (base : String → Option Profile) (ps : List Profile) (w : W)
        → Once (ids ps)
        → All (λ q. stored w q.id ≡ base q.id) ps
        → let y = run_each clock_minutes duration st fn now minute ps w in
          Turns base (stored y.0) ps y.1
    unfolding run_each
    each-Turns base [] w o b = end
    each-Turns base (p ∷ ps) w (a, o) (x, b) =
        let y =
          run_if_due clock_minutes duration st fn now minute p w
            (due clock_minutes duration p now minute) in
        let (turn, others) = turn-Turned p w (due clock_minutes duration p now minute) refl in
        next (rw (run-other ps y.0 p.id a, ← x) turn)
          (each-Turns base ps y.0 o (rest-before base p.id w y.0 ps a others b))

    as_stored : (w : W) (ps : List Profile) → All (λ q. stored w q.id ≡ stored w q.id) ps
    as_stored w [] = tt
    as_stored w (p ∷ ps) = (refl, as_stored w ps)

    listed-Turns :
        (ps : List Profile) (w : W) (x : Result ManagerError (List Profile))
        → x ≡ ok ps
        → Once (ids ps)
        → let y = run_listed clock_minutes duration st fn now minute w x in
          (reports : List RunReport) × (y.1 ≡ ok reports) × Turns (stored w) (stored y.0) ps reports
    unfolding run_listed
    listed-Turns ps w (err e) h o = absurd (cc)
    listed-Turns ps w (ok qs) h o =
        let same : qs ≡ ps = cc in rw same (_, refl, each-Turns (stored w) ps w o (as_stored w ps))

    -- A pass over profiles with ids of their own reports, in their order, nothing of a profile that is
    -- not due, and one result of every other. A profile whose run and save succeed is stored with the
    -- time of the pass, and is not due again before the interval of its schedule is over. All others
    -- stay as they were stored, so one that failed is due again.
    pub run_due_profiles-Turns :
        (ps : List Profile) (w : W)
        → st.list w ≡ ok ps
        → Once (ids ps)
        → let y = run_due_profiles clock_minutes duration (some st) (some fn) now minute w in
          (reports : List RunReport) × (y.1 ≡ ok reports) × Turns (stored w) (stored y.0) ps reports
    unfolding run_due_profiles profiles listed
    run_due_profiles-Turns ps w h o = listed-Turns ps w (listed (st.list w)) (rw h refl) o
