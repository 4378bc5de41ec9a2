-- ===== src/Agent/Recovered/Joined.antt =====
-- Recovered output is joined to the stream at their longest overlap (agent/agent.go:
-- ReconcileRecovered).
use Prim.Native.String.{◌++◌ as append_str}
use Prim.Native.String.append
use Prim.Native.Char.{Char, code}
use text.Mathlib.TextEquality.{Char-path}
use gantry_core.Base.{
  ◌≡◌, ◌≢◌, ◌==◌, ◌⊎◌, inl, inr, refl, sym, ap, ◌∙◌, true, String, Option, none, some, arith,
  Bool-cases,
}
use gantry_core.Agent.Recovered.{after_prefix, after_overlap}

after_prefix-append : (p t rest : String) → after_prefix p t ≡ some rest → append_str p rest ≡ t
unfolding after_prefix
after_prefix-append String.[] t rest h = append.nil rest ∙ cc
after_prefix-append (String.◌∷◌ c p) String.[] rest h = absurd (cc)
after_prefix-append (String.◌∷◌ c p) (String.◌∷◌ d t) rest h =
    elim (Bool-cases (code c == code d)) [
      | inl y ↦
          let tail = after_prefix-append p t rest (rw y at h) in
          let head = Char-path c d (ground (arith, y)) in
          append.cons c p rest
          ∙ ap (λ x. String.◌∷◌ x (append_str p rest)) head
          ∙ ap (λ x. String.◌∷◌ d x) tail
      | inr y ↦ absurd (let k = rw y at h in cc)
    ]

append-after_prefix : (p rest : String) → after_prefix p (append_str p rest) ≡ some rest
unfolding after_prefix
append-after_prefix String.[] rest = ap some (append.nil rest)
append-after_prefix (String.◌∷◌ c p) rest =
    let same : (code c == code c) ≡ true = ground arith in
    rw (append.cons c p rest) (rw same (append-after_prefix p rest))

-- An end of the stream that begins the recovered text, with what follows it there.
pub record Overlap (streamed recovered rest : String) : Type 0 where
  pub front : String
  pub shared : String
  pub shared_ne : shared ≢ ""
  pub ends : append_str front shared ≡ streamed
  pub begins : append_str shared rest ≡ recovered

-- No other overlap begins further ahead in the stream.
abbrev pub IsLongest : (s r : String) → String → Type 0
IsLongest s r front =
    (other : String) (p : Overlap s r other) → (more : String) × (append_str front more ≡ p.front)

-- What the loop answers, and why.
pub data Found (s r : String) : Option String → Type 0 where
  joined : {rest : String} (o : Overlap s r rest) → IsLongest s r o.front → Found s r (some rest)
  apart : ((rest : String) → ¬ Overlap s r rest) → Found s r none

cons_ne : (c : Char) (s t : String) → append_str (String.◌∷◌ c s) t ≢ ""
cons_ne c s t h = let e = sym (append.cons c s t) ∙ h in cc

empty-Overlap : (r rest : String) → ¬ Overlap "" r rest
empty-Overlap r rest o = empty_front o.front o.shared o.shared_ne o.ends
  where
    empty_front : (f s : String) → s ≢ "" → ¬ (append_str f s ≡ "")
    empty_front String.[] s n h = n (sym (append.nil s) ∙ h)
    empty_front (String.◌∷◌ c f) s n h = cons_ne c f s h

front_cases :
    (c : Char) (s front shared : String)
    → append_str front shared ≡ String.◌∷◌ c s
    → ((front ≡ "") × (shared ≡ String.◌∷◌ c s))
      ⊎ ((f : String) × (front ≡ String.◌∷◌ c f) × (append_str f shared ≡ s))
front_cases c s String.[] shared h = inl (refl, sym (append.nil shared) ∙ h)
front_cases c s (String.◌∷◌ d f) shared h =
    let e : String.◌∷◌ d (append_str f shared) ≡ String.◌∷◌ c s =
      sym (append.cons d f shared) ∙ h in
    inr (f, ap (λ x. String.◌∷◌ x f) (head_same e), cc)
  where
    head_same : {a b : Char} {x y : String} → String.◌∷◌ a x ≡ String.◌∷◌ b y → a ≡ b
    head_same e = cc

-- Where the whole stream does not begin the recovered text, an overlap lies in the rest of it.
tail-Overlap :
    (c : Char) (s r other : String)
    → after_prefix (String.◌∷◌ c s) r ≡ none
    → (p : Overlap (String.◌∷◌ c s) r other)
    → (q : Overlap s r other) × (p.front ≡ String.◌∷◌ c q.front)
tail-Overlap c s r other h p = elim (front_cases c s p.front p.shared p.ends) [
  | inl (e, k) ↦ absurd (
      let whole : append_str (String.◌∷◌ c s) other ≡ r =
        ap (λ x. append_str x other) (sym k) ∙ p.begins in
      let found =
        ap (λ x. after_prefix (String.◌∷◌ c s) x) (sym whole)
        ∙ append-after_prefix (String.◌∷◌ c s) other in
      cc)
  | inr (f, e, k) ↦ (
    record { front = f; shared = p.shared; shared_ne = p.shared_ne; ends = k; begins = p.begins },
    e,
  )
]

-- What the loop finds is the longest end of the stream that begins the recovered text, with what
-- follows it there, and it finds nothing only if no end of the stream begins that text.
pub after_overlap-Found : (s r : String) → Found s r (after_overlap s r)
unfolding after_overlap
after_overlap-Found String.[] r = apart (empty-Overlap r)
after_overlap-Found (String.◌∷◌ c s) r =
    by_prefix (after_prefix (String.◌∷◌ c s) r) refl (after_overlap-Found s r)
  where
    shorter :
        {x : Option String}
        → after_prefix (String.◌∷◌ c s) r ≡ none
        → Found s r x
        → Found (String.◌∷◌ c s) r x
    shorter h (joined o l) =
        joined
          (record {
            front = String.◌∷◌ c o.front;
            shared = o.shared;
            shared_ne = o.shared_ne;
            ends = append.cons c o.front o.shared ∙ ap (λ x. String.◌∷◌ c x) o.ends;
            begins = o.begins;
          })
          (λ other p.
            let (q, e) = tail-Overlap c s r other h p in
            let (more, k) = l other q in
            (more, append.cons c o.front more ∙ ap (λ x. String.◌∷◌ c x) k ∙ sym e))
    shorter h (apart n) = apart (λ rest p. n rest (tail-Overlap c s r rest h p).0)

    by_prefix :
        (x : Option String)
        → after_prefix (String.◌∷◌ c s) r ≡ x
        → Found s r (after_overlap s r)
        → Found (String.◌∷◌ c s) r (elim x [ some rest ↦ some rest | none ↦ after_overlap s r ])
    by_prefix (some rest) h f =
        joined
          (record {
            front = "";
            shared = String.◌∷◌ c s;
            shared_ne = λ e. cc;
            ends = append.nil (String.◌∷◌ c s);
            begins = after_prefix-append (String.◌∷◌ c s) r rest h;
          })
          (λ other p. (p.front, append.nil p.front))
    by_prefix none h f = shorter h f
