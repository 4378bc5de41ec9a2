-- ===== src/Terminal/Scrollback.antt =====
-- What the scrollback keeps, and the bounds of a session.
use gantry_core.Base.{
  ◌≡◌, refl, ap, subst, ◌∙◌, ◌⊎◌, inl, inr, ℕ, zero, suc, ◌-◌, ◌≤◌, true, false, leb, Bool-cases,
  List, [], ◌∷◌, ◌++◌, length, length-append, arith, All,
}
use gantry_core.Base.Int.{ℤ, pos, negsuc}
use gantry_core.Terminal.{
  rune_start, drop, from_rune, tail_of, append_scrollback, limit_or, default_scrollback_limit,
}

abbrev pub IsContinuation : ℕ → Type 0
IsContinuation b = rune_start b ≡ false

-- Empty, or with a first byte that starts a rune.
abbrev pub StartsRune : List ℕ → Type 0
StartsRune [] = Unit
StartsRune (b ∷ bytes) = rune_start b ≡ true

-- The scrollback is all there was, or what is left without the bytes before the limit and then without
-- the end of a rune that the limit cuts.
abbrev pub Kept : ℕ → List ℕ → List ℕ → Type 0
Kept limit combined out =
    ((length combined ≤ limit) × (out ≡ combined))
    ⊎ ((front : List ℕ) × (cut : List ℕ) × (combined ≡ front ++ (cut ++ out))
        × (length (cut ++ out) ≡ limit)
        × All IsContinuation cut
        × StartsRune out)

-- The limit that is meant: a positive one as it is given, and else 262,144 bytes.
abbrev pub meant : ℤ → ℕ
meant (pos (suc n)) = suc n
meant _ = 262_144

limit_or-meant : (limit : ℤ) → limit_or default_scrollback_limit limit ≡ meant limit
limit_or-meant (pos zero) = refl
limit_or-meant (pos (suc n)) = ground arith
limit_or-meant (negsuc n) = refl

drop-split :
    (n : ℕ) (bytes : List ℕ)
    → n ≤ length bytes
    → (front : List ℕ) × (bytes ≡ front ++ drop n bytes) × (length front ≡ n)
unfolding drop
drop-split zero bytes h = ([], refl, refl)
drop-split (suc n) [] h = ([], refl, omega (arith, h))
drop-split (suc n) (b ∷ bytes) h =
    let (front, e, l) = drop-split n bytes (omega (arith, h)) in
    (b ∷ front, ap (λ x. b ∷ x) e, omega (arith, l))

from_rune-split :
    (bytes : List ℕ)
    → (cut : List ℕ) × (bytes ≡ cut ++ from_rune bytes)
      × All IsContinuation cut
      × StartsRune (from_rune bytes)
unfolding from_rune
from_rune-split [] = ([], refl, tt, tt)
from_rune-split (b ∷ bytes) = elim (Bool-cases (rune_start b)) [
  | inl e ↦ rw e ([], refl, tt, e)
  | inr e ↦ rw e (
      let (cut, same, all, starts) = from_rune-split bytes in
      (b ∷ cut, ap (λ x. b ∷ x) same, (e, all), starts))
]

tail_of-Kept : (combined : List ℕ) (limit : ℕ) → Kept limit combined (tail_of combined limit)
unfolding tail_of
tail_of-Kept combined limit = elim (Bool-cases (leb (length combined) limit)) [
  | inl e ↦ rw e (inl (ground (arith, e), refl))
  | inr e ↦ rw e (
      let (front, same, dropped) =
        drop-split (length combined - limit) combined (ground (arith, e)) in
      let (cut, rest, all, starts) = from_rune-split (drop (length combined - limit) combined) in
      inr (
        front,
        cut,
        same ∙ ap (λ l. front ++ l) rest,
        sized front cut _ (same ∙ ap (λ l. front ++ l) rest) dropped (ground (arith, e)),
        all,
        starts,
      ))
]
  where
    sized :
        (front cut out : List ℕ)
        → combined ≡ front ++ (cut ++ out)
        → length front ≡ length combined - limit
        → limit ≤ length combined
        → length (cut ++ out) ≡ limit
    sized front cut out same dropped within =
        omega (arith, ap length same ∙ length-append front (cut ++ out), dropped, within)

-- What is appended to a scrollback is kept whole if it fits into the limit. Otherwise the last bytes
-- are kept, as many as the limit says, but for the bytes at their start that continue a rune that was
-- cut; a limit that is not positive stands for 262,144 bytes.
pub append_scrollback-Kept :
    (to_valid_utf8 : List ℕ → List ℕ) (existing p : List ℕ) (limit : ℤ)
    → Kept
        (meant limit)
        (existing ++ to_valid_utf8 p)
        (append_scrollback to_valid_utf8 existing p limit)
unfolding append_scrollback
append_scrollback-Kept to_valid_utf8 existing p limit =
    subst
      (λ l. Kept l (existing ++ to_valid_utf8 p) (append_scrollback to_valid_utf8 existing p limit))
      (limit_or-meant limit)
      (tail_of-Kept (existing ++ to_valid_utf8 p) (limit_or default_scrollback_limit limit))
