-- ===== src/Terminal/Tests.antt =====
-- The scrollback at concrete bytes: `a`, then the three bytes of the euro sign.
use gantry_core.Base.{◌≡◌, refl, false, ℕ, List, [], ◌∷◌}
use gantry_core.Base.Int.{pos, negsuc}
use gantry_core.Base.Result.{err}
use gantry_core.Terminal.{append_scrollback, check_capacity, session_limit_reached}
use gantry_core.Terminal.Scrollback.{Kept, append_scrollback-Kept}

abbrev as_is : List ℕ → List ℕ
as_is bytes = bytes

-- The two bytes of the sign that the limit leaves are dropped too.
cuts_a_rune : append_scrollback as_is (97 ∷ []) (226 ∷ 130 ∷ 172 ∷ 98 ∷ []) (pos 3) ≡ 98 ∷ []
unfolding append_scrollback
cuts_a_rune = refl

append_scrollback-Kept_example :
    Kept 3
      (97 ∷ 226 ∷ 130 ∷ 172 ∷ 98 ∷ [])
      (append_scrollback as_is (97 ∷ []) (226 ∷ 130 ∷ 172 ∷ 98 ∷ []) (pos 3))
append_scrollback-Kept_example =
    append_scrollback-Kept as_is (97 ∷ []) (226 ∷ 130 ∷ 172 ∷ 98 ∷ []) (pos 3)

sixteen_sessions : check_capacity false (pos 16) (negsuc 0) ≡ err session_limit_reached
unfolding check_capacity
sixteen_sessions = refl
