-- ===== src/Arbiter/Tests.antt =====
-- An arbitration between three agents, and the theorems at it.
use voice_backend.Common.{◌≡◌, refl, Text, text, Text-discrete, List, [], ◌∷◌}
use voice_backend.Common.Map.{lookup, insert}
use voice_backend.Arbiter.{new_arbiter, start, decide_all, decide, mark_all, losers}
use voice_backend.Arbiter.Laws.{count_new, start-decide_all}

abbrev asked : List Text
asked = text "a" ∷ text "b" ∷ text "c" ∷ []

abbrev callers : List Text
callers = text "x" ∷ text "b" ∷ text "a" ∷ []

losers_run : losers (decide_all callers (start asked new_arbiter)).0 ≡ text "a" ∷ text "c" ∷ []
unfolding losers decide_all decide start mark_all new_arbiter lookup insert Text-discrete
losers_run = refl

start-decide_all_example :
    ((decide_all callers (start asked new_arbiter)).0.winner ≡ text "b")
    × (count_new (decide_all callers (start asked new_arbiter)).1 ≡ 1)
unfolding Text-discrete
start-decide_all_example = start-decide_all asked callers new_arbiter refl
