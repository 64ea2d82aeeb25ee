-- ===== src/Arbiter.antt =====
-- internal/voicesession/arbiter.go: which of the agents that were asked may answer. Every method
-- holds the mutex for its whole body, so it is one step; a method that mutates the arbiter returns
-- the new record.
pub mod Laws
mod Tests
use voice_backend.Common.{
  Text, Bool, true, false, not, ◌||◌, ◌&&◌, List, [], ◌∷◌, Option, none, some, ◌==◌, filter,
  if◌then◌else◌,
}
use voice_backend.Common.Map
use voice_backend.Common.Map.{insert, lookup, keys}

pub record Arbiter : Type 0 where
  pub active : List (Text × Bool)
  pub winner : Text
  pub started : Bool

unfoldable pub new_arbiter : Arbiter
new_arbiter = record { active = []; winner = []; started = false }

-- A missing key of a `map[string]bool` reads as false.
abbrev pub flag : Option Bool → Bool
flag none = false
flag (some b) = b

-- The loop of `Start`.
unfoldable pub mark_all : List Text → List (Text × Bool) → List (Text × Bool)
mark_all [] m = m
mark_all (id ∷ ids) m = mark_all ids (insert id true m)

unfoldable pub start : List Text → Arbiter → Arbiter
start ids a = record a { active = mark_all ids []; winner = []; started = true }

-- The answer of `Decide`: the winner, and whether this call made it one.
pub record Decision : Type 0 where
  pub winner : Text
  pub is_new : Bool

unfoldable pub decide : Text → Arbiter → Arbiter × Decision
decide id a =
    if not a.started || not (flag (lookup id a.active))
    then (a, record { winner = a.winner; is_new = false })
    else if not (a.winner == [])
    then (a, record { winner = a.winner; is_new = false })
    else (record a { winner = id }, record { winner = id; is_new = true })

unfoldable pub losers : Arbiter → List Text
losers a = if a.winner == [] then [] else filter (λ id. not (id == a.winner)) (keys a.active)

unfoldable pub reset : Arbiter → Arbiter
reset a = record { active = []; winner = []; started = false }

-- The decisions that a sequence of agents gets.
unfoldable pub decide_all : List Text → Arbiter → Arbiter × List Decision
decide_all [] a = (a, [])
decide_all (id ∷ ids) a = let (b, d) = decide id a in let (c, ds) = decide_all ids b in (c, d ∷ ds)
