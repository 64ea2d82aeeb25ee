-- ===== src/Arbiter/Laws.antt =====
-- First come, first served: who wins an arbitration, who loses it, and when it is over.
use voice_backend.Common.{
  ℕ, ◌+◌, ◌≡◌, ◌≢◌, inl, inr, refl, Text, Bool, true, false, not, ◌||◌, ◌&&◌, List, [], ◌∷◌, ◌==◌,
  contains, if◌then◌else◌, arith, contains-filter, Bool-cases, ◌∙◌,
}
use voice_backend.Common.Map.{lookup, insert, keys, lookup-insert, contains-keys}
use voice_backend.Arbiter.{Arbiter, Decision, flag, mark_all, start, decide, losers, decide_all}

mark_all-flag :
    (ids : List Text) (m : List (Text × Bool)) (id : Text)
    → flag (lookup id (mark_all ids m)) ≡ contains ids id || flag (lookup id m)
unfolding mark_all
mark_all-flag [] m id = refl
mark_all-flag (x ∷ ids) m id =
    ground (arith, mark_all-flag ids (insert x true m) id, lookup-insert x id true m)

mark_all-keys :
    (ids : List Text) (m : List (Text × Bool)) (id : Text)
    → contains (keys (mark_all ids m)) id ≡ contains ids id || contains (keys m) id
unfolding mark_all
mark_all-keys [] m id = refl
mark_all-keys (x ∷ ids) m id = ground (
  arith,
  mark_all-keys ids (insert x true m) id,
  lookup-insert x id true m,
  contains-keys id m,
  contains-keys id (insert x true m),
)

-- The first of the callers that was asked, or the empty text.
abbrev pub first_asked : List Text → List Text → Text
first_asked ids [] = []
first_asked ids (x ∷ xs) = let rest = first_asked ids xs in if contains ids x then x else rest

-- How many of the decisions made a winner.
abbrev pub count_new : List Decision → ℕ
count_new [] = 0
count_new (d ∷ ds) = let rest = count_new ds in if d.is_new then rest + 1 else rest

-- An arbiter in the middle of an arbitration between `ids`.
pub record IsOpen (ids : List Text) (a : Arbiter) : Type 0 where
  pub running : a.started ≡ true
  pub asked : (id : Text) → flag (lookup id a.active) ≡ contains ids id

pub start-IsOpen : (ids : List Text) (a : Arbiter) → IsOpen ids (start ids a)
unfolding start lookup
start-IsOpen ids a = record {
  running = refl;
  asked = λ id. ground (arith, mark_all-flag ids [] id);
}

decide-IsOpen :
    (ids : List Text) (a : Arbiter) (id : Text) → IsOpen ids a → IsOpen ids (decide id a).0
unfolding decide
decide-IsOpen ids a id o = record {
  running = ground (arith, o.running);
  asked = λ x. ground (arith, o.asked x, o.running);
}

decide_won :
    (ids xs : List Text) (a : Arbiter)
    → a.winner ≢ []
    → ((decide_all xs a).0.winner ≡ a.winner) × (count_new (decide_all xs a).1 ≡ 0)
unfolding decide_all decide
decide_won ids [] a w = (refl, refl)
decide_won ids (x ∷ xs) a w = ground (arith, decide_won ids xs (decide x a).0)

decide_all-open :
    (ids xs : List Text) (a : Arbiter)
    → IsOpen ids a
    → contains ids [] ≡ false
    → a.winner ≡ []
    → ((decide_all xs a).0.winner ≡ first_asked ids xs)
      × (count_new (decide_all xs a).1 ≡ (if first_asked ids xs == [] then 0 else 1))
unfolding decide_all decide
decide_all-open ids [] a o n w = (w, ground arith)
decide_all-open ids (x ∷ xs) a o n w = elim (Bool-cases (contains ids x)) [
  | inl asked ↦
      let nonempty : x ≢ [] = λ e. ground (arith, asked, n) in
      ground (
        arith,
        asked,
        n,
        o.asked x,
        o.running,
        nonempty,
        decide_won ids xs (record a { winner = x }),
      )
  | inr other ↦ ground (arith, other, o.asked x, o.running, decide_all-open ids xs a o n w)
]

-- After a start with agents none of whom has the empty id, the first agent to call among those that
-- were asked wins, whatever order the calls come in; exactly one call is told that it made the
-- winner, or none if no asked agent called.
pub start-decide_all :
    (ids xs : List Text) (a : Arbiter)
    → contains ids [] ≡ false
    → ((decide_all xs (start ids a)).0.winner ≡ first_asked ids xs)
      × (count_new (decide_all xs (start ids a)).1 ≡ (if first_asked ids xs == [] then 0 else 1))
unfolding start
start-decide_all ids xs a n = decide_all-open ids xs (start ids a) (start-IsOpen ids a) n refl

decide-active : (id : Text) (a : Arbiter) → (decide id a).0.active ≡ a.active
unfolding decide
decide-active id a = ground arith

decide_all-active : (xs : List Text) (a : Arbiter) → (decide_all xs a).0.active ≡ a.active
unfolding decide_all
decide_all-active [] a = refl
decide_all-active (x ∷ xs) a = decide_all-active xs (decide x a).0 ∙ decide-active x a

start-keys :
    (ids : List Text) (a : Arbiter) (id : Text)
    → contains (keys (start ids a).active) id ≡ contains ids id
unfolding start
start-keys ids a id = ground (arith, mark_all-keys ids [] id)

-- Once some asked agent has called, the losers are exactly the other agents that were asked,
-- whatever order the map is visited in; before that there are none.
losers-contains :
    (ids xs : List Text) (a : Arbiter) (id : Text)
    → contains ids [] ≡ false
    → let w = first_asked ids xs in
      contains (losers (decide_all xs (start ids a)).0) id
      ≡ (if w == [] then false else contains ids id && not (id == w))
unfolding losers
losers-contains ids xs a id n =
    let b : Arbiter = (decide_all xs (start ids a)).0 in
    ground (
      arith,
      start-decide_all ids xs a,
      contains-filter (λ x. not (x == b.winner)) (keys b.active) id,
      decide_all-active xs (start ids a),
      start-keys ids a id,
    )
