-- ===== src/Router/Ranking.antt =====
-- The order in which the agents are asked.
use voice_backend.Common.{
  ◌≡◌, refl, Text, true, false, ◌||◌, List, [], ◌∷◌, Option, none, some, ◌==◌, contains, arith, All,
  Bool-cases, inl, inr, ◌∙◌,
}
use voice_backend.Common.Map.{lookup, IsDistinct}
use voice_backend.Common.Int.{ℤ, pos, negsuc, less_ℤ}
use voice_backend.Router.{
  HealthMetrics, AgentMatch, healthier, ranks_before, insert_match, sort_matches, match_ids,
}

-- Nobody that stands later ranks before somebody that stands earlier.
abbrev pub IsRanked : List (Text × HealthMetrics) → List AgentMatch → Type 0
IsRanked health [] = Unit {0}
IsRanked health (a ∷ ms) = All (λ b. ranks_before health b a ≡ false) ms × IsRanked health ms

less_ℤ-trans : (a b c : ℤ) → less_ℤ b a ≡ false → less_ℤ c b ≡ false → less_ℤ c a ≡ false
less_ℤ-trans (pos a) (pos b) (pos c) h k = ground arith
less_ℤ-trans (negsuc a) (pos b) (pos c) h k = refl
less_ℤ-trans (pos a) (negsuc b) c h k = cc
less_ℤ-trans (negsuc a) (negsuc b) (pos c) h k = refl
less_ℤ-trans (negsuc a) (pos b) (negsuc c) h k = cc
less_ℤ-trans (pos a) (pos b) (negsuc c) h k = cc
less_ℤ-trans (negsuc a) (negsuc b) (negsuc c) h k = ground arith

healthier_trans :
    (a b c : Option HealthMetrics)
    → healthier b a ≡ false
    → healthier c b ≡ false
    → healthier c a ≡ false
healthier_trans a b none h k = refl
healthier_trans a none (some z) h k = cc
healthier_trans none (some y) (some z) h k = cc
healthier_trans (some x) (some y) (some z) h k =
    ground (arith, less_ℤ-trans x.latency_ms y.latency_ms z.latency_ms)

ranks_before_trans :
    (health : List (Text × HealthMetrics)) (a b c : AgentMatch)
    → ranks_before health b a ≡ false
    → ranks_before health c b ≡ false
    → ranks_before health c a ≡ false
unfolding ranks_before
ranks_before_trans health a b c h k =
    ground (arith, healthier_trans (lookup a.id health) (lookup b.id health) (lookup c.id health))

less_ℤ-asym : (a b : ℤ) → less_ℤ a b ≡ true → less_ℤ b a ≡ false
less_ℤ-asym (pos a) (pos b) h = ground arith
less_ℤ-asym (pos a) (negsuc b) h = cc
less_ℤ-asym (negsuc a) (pos b) h = refl
less_ℤ-asym (negsuc a) (negsuc b) h = ground arith

healthier-asym : (a b : Option HealthMetrics) → healthier a b ≡ true → healthier b a ≡ false
healthier-asym a none h = ground arith
healthier-asym none (some y) h = cc
healthier-asym (some x) (some y) h = ground (arith, less_ℤ-asym x.latency_ms y.latency_ms)

ranks_before-asym :
    (health : List (Text × HealthMetrics)) (a b : AgentMatch)
    → ranks_before health a b ≡ true
    → ranks_before health b a ≡ false
unfolding ranks_before
ranks_before-asym health a b h =
    ground (arith, healthier-asym (lookup a.id health) (lookup b.id health))

module _ (health : List (Text × HealthMetrics)) where
  abbrev Behind : AgentMatch → List AgentMatch → Type 0
  Behind a = All (λ b. ranks_before health b a ≡ false)

  Behind-trans :
      (a b : AgentMatch) (ms : List AgentMatch)
      → ranks_before health b a ≡ false
      → Behind b ms
      → Behind a ms
  Behind-trans a b [] h k = tt
  Behind-trans a b (c ∷ ms) h k = (ranks_before_trans health a b c h k.0, Behind-trans a b ms h k.1)

  insert_match-Behind :
      (a b : AgentMatch) (ms : List AgentMatch)
      → ranks_before health b a ≡ false
      → Behind a ms
      → Behind a (insert_match health b ms)
  unfolding insert_match
  insert_match-Behind a b [] h k = (h, tt)
  insert_match-Behind a b (c ∷ ms) h k = elim (Bool-cases (ranks_before health c b)) [
    | inl first ↦ rw first (k.0, insert_match-Behind a b ms h k.1)
    | inr later ↦ rw later (h, k)
  ]

  insert_match-IsRanked :
      (a : AgentMatch) (ms : List AgentMatch)
      → IsRanked health ms
      → IsRanked health (insert_match health a ms)
  unfolding insert_match
  insert_match-IsRanked a [] h = (tt, tt)
  insert_match-IsRanked a (b ∷ ms) h = elim (Bool-cases (ranks_before health b a)) [
    | inl first ↦ rw first (
      insert_match-Behind b a ms (ranks_before-asym health b a first) h.0,
      insert_match-IsRanked a ms h.1,
    )
    | inr later ↦ rw later ((later, Behind-trans a b ms later h.0), h)
  ]

  -- After the sort no agent stands behind one that ranks lower: more score comes first, and for
  -- equal scores what the health says, in whatever order the scores came from the map.
  sort_matches-IsRanked : (ms : List AgentMatch) → IsRanked health (sort_matches health ms)
  unfolding sort_matches
  sort_matches-IsRanked [] = tt
  sort_matches-IsRanked (a ∷ ms) =
      insert_match-IsRanked a (sort_matches health ms) (sort_matches-IsRanked ms)

  contains-insert_match :
      (a : AgentMatch) (ms : List AgentMatch) (x : Text)
      → contains (match_ids (insert_match health a ms)) x ≡ (a.id == x || contains (match_ids ms) x)
  unfolding insert_match
  contains-insert_match a [] x = refl
  contains-insert_match a (b ∷ ms) x = ground (arith, contains-insert_match a ms x)

  pub contains-sort_matches :
      (ms : List AgentMatch) (x : Text)
      → contains (match_ids (sort_matches health ms)) x ≡ contains (match_ids ms) x
  unfolding sort_matches
  contains-sort_matches [] x = refl
  contains-sort_matches (a ∷ ms) x =
      ground (arith, contains-insert_match a (sort_matches health ms) x, contains-sort_matches ms x)

  insert_match-IsDistinct :
      (a : AgentMatch) (ms : List AgentMatch)
      → contains (match_ids ms) a.id ≡ false
      → IsDistinct (match_ids ms)
      → IsDistinct (match_ids (insert_match health a ms))
  unfolding insert_match
  insert_match-IsDistinct a [] h d = (h, d)
  insert_match-IsDistinct a (b ∷ ms) h d =
      ground (arith, contains-insert_match a ms b.id, insert_match-IsDistinct a ms)

  pub sort_matches-IsDistinct :
      (ms : List AgentMatch)
      → IsDistinct (match_ids ms)
      → IsDistinct (match_ids (sort_matches health ms))
  unfolding sort_matches
  sort_matches-IsDistinct [] d = tt
  sort_matches-IsDistinct (a ∷ ms) d =
      insert_match-IsDistinct a (sort_matches health ms) (contains-sort_matches ms a.id ∙ d.0)
        (sort_matches-IsDistinct ms d.1)
