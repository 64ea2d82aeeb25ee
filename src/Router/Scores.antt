-- ===== src/Router/Scores.antt =====
-- The scores that come out of the index are those that the agents' own texts give.
use voice_backend.Common.{
  ℕ, ◌+◌, ◌≡◌, refl, Text, true, false, List, [], ◌∷◌, ◌==◌, contains, if◌then◌else◌, arith,
  Bool-cases, inl, inr,
}
use voice_backend.Common.Map.{
  lookup, insert, or_nil, keys, IsDistinct, lookup-insert, contains-keys, insert-IsDistinct,
}
use voice_backend.Scopes.{AgentInfo}
use voice_backend.Router.{
  SmartRouter, TokenWeight, AgentMatch, index_from, index_agents, ids_of, or_zero, add_weights,
  score_tokens, positive_matches, score_from_index, match_ids,
}
use voice_backend.Router.Postings.{affinity_of, relevance, weight_sum, entry, entry-index_from}

lookup-add_weights :
    (valid : List Text) (id : Text) (tws : List TokenWeight) (scores : List (Text × ℕ))
    → or_zero (lookup id (add_weights valid tws scores))
      ≡ or_zero (lookup id scores) + (if contains valid id then weight_sum id tws else 0)
unfolding add_weights
lookup-add_weights valid id [] scores = ground arith
lookup-add_weights valid id (tw ∷ tws) scores =
    let old = or_zero (lookup tw.agent_id scores) in
    ground (
      arith,
      lookup-add_weights valid id tws scores,
      lookup-add_weights valid id tws (insert tw.agent_id (old + tw.weight) scores),
      lookup-insert tw.agent_id id (old + tw.weight) scores,
    )

-- The weight of an id under all tokens.
abbrev entries : Text → List Text → List (Text × List TokenWeight) → ℕ
entries id [] m = 0
entries id (t ∷ ts) m = entry id t m + entries id ts m

lookup-score_tokens :
    (m : List (Text × List TokenWeight)) (valid : List Text) (id : Text) (ts : List Text)
    (scores : List (Text × ℕ))
    → or_zero (lookup id (score_tokens m valid ts scores))
      ≡ or_zero (lookup id scores) + (if contains valid id then entries id ts m else 0)
unfolding score_tokens
lookup-score_tokens m valid id [] scores = ground arith
lookup-score_tokens m valid id (t ∷ ts) scores = ground (
  arith,
  lookup-score_tokens m valid id ts (add_weights valid (or_nil (lookup t m)) scores),
  lookup-add_weights valid id (or_nil (lookup t m)) scores,
)

entries-index_from :
    (id : Text) (agents : List AgentInfo) (ts : List Text)
    → entries id ts (index_from agents []) ≡ relevance id agents ts
unfolding lookup
entries-index_from id agents [] = refl
entries-index_from id agents (t ∷ ts) =
    omega (arith, entry-index_from id t agents [], entries-index_from id agents ts)

affinity_of_stranger :
    (id t : Text) (agents : List AgentInfo)
    → contains (ids_of agents) id ≡ false
    → affinity_of id agents t ≡ 0
affinity_of_stranger id t [] h = refl
affinity_of_stranger id t (a ∷ agents) h = ground (arith, affinity_of_stranger id t agents)

relevance_of_stranger :
    (id : Text) (agents : List AgentInfo) (ts : List Text)
    → contains (ids_of agents) id ≡ false
    → relevance id agents ts ≡ 0
relevance_of_stranger id agents [] h = refl
relevance_of_stranger id agents (t ∷ ts) h =
    omega (arith, affinity_of_stranger id t agents h, relevance_of_stranger id agents ts h)

-- The score of an id in a list of matches, 0 if it is in none.
abbrev pub score_of : Text → List AgentMatch → ℕ
score_of id [] = 0
score_of id (m ∷ ms) = let rest = score_of id ms in if m.id == id then m.score else rest

pub contains-positive_matches :
    (scores : List (Text × ℕ)) (id : Text)
    → contains (match_ids (positive_matches scores)) id ≡ true
    → contains (keys scores) id ≡ true
unfolding positive_matches
contains-positive_matches [] id h = h
contains-positive_matches (e ∷ scores) id h = ground (arith, contains-positive_matches scores id)

score_of-positive_matches :
    (scores : List (Text × ℕ)) (id : Text)
    → IsDistinct (keys scores)
    → score_of id (positive_matches scores) ≡ or_zero (lookup id scores)
unfolding positive_matches lookup
score_of-positive_matches [] id d = refl
score_of-positive_matches (e ∷ scores) id d =
    ground (arith, score_of-positive_matches scores id d.1, contains-keys id scores)

pub positive_matches-IsDistinct :
    (scores : List (Text × ℕ))
    → IsDistinct (keys scores)
    → IsDistinct (match_ids (positive_matches scores))
unfolding positive_matches
positive_matches-IsDistinct [] d = tt
positive_matches-IsDistinct (e ∷ scores) d =
    ground (arith, contains-positive_matches scores e.0, positive_matches-IsDistinct scores d.1)

add_weights-IsDistinct :
    (valid : List Text) (tws : List TokenWeight) (scores : List (Text × ℕ))
    → IsDistinct (keys scores)
    → IsDistinct (keys (add_weights valid tws scores))
unfolding add_weights
add_weights-IsDistinct valid [] scores d = d
add_weights-IsDistinct valid (tw ∷ tws) scores d =
    let n = or_zero (lookup tw.agent_id scores) + tw.weight in
    elim (Bool-cases (contains valid tw.agent_id)) [
      | inl known ↦ rw known (
          add_weights-IsDistinct valid tws (insert tw.agent_id n scores)
            (insert-IsDistinct tw.agent_id n scores d))
      | inr unknown ↦ rw unknown (add_weights-IsDistinct valid tws scores d)
    ]

pub score_tokens-IsDistinct :
    (m : List (Text × List TokenWeight)) (valid ts : List Text) (scores : List (Text × ℕ))
    → IsDistinct (keys scores)
    → IsDistinct (keys (score_tokens m valid ts scores))
unfolding score_tokens
score_tokens-IsDistinct m valid [] scores d = d
score_tokens-IsDistinct m valid (t ∷ ts) scores d =
    score_tokens-IsDistinct m valid ts (add_weights valid (or_nil (lookup t m)) scores)
      (add_weights-IsDistinct valid (or_nil (lookup t m)) scores d)

-- A router whose index was built from the agents gives each id, over all tokens of a request, the
-- score that the texts of the agents with that id give by themselves: 3 for each occurrence of the
-- token in a keyword, 2 in a capability, 1 in the description or an example. An id without a match
-- counts as score 0.
pub score_from_index-relevance :
    (r : SmartRouter) (agents : List AgentInfo) (tokens : List Text) (id : Text)
    → score_of id (score_from_index (index_agents agents r) tokens agents)
      ≡ relevance id agents tokens
unfolding score_from_index index_agents lookup
score_from_index-relevance r agents tokens id =
    let m = index_from agents [] in
    let valid = ids_of agents in
    ground (
      arith,
      score_of-positive_matches (score_tokens m valid tokens []) id
          (score_tokens-IsDistinct m valid tokens [] tt),
      lookup-score_tokens m valid id tokens [],
      entries-index_from id agents tokens,
      relevance_of_stranger id agents tokens,
    )
