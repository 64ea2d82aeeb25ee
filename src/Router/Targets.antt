-- ===== src/Router/Targets.antt =====
-- To whom an utterance can go at all.
use voice_backend.Common.{
  ℕ, ◌+◌, ◌≡◌, refl, sym, ◌∙◌, Text, Bool, true, false, ◌||◌, List, [], ◌∷◌, some, ◌==◌, contains,
  if◌then◌else◌, arith, Bool-cases, Option-cases, ==_refl, ==→eq, subst, ◌⊎◌, inl, inr,
}
use voice_backend.Common.Map.{lookup, insert, or_nil, keys, IsDistinct, contains-keys-insert}
use voice_backend.Common.Int.{ℤ, negsuc}
use voice_backend.Scopes.{AgentInfo}
use voice_backend.Router.{
  SmartRouter, TokenWeight, HealthMetrics, ids_of, or_zero, add_weights, score_tokens,
  positive_matches, score_from_index, match_ids, sort_matches, best_from, select_best_by_health,
  select_by_health, route_indexed, route, tokenize, index_agents, is_nil,
}
use voice_backend.Router.Scores.{
  contains-positive_matches, positive_matches-IsDistinct, score_tokens-IsDistinct,
}
use voice_backend.Router.Ranking.{contains-sort_matches, sort_matches-IsDistinct}

-- Only ids of the list, and none of them twice.
pub record IsSelection (ids : List Text) (targets : List Text) : Type 0 where
  pub known : (x : Text) → contains targets x ≡ true → contains ids x ≡ true
  pub distinct : IsDistinct targets

add_weights-known :
    (valid : List Text) (tws : List TokenWeight) (scores : List (Text × ℕ)) (x : Text)
    → contains (keys (add_weights valid tws scores)) x ≡ true
    → (contains (keys scores) x || contains valid x) ≡ true
unfolding add_weights
add_weights-known valid [] scores x h = ground arith
add_weights-known valid (tw ∷ tws) scores x h =
    let n = or_zero (lookup tw.agent_id scores) + tw.weight in
    ground (
      arith,
      add_weights-known valid tws (insert tw.agent_id n scores) x,
      add_weights-known valid tws scores x,
      contains-keys-insert tw.agent_id x n scores,
    )

score_tokens-known :
    (m : List (Text × List TokenWeight)) (valid ts : List Text) (scores : List (Text × ℕ))
    (x : Text)
    → contains (keys (score_tokens m valid ts scores)) x ≡ true
    → (contains (keys scores) x || contains valid x) ≡ true
unfolding score_tokens
score_tokens-known m valid [] scores x h = ground arith
score_tokens-known m valid (t ∷ ts) scores x h = ground (
  arith,
  score_tokens-known m valid ts (add_weights valid (or_nil (lookup t m)) scores) x,
  add_weights-known valid (or_nil (lookup t m)) scores x,
)

module _ (health : List (Text × HealthMetrics)) where
  best_from-step :
      (a : AgentInfo) (agents : List AgentInfo) (b : Text) (l : ℤ)
      → (best_from health (a ∷ agents) b l ≡ best_from health agents b l)
        ⊎ ((k : ℤ) × (best_from health (a ∷ agents) b l ≡ best_from health agents a.id k))
  best_from-step a agents b l = elim (Option-cases (lookup a.id health)) [
    | inl e ↦ inl (unfold best_from in ground arith)
    | inr (h, e) ↦ elim (taken h e) [ inl p ↦ inl p | inr q ↦ inr (h.latency_ms, q) ]
  ]
    where
      taken :
          (h : HealthMetrics)
          → lookup a.id health ≡ some h
          → (best_from health (a ∷ agents) b l ≡ best_from health agents b l)
            ⊎ (best_from health (a ∷ agents) b l ≡ best_from health agents a.id h.latency_ms)
      taken h e = unfold best_from in ground arith

  best_from-known :
      (agents : List AgentInfo) (b : Text) (l : ℤ)
      → (best_from health agents b l ≡ b)
        ⊎ (contains (ids_of agents) (best_from health agents b l) ≡ true)
  best_from-known [] b l = inl (unfold best_from in refl)
  best_from-known (a ∷ agents) b l = elim (best_from-step a agents b l) [
    | inl p ↦ ground (arith, best_from-known agents b l)
    | inr (k, p) ↦ ground (arith, best_from-known agents a.id k)
  ]

or_false : (b : Bool) → (b || false) ≡ b
or_false true = refl
or_false false = refl

one-IsSelection : (ids : List Text) (x : Text) → contains ids x ≡ true → IsSelection ids (x ∷ [])
one-IsSelection ids x k = record {
  known = λ y h.
      subst (λ (z : Text). contains ids z ≡ true) (==→eq x y (sym (or_false (x == y)) ∙ h)) k;
  distinct = (refl, tt);
}

nonempty_known :
    {b : Bool} (best : Text) → (best ≡ []) ⊎ (b ≡ true) → (best == []) ≡ false → b ≡ true
nonempty_known best (inl p) e =
    cc (==_refl best, subst (λ (z : Text). (best == z) ≡ false) (sym p) e)
nonempty_known best (inr k) e = k

module _ (r : SmartRouter) (agents : List AgentInfo) where
  select_by_health-IsSelection : IsSelection (ids_of agents) (select_by_health r agents)
  unfolding select_by_health select_best_by_health
  select_by_health-IsSelection =
      let best = best_from r.health agents [] (negsuc 0) in
      elim (Bool-cases (best == [])) [
        | inl e ↦ rw e (record { known = λ x h. cc; distinct = tt })
        | inr e ↦ rw e (
            one-IsSelection (ids_of agents) best
              (nonempty_known best (best_from-known r.health agents [] (negsuc 0)) e))
      ]

  score_from_index-IsSelection :
      (tokens : List Text)
      → IsSelection
          (ids_of agents)
          (match_ids (sort_matches r.health (score_from_index r tokens agents)))
  unfolding score_from_index
  score_from_index-IsSelection tokens =
      let scores = score_tokens r.index (ids_of agents) tokens [] in
      record {
        known = λ x h. score_tokens-known r.index (ids_of agents) tokens [] x (
            contains-positive_matches scores x
              (sym (contains-sort_matches r.health (positive_matches scores) x) ∙ h));
        distinct = sort_matches-IsDistinct r.health (positive_matches scores) (
            positive_matches-IsDistinct scores
              (score_tokens-IsDistinct r.index (ids_of agents) tokens [] tt));
      }

  route_indexed-IsSelection :
      (request : Text) → IsSelection (ids_of agents) (route_indexed r request agents)
  unfolding route_indexed
  route_indexed-IsSelection request =
      let tokens = tokenize request in
      elim (Bool-cases (request == [])) [
        | inl e ↦ rw e select_by_health-IsSelection
        | inr e ↦ rw e (elim (Bool-cases (is_nil tokens)) [
          | inl n ↦ rw n select_by_health-IsSelection
          | inr n ↦ rw n (elim (Bool-cases (is_nil (score_from_index r tokens agents))) [
            | inl z ↦ rw z select_by_health-IsSelection
            | inr z ↦ rw z (score_from_index-IsSelection tokens)
          ])
        ])
      ]

-- Whatever the router has indexed before and whatever health it was told of, a request goes only to
-- agents of the list that is given with it, and to none of them twice.
pub route-IsSelection :
    (request : Text) (agents : List AgentInfo) (r : SmartRouter)
    → IsSelection (ids_of agents) (route request agents r).1
unfolding route
route-IsSelection request [] r = record { known = λ x h. cc; distinct = tt }
route-IsSelection request (a ∷ []) r = record { known = λ x h. h; distinct = (refl, tt) }
route-IsSelection request (a ∷ b ∷ agents) r =
    route_indexed-IsSelection (if is_nil r.index then index_agents (a ∷ b ∷ agents) r else r)
      (a ∷ b ∷ agents) request
