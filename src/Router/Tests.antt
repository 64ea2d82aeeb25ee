-- ===== src/Router/Tests.antt =====
-- Two agents, their index, and the theorems at them.
use voice_backend.Common.{◌≡◌, refl, Text, text, Text-discrete, true, List, [], ◌∷◌}
use voice_backend.Common.Map.{lookup}
use voice_backend.Common.Int.{pos}
use voice_backend.Scopes.{AgentInfo}
use voice_backend.Router.{
  HealthMetrics, AgentMatch, new_smart_router, set_health, index_agents, score_from_index, tokenize,
  route, ids_of,
}
use voice_backend.Router.Scores.{score_of, score_from_index-relevance}
use voice_backend.Router.Targets.{IsSelection, route-IsSelection}

abbrev agent : Text → List Text → Text → AgentInfo
agent id keywords description = record {
  id = id;
  model = [];
  name = [];
  description = description;
  keywords = keywords;
  capabilities = text "search" ∷ [];
  examples = [];
  granted_scopes = [];
}

abbrev agents : List AgentInfo
agents =
    agent (text "chef") (text "food" ∷ text "Recipes" ∷ []) (text "Cooks food, at home.")
    ∷ agent (text "pilot") (text "flight" ∷ []) (text "Books a flight")
    ∷ []

abbrev metrics : List (Text × HealthMetrics)
metrics =
    (text "chef", record { latency_ms = pos 90; healthy = true })
    ∷ (text "pilot", record { latency_ms = pos 40; healthy = true })
    ∷ []

abbrev request : Text
request = text "Search food: a FLIGHT!"

tokenize_run : tokenize request ≡ text "search" ∷ text "food" ∷ text "flight" ∷ []
unfolding tokenize
tokenize_run = refl

route_run :
    (route request agents (set_health metrics new_smart_router)).1 ≡ text "pilot" ∷ text "chef" ∷ []
unfolding route set_health new_smart_router lookup Text-discrete
route_run = refl

score_from_index-relevance_example :
    score_of (text "chef") (
      score_from_index
        (index_agents agents new_smart_router)
        (text "search" ∷ text "food" ∷ [])
        agents)
    ≡ 6
unfolding tokenize Text-discrete
score_from_index-relevance_example =
    score_from_index-relevance new_smart_router agents (text "search" ∷ text "food" ∷ [])
      (text "chef")

abbrev ties : List AgentMatch
ties = record { id = text "chef"; score = 4 } ∷ record { id = text "pilot"; score = 4 } ∷ []

route-IsSelection_example :
    IsSelection (ids_of agents) (route request agents (set_health metrics new_smart_router)).1
route-IsSelection_example = route-IsSelection request agents (set_health metrics new_smart_router)
