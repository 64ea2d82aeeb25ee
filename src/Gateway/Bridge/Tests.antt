-- ===== src/Gateway/Bridge/Tests.antt =====
-- The theorems on the bridge at a short history of it.
use voice_backend.Common.{
  ◌≡◌, refl, text, Text-discrete, false, Bool, ℕ, List, [], ◌∷◌, none, some, All,
}
use voice_backend.Common.Map.{lookup, insert}
use voice_backend.Gateway.Bridge.{
  Bridge, Operation, registered, opened, apply_all, new_bridge, open_session, handled_by,
}
use voice_backend.Gateway.Bridge.Agents.{IsCurrent, apply_all-AllCurrent}
use voice_backend.Gateway.Bridge.Handler.{apply_all-handled_by}

abbrev nobody : ℕ → Bool
nobody conn = false

-- Two connections of one agent, and two sessions.
abbrev history : List ((ℕ → Bool) × Operation)
history =
    (nobody, registered (text "chef") 1)
    ∷ (nobody, opened 0 (text "s1"))
    ∷ (nobody, registered (text "chef") 2)
    ∷ (nobody, opened 5 (text "s2"))
    ∷ []

abbrev hub : Bridge
hub = apply_all history new_bridge

hub_run : (lookup (text "chef") hub.agent_conns ≡ some 2) × (hub.cancelled ≡ 0 ∷ [])
unfolding apply_all new_bridge lookup Text-discrete insert
hub_run = (refl, refl)

apply_all-AllCurrent_example : All (IsCurrent hub) hub.receivers
apply_all-AllCurrent_example = apply_all-AllCurrent history

-- The answers of the first session are dropped.
apply_all-handled_by_example :
    handled_by
      (text "s1")
      (apply_all ((nobody, opened 5 (text "s2")) ∷ []) (open_session 0 (text "s1") new_bridge).0)
    ≡ none
unfolding Text-discrete
apply_all-handled_by_example =
    apply_all-handled_by ((nobody, opened 5 (text "s2")) ∷ []) 0 (text "s1") new_bridge
