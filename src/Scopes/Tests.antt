-- ===== src/Scopes/Tests.antt =====
-- Three agents with different grants, and the theorems at them.
use mathlib.Core.List.{Perm}
use voice_backend.Common.{
  ◌≡◌, refl, Text, text, Text-discrete, true, List, [], ◌∷◌, none, some, map,
}
use voice_backend.Scopes.{
  AgentInfo, UserContext, UtterancePayload, VisionContext, group_by_scopes, deliveries,
}
use voice_backend.Scopes.Delivery.{own, deliveries-perm}

abbrev agent : Text → List Text → AgentInfo
agent id granted = record {
  id = id;
  model = [];
  name = [];
  description = [];
  keywords = [];
  capabilities = [];
  examples = [];
  granted_scopes = granted;
}

abbrev agents : List AgentInfo
agents =
    agent (text "a") (text "vision" ∷ text "history" ∷ text "email" ∷ [])
    ∷ agent (text "b") []
    ∷ agent (text "c") (text "email" ∷ text "vision" ∷ [])
    ∷ []

abbrev user : UserContext
user = record {
  user_id = text "u";
  ip = text "10.0.0.1";
  name = text "Ann";
  email = text "ann@x.org";
}

abbrev view : VisionContext
view = record { description = text "a desk"; timestamp = 7; available = true }

abbrev utterance : UtterancePayload
utterance = record { text = text "hello"; is_final = true; user = none; vision = some view }

groups_run :
    group_by_scopes agents (text "a" ∷ text "b" ∷ text "c" ∷ [])
    ≡ (text "email,vision", text "a" ∷ text "c" ∷ []) ∷ (text "", text "b" ∷ []) ∷ []
unfolding group_by_scopes Text-discrete
groups_run = refl

deliveries-perm_example :
    Perm
      (deliveries agents (some user) utterance (text "b" ∷ text "a" ∷ []))
      (map (own agents (some user) utterance) (text "b" ∷ text "a" ∷ []))
deliveries-perm_example = deliveries-perm agents (some user) utterance (text "b" ∷ text "a" ∷ [])
