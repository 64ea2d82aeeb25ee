-- ===== src/Catalog/Tests.antt =====
-- A small catalogue, and the theorems at it.
use voice_backend.Common.{
  ◌≡◌, ◌⊎◌, refl, Text, text, Bool, true, false, [], ◌∷◌, none, some, ◌==◌, arith, ℕ,
}
use voice_backend.Catalog.{Agent, AgentInstall, Database, Statement, handle_owner, publish}
use voice_backend.Catalog.Installs.{installation, serve}
use voice_backend.Catalog.Counters.{serve-IsCounted}
use voice_backend.Catalog.Counted.{IsCounted}
use voice_backend.Catalog.Access.{Owns, OnlyOf, handle_owner-Access}

abbrev works : Statement → Bool
works s = false

abbrev agent : Text → ℕ → Agent
agent id installs = record {
  id = id;
  developer_id = text "dev";
  name = id;
  description = [];
  logo_url = [];
  keywords = [];
  capabilities = [];
  category = text "assistant";
  is_public = true;
  is_verified = false;
  total_installs = installs;
  active_installs = installs;
  total_reviews = 0;
}

abbrev installed : Text → AgentInstall
installed id = record { id = id; user_id = text "u"; agent_id = id; granted_scopes = [] }

-- The user "u" has both agents and has reviewed the first one.
abbrev shop : Database
shop = record {
  agents = agent (text "a") 1 ∷ agent (text "b") 1 ∷ [];
  installs = installed (text "a") ∷ installed (text "b") ∷ [];
  reviews =
      record {
        id = text "r";
        agent_id = text "a";
        user_id = text "u";
        rating = 5;
        body = [];
        developer_reply = none;
      }
      ∷ [];
}

abbrev empty : Database
empty = record { agents = agent (text "a") 0 ∷ []; installs = []; reviews = [] }

empty-IsCounted : IsCounted empty
empty-IsCounted = record { unique = λ u a. omega arith; counted = (refl, tt) }

serve-IsCounted_example :
    IsCounted (serve works [] (installation (text "u") (text "a") (text "i") (some [])) empty).0
serve-IsCounted_example =
    serve-IsCounted works [] (installation (text "u") (text "a") (text "i") (some [])) empty refl
      refl tt empty-IsCounted

handle_owner-Access_example :
    let r =
      handle_owner works (some (text "eve")) ((text "eve", true) ∷ []) (text "a") publish shop in
    ((r.0 ≡ shop)
      ⊎ ((a : Agent) × Owns ((text "eve", true) ∷ []) (some (text "eve")) (text "a") shop a))
    × OnlyOf (text "a") shop r.0
    × ((r.1.code == []) ≡ false → r.0 ≡ shop)
handle_owner-Access_example =
    handle_owner-Access works ((text "eve", true) ∷ []) (some (text "eve")) (text "a") publish shop
