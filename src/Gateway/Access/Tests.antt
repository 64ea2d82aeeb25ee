-- ===== src/Gateway/Access/Tests.antt =====
-- A limiter that allows two requests, one key of an agent, and the theorems at them.
use voice_backend.Common.{
  ℕ, ◌-◌, ◌≡◌, refl, Text, text, Text-discrete, Bool, true, false, List, [], ◌∷◌, Option, none,
  some, take, ltb, ◌==◌,
}
use voice_backend.Common.Map.{lookup, insert}
use voice_backend.ApiKey.{ApiKey, agent_owner, validate}
use voice_backend.Gateway.Access.{
  Request, Message, response_delta_type, limit, post_event, requested, cleaned_up, LimiterEvent,
  answers,
}
use voice_backend.Gateway.Access.Origin.{IsAgentKey, post_event-origin}
use voice_backend.Gateway.Access.Limits.{alone, answers-alone, text_event}

-- A limiter is the number of requests that are left.
abbrev allow_two : ℕ → ℕ → ℕ × Bool
allow_two now n = (n - 1, ltb 0 n)

abbrev same_text : Text → Text
same_text s = s

abbrev secret : Text
secret = text "sk-voice-0123456789"

abbrev key : ApiKey
key = record {
  id = text "key";
  owner_id = text "chef";
  owner_type = agent_owner;
  name = [];
  prefix = take 12 secret;
  secret_hash = secret;
  expires_at = none;
}

abbrev request : Request
request = record {
  authorization = text "Bearer sk-voice-0123456789";
  api_key_parameter = [];
  real_ip = text "10.0.0.1";
}

-- The body claims to come from another agent.
abbrev body : Message
body = text_event response_delta_type (text "delta") (text "s") (text "other") (text "Hi")

abbrev reply : List (Text × ℕ) × ℕ × Option Message
unfolding post_event lookup insert
reply = post_event 2 allow_two same_text 5 (key ∷ []) [] request (some body)

abbrev published_one : Message
published_one = text_event response_delta_type (text "delta") (text "s") (text "chef") (text "Hi")

post_event-origin_example :
    (k : ApiKey) × IsAgentKey same_text 5 (key ∷ []) request k
    × ((limit 2 allow_two 5 k.owner_id []).1 ≡ true)
    × (published_one.agent_id ≡ k.owner_id)
    × ((published_one.session_id == []) ≡ false)
    × ((post_event 2 allow_two same_text 5 (key ∷ []) [] request (some body)).1 ≡ 202)
unfolding post_event validate lookup insert Text-discrete
post_event-origin_example =
    post_event-origin 2 allow_two same_text 5 (key ∷ []) [] request (some body)
      {msg = published_one} refl

abbrev events : List (LimiterEvent 2 allow_two)
events =
    requested 1 (text "a")
    ∷ requested 2 (text "b")
    ∷ requested 3 (text "a")
    ∷ requested 4 (text "a")
    ∷ cleaned_up
    ∷ requested 5 (text "a")
    ∷ []

answers-alone_example :
    answers 2 allow_two (text "a") [] events ≡ alone 2 allow_two (text "a") none events
answers-alone_example = answers-alone 2 allow_two (text "a") events

answers-run : answers 2 allow_two (text "a") [] events ≡ true ∷ true ∷ false ∷ true ∷ []
unfolding answers lookup insert Text-discrete
answers-run = refl
