-- ===== src/Gateway/Access.antt =====
-- internal/gateway/auth.go and middleware.go: who may connect as an agent and how often it may post; and
-- what an agent's messages become: HandleEvent (internal/gateway/sse_handler.go) and readPump
-- (internal/gateway/ws_conn.go). The keys are those of ApiKey. A limiter of the package golang.org/x/time/rate
-- is a parameter: `fresh` is a new one and `allow` is its `Allow` at an instant. A body is what `Bind` or
-- `json.Unmarshal` reads, or `none`. That publishing to Redis may fail is only logged.
pub mod Origin
pub mod Limits
mod Tests
use voice_backend.Common.{
  ℕ, Text, text, Bool, true, false, not, ◌&&◌, ◌||◌, List, [], ◌∷◌, Option, none, some, ◌==◌, ◌=ℕ◌,
  if◌then◌else◌,
}
use voice_backend.Common.Map.{lookup, insert}
use voice_backend.ApiKey.{
  ApiKey, OwnerType, agent_owner, user_owner, Validation, valid, not_found, unauthorized, validate,
}

pub record Request : Type 0 where
  pub authorization : Text
  pub api_key_parameter : Text  -- `api_key` of the query
  pub real_ip : Text

-- `strings.CutPrefix`.
unfoldable pub cut_prefix : Text → Text → Option Text
cut_prefix [] s = some s
cut_prefix (c ∷ p) [] = none
cut_prefix (c ∷ p) (d ∷ s) = let rest = cut_prefix p s in if c =ℕ d then rest else none

abbrev pub or_text : Option Text → Text → Text
or_text none t = t
or_text (some s) t = s

unfoldable pub extract_api_key : Request → Text
unfolding cut_prefix
extract_api_key r = or_text (cut_prefix (text "Bearer ") r.authorization) r.api_key_parameter

pub data AccessError : Type 0 where
  not_agent_key agent_id_mismatch : AccessError

abbrev pub is_agent : OwnerType → Bool
is_agent agent_owner = true
is_agent user_owner = false

unfoldable pub validate_agent_access : ApiKey → Text → Option AccessError
validate_agent_access key agent_id =
    if not (is_agent key.owner_type)
    then some not_agent_key
    else if not (key.owner_id == agent_id)
    then some agent_id_mismatch
    else none

-- What the middleware does: it refuses with a status and a code, or calls the handler with the key.
pub data Access : Type 0 where
  refused : ℕ → Text → Access
  granted : ApiKey → Access

abbrev pub grant : Option AccessError → ApiKey → Access
grant none key = granted key
grant (some e) key = refused 403 (text "access_denied")

abbrev pub by_validation : Validation → Access
by_validation (valid key) = grant (validate_agent_access key key.owner_id) key
by_validation not_found = refused 401 (text "invalid_api_key")
by_validation unauthorized = refused 401 (text "invalid_api_key")

unfoldable pub api_key_auth : (Text → Text) → ℕ → List ApiKey → Request → Access
unfolding extract_api_key validate_agent_access
api_key_auth hash now keys r =
    if extract_api_key r == []
    then refused 401 (text "missing_api_key")
    else by_validation (validate hash now (extract_api_key r) keys)

-- The types of internal/transport/types.go that are read here.
abbrev pub response_type : Text
response_type = text "response"

abbrev pub response_delta_type : Text
response_delta_type = text "response.text.delta"

abbrev pub response_done_type : Text
response_done_type = text "response.text.done"

-- A payload is an object with its fields, of which the texts are read, or something else.
pub data Value : Type 0 where
  string_value : Text → Value
  other_value : Value

pub data Payload : Type 0 where
  object : List (Text × Value) → Payload
  other_payload : Payload

pub record Message : Type 0 where
  pub message_type : Text
  pub session_id : Text
  pub agent_id : Text
  pub payload : Payload

-- `v, _ := p[k].(string)`.
abbrev pub string_of : Option Value → Text
string_of none = []
string_of (some (string_value t)) = t
string_of (some other_value) = []

unfoldable pub text_field : Text → List (Text × Value) → Text
text_field k p = string_of (lookup k p)

-- `publishDelta` and `publishDone`: the message with one field.
unfoldable pub published : Text → Text → Text → Text → Text → Message
published kind session_id agent_id field value = record {
  message_type = kind;
  session_id = session_id;
  agent_id = agent_id;
  payload = object ((field, string_value value) ∷ []);
}

unfoldable pub event_delta : Text → Message → Payload → Option Message
unfolding published text_field
event_delta agent_id e other_payload = none
event_delta agent_id e (object p) =
    if not (text_field (text "delta") p == []) && not (e.session_id == [])
    then some (
        published response_delta_type e.session_id agent_id (text "delta")
          (text_field (text "delta") p))
    else none

unfoldable pub event_done : Text → Message → Payload → Option Message
unfolding published text_field
event_done agent_id e other_payload = none
event_done agent_id e (object p) =
    if not (e.session_id == [])
    then some (
        published response_done_type e.session_id agent_id (text "text")
          (text_field (text "text") p))
    else none

-- `HandleEvent`: the status of the answer, and what is published.
unfoldable pub handle_event : ApiKey → Option Message → ℕ × Option Message
unfolding event_delta event_done
handle_event key none = (400, none)
handle_event key (some e) =
    let agent_id = key.owner_id in
    (
      202,
      if e.message_type == response_delta_type
          then event_delta agent_id e e.payload
          else if e.message_type == response_done_type
          then event_done agent_id e e.payload
          else none,
    )

-- One round of `readPump`: the message that is published, if any.
unfoldable pub read_message : Text → Option Message → Option Message
read_message agent_id none = none
read_message agent_id (some m) =
    let msg : Message = record m { agent_id = agent_id } in
    if m.message_type == response_type
      || m.message_type == response_delta_type
      || m.message_type == response_done_type
    then if msg.session_id == [] then none else some msg
    else none

module _ {L : Type 0} (fresh : L) (allow : ℕ → L → L × Bool) where
  abbrev pub or_fresh : Option L → L
  or_fresh none = fresh
  or_fresh (some l) = l

  -- `getLimiter`, and `Allow` on what it finds: the limiters are shared by their addresses.
  unfoldable pub limit : ℕ → Text → List (Text × L) → List (Text × L) × Bool
  limit now key limiters =
      let after = allow now (or_fresh (lookup key limiters)) in
      (insert key after.0 limiters, after.1)

  -- A request that passes through the limiter, or a round of `cleanupLoop`.
  pub data LimiterEvent : Type 0 where
    requested : ℕ → Text → LimiterEvent
    cleaned_up : LimiterEvent

  -- The answers that the requests under one key get.
  unfoldable pub answers : Text → List (Text × L) → List LimiterEvent → List Bool
  unfolding limit
  answers k limiters [] = []
  answers k limiters (cleaned_up ∷ es) = answers k [] es
  answers k limiters (requested now j ∷ es) =
      let after = limit now j limiters in
      let rest = answers k after.0 es in if j == k then after.1 ∷ rest else rest

  -- The limiter of the owner and the handler, behind the check of the key.
  unfoldable pub by_access :
      ℕ → List (Text × L) → Option Message → Access → List (Text × L) × ℕ × Option Message
  unfolding limit handle_event
  by_access now limiters body (refused status code) = (limiters, status, none)
  by_access now limiters body (granted key) =
      let after = limit now key.owner_id limiters in
      let reply = handle_event key body in
      if after.1 then (after.0, reply.0, reply.1) else (after.0, 429, none)

  -- The route for an event: the limiters, the status of the answer, and what is published.
  unfoldable pub post_event :
      (Text → Text)
      → ℕ
      → List ApiKey
      → List (Text × L)
      → Request
      → Option Message
      → List (Text × L) × ℕ × Option Message
  unfolding api_key_auth by_access
  post_event hash now keys limiters r body =
      by_access now limiters body (api_key_auth hash now keys r)
