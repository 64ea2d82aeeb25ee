-- ===== src/Gateway/Access/Origin.antt =====
-- Whose messages the gateway publishes.
use voice_backend.Common.{
  ℕ, Text, text, ◌≡◌, inl, inr, refl, Bool, true, false, not, ◌&&◌, List, [], Option, none, some,
  ◌==◌, arith, Bool-cases,
}
use voice_backend.ApiKey.{
  ApiKey, OwnerType, agent_owner, user_owner, Validation, valid, not_found, unauthorized, validate,
}
use voice_backend.Gateway.Access.{
  Request, extract_api_key, validate_agent_access, is_agent, Access, refused, granted,
  by_validation, api_key_auth, Message, Payload, object, other_payload, response_delta_type,
  response_done_type, published, text_field, event_delta, event_done, handle_event, limit,
  by_access, post_event,
}

-- The key is valid for the text that the request carries, and it is the key of an agent.
abbrev pub IsAgentKey : (Text → Text) → ℕ → List ApiKey → Request → ApiKey → Type 0
IsAgentKey hash now keys r key =
    (validate hash now (extract_api_key r) keys ≡ valid key) × (key.owner_type ≡ agent_owner)

by_validation-granted :
    (v : Validation) {key : ApiKey}
    → by_validation v ≡ granted key
    → (v ≡ valid key) × (is_agent key.owner_type ≡ true)
unfolding validate_agent_access
by_validation-granted (valid k) h = ground (arith, h)
by_validation-granted not_found h = ground (arith, h)
by_validation-granted unauthorized h = ground (arith, h)

is_agent_lem : (o : OwnerType) → is_agent o ≡ true → o ≡ agent_owner
is_agent_lem agent_owner h = refl
is_agent_lem user_owner h = cc

auth-granted :
    (hash : Text → Text) (now : ℕ) (keys : List ApiKey) (r : Request) {key : ApiKey}
    → api_key_auth hash now keys r ≡ granted key
    → IsAgentKey hash now keys r key
unfolding api_key_auth
auth-granted hash now keys r {key} h = elim (Bool-cases (extract_api_key r == [])) [
  | inl e ↦ absurd (ground (arith, e, h))
  | inr e ↦
      let same : by_validation (validate hash now (extract_api_key r) keys) ≡ granted key =
        ground (arith, e, h) in
      let (v, o) = by_validation-granted _ same in (v, is_agent_lem key.owner_type o)
]

-- What a handler publishes carries the agent's id and a session.
abbrev Carries : Text → Option Message → Type 0
Carries agent_id none = Unit {0}
Carries agent_id (some msg) = (msg.agent_id ≡ agent_id) × ((msg.session_id == []) ≡ false)

event_delta-Carries :
    (agent_id : Text) (e : Message) (p : Payload) → Carries agent_id (event_delta agent_id e p)
unfolding event_delta published
event_delta-Carries agent_id e other_payload = tt
event_delta-Carries agent_id e (object p) =
    elim (Bool-cases (not (text_field (text "delta") p == []) && not (e.session_id == []))) [
      | inl h ↦ rw h (refl, ground (arith, h))
      | inr h ↦ rw h tt
    ]

event_done-Carries :
    (agent_id : Text) (e : Message) (p : Payload) → Carries agent_id (event_done agent_id e p)
unfolding event_done published
event_done-Carries agent_id e other_payload = tt
event_done-Carries agent_id e (object p) = elim (Bool-cases (e.session_id == [])) [
  | inl h ↦ rw h tt
  | inr h ↦ rw h (refl, h)
]

handle_event-Carries :
    (key : ApiKey) (body : Option Message) → Carries key.owner_id (handle_event key body).1
unfolding handle_event
handle_event-Carries key none = tt
handle_event-Carries key (some e) = elim (Bool-cases (e.message_type == response_delta_type)) [
  | inl d ↦ rw d (event_delta-Carries key.owner_id e e.payload)
  | inr d ↦ rw d (elim (Bool-cases (e.message_type == response_done_type)) [
    | inl n ↦ rw n (event_done-Carries key.owner_id e e.payload)
    | inr n ↦ rw n tt
  ])
]

-- An inversion of `Carries` at what is published.
carried :
    (agent_id : Text) (o : Option Message) {msg : Message}
    → Carries agent_id o
    → o ≡ some msg
    → (msg.agent_id ≡ agent_id) × ((msg.session_id == []) ≡ false)
carried agent_id none c e = absurd (ground (arith, e))
carried agent_id (some m) c e = ground (arith, c, e)

handle_event-status :
    (key : ApiKey) (body : Option Message) {msg : Message}
    → (handle_event key body).1 ≡ some msg
    → (handle_event key body).0 ≡ 202
unfolding handle_event
handle_event-status key none h = absurd (ground (arith, h))
handle_event-status key (some e) h = refl

module _ {L : Type 0} (fresh : L) (allow : ℕ → L → L × Bool) where
  by_access-origin :
      (now : ℕ) (limiters : List (Text × L)) (body : Option Message) (P : ApiKey → Type 0)
      (a : Access) {msg : Message}
      → ((key : ApiKey) → a ≡ granted key → P key)
      → let reply = by_access fresh allow now limiters body a in
        reply.2 ≡ some msg
        → (key : ApiKey) × P key
          × ((limit fresh allow now key.owner_id limiters).1 ≡ true)
          × (msg.agent_id ≡ key.owner_id)
          × ((msg.session_id == []) ≡ false)
          × (reply.1 ≡ 202)
  unfolding by_access
  by_access-origin now limiters body P (refused status code) keep h = absurd (ground (arith, h))
  by_access-origin now limiters body P (granted key) keep h =
      elim (Bool-cases (limit fresh allow now key.owner_id limiters).1) [
        | inl e ↦
            let same : (handle_event key body).1 ≡ some _ = rw e at h in
            let c = carried key.owner_id _ (handle_event-Carries key body) same in
            (key, keep key refl, e, c.0, c.1, rw e (handle_event-status key body same))
        | inr e ↦ absurd (ground (arith, h, e))
      ]

  -- If posting an event publishes a message, whatever the body claims: the text that the request carries is the valid key of an
  -- agent, whose limiter has allowed the request; the message is said to come from this agent and names
  -- a session; and the answer is 202.
  pub post_event-origin :
      (hash : Text → Text) (now : ℕ) (keys : List ApiKey) (limiters : List (Text × L)) (r : Request)
      (body : Option Message) {msg : Message}
      → (post_event fresh allow hash now keys limiters r body).2 ≡ some msg
      → (key : ApiKey) × IsAgentKey hash now keys r key
        × ((limit fresh allow now key.owner_id limiters).1 ≡ true)
        × (msg.agent_id ≡ key.owner_id)
        × ((msg.session_id == []) ≡ false)
        × ((post_event fresh allow hash now keys limiters r body).1 ≡ 202)
  unfolding post_event
  post_event-origin hash now keys limiters r body {msg} h =
      by_access-origin now limiters body (IsAgentKey hash now keys r) (api_key_auth hash now keys r)
        (λ key e. auth-granted hash now keys r e) h
