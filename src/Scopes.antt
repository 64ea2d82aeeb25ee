-- ===== src/Scopes.antt =====
-- internal/voicesession/session.go: what of an utterance each agent is sent, by the scopes that the
-- user granted it; internal/transport/types.go: the payload. A pointer that may be nil is an
-- `Option`; the methods read the session's fields `agents` and `userCtx`, which are parameters.
pub mod Keys
pub mod Delivery
mod Tests
use voice_backend.Common.{
  ℕ, Text, Bool, true, false, not, ◌||◌, ◌&&◌, List, [], ◌∷◌, ◌++◌, Option, none, some, map, ◌==◌,
  ◌=ℕ◌, text, contains, filter, if◌then◌else◌,
}
use voice_backend.Common.Map.{append_at}
use voice_backend.Common.Sort.{sort}

-- The scopes of internal/shared/types.go that the payload depends on.
abbrev pub scope_profile : Text
scope_profile = text "profile"

abbrev pub scope_email : Text
scope_email = text "email"

abbrev pub scope_location : Text
scope_location = text "location"

abbrev pub scope_vision : Text
scope_vision = text "vision"

-- internal/router/types.go.
pub record AgentInfo : Type 0 where
  pub id : Text
  pub model : Text
  pub name : Text
  pub description : Text
  pub keywords : List Text
  pub capabilities : List Text
  pub examples : List Text
  pub granted_scopes : List Text

pub record UserContext : Type 0 where
  pub user_id : Text
  pub ip : Text
  pub name : Text
  pub email : Text

pub record UserInfo : Type 0 where
  pub name : Text
  pub email : Text
  pub ip : Text

pub record VisionContext : Type 0 where
  pub description : Text
  pub timestamp : ℕ
  pub available : Bool

pub record UtterancePayload : Type 0 where
  pub text : Text
  pub is_final : Bool
  pub user : Option UserInfo
  pub vision : Option VisionContext

unfoldable pub get_agent_scopes : List AgentInfo → Text → List Text
get_agent_scopes [] id = []
get_agent_scopes (a ∷ agents) id =
    if a.id == id then a.granted_scopes else get_agent_scopes agents id

abbrev pub relevant : List Text
relevant = scope_profile ∷ scope_email ∷ scope_location ∷ scope_vision ∷ []

unfoldable pub relevant_scopes : List Text → List Text
relevant_scopes scopes = filter (contains relevant) scopes

-- The loop of `scopeKey` behind its first round.
key_rest : List Text → Text
key_rest [] = []
key_rest (s ∷ scopes) = b',' ∷ (s ++ key_rest scopes)

unfoldable pub scope_key : List Text → Text
unfolding key_rest
scope_key [] = []
scope_key (s ∷ scopes) = s ++ key_rest scopes

-- The loop of `parseScopeKey`: `part` is `key[start:i]`.
unfoldable pub split_key : Text → Text → List Text
split_key part [] = part ∷ []
split_key part (c ∷ key) =
    let here = part ∷ split_key [] key in
    let on = split_key (part ++ c ∷ []) key in if c =ℕ b',' then here else on

unfoldable pub parse_scope_key : Text → List Text
unfolding split_key
parse_scope_key [] = []
parse_scope_key (c ∷ key) = split_key [] (c ∷ key)

-- `if user == nil { user = &UserInfo{} }`.
abbrev allocated : Option UserInfo → UserInfo
allocated none = record { name = []; email = []; ip = [] }
allocated (some u) = u

unfoldable pub build_user : UserContext → List Text → Option UserInfo
build_user ctx scopes =
    let with_name =
      if contains scopes scope_profile && not (ctx.name == [])
      then some (record (allocated none) { name = ctx.name })
      else none in
    let with_email =
      if contains scopes scope_email && not (ctx.email == [])
      then some (record (allocated with_name) { email = ctx.email })
      else with_name in
    if contains scopes scope_location && not (ctx.ip == [])
    then some (record (allocated with_email) { ip = ctx.ip })
    else with_email

-- `base.Vision` where it may be passed on.
abbrev pub shown {ℓ} : {A : Type ℓ} → Bool → Option A → Option A
shown true v = v
shown false v = none

unfoldable pub build_payload : Option UserContext → UtterancePayload → List Text → UtterancePayload
unfolding build_user
build_payload user_ctx base scopes =
    let payload : UtterancePayload = record {
      text = base.text;
      is_final = base.is_final;
      user = none;
      vision = shown (contains scopes scope_vision) base.vision;
    } in
    elim user_ctx [ none ↦ payload | some ctx ↦ record payload { user = build_user ctx scopes } ]

module _ (agents : List AgentInfo) where
  -- The key under which an agent is grouped.
  unfoldable pub agent_key : Text → Text
  unfolding get_agent_scopes relevant_scopes sort scope_key
  agent_key id = scope_key (sort (relevant_scopes (get_agent_scopes agents id)))

  unfoldable pub group_from : List Text → List (Text × List Text) → List (Text × List Text)
  unfolding agent_key append_at
  group_from [] groups = groups
  group_from (id ∷ ids) groups = group_from ids (append_at (agent_key id) id groups)

  unfoldable pub group_by_scopes : List Text → List (Text × List Text)
  unfolding group_from
  group_by_scopes ids = group_from ids []

  module _ (user_ctx : Option UserContext) (base : UtterancePayload) where
    -- The loop of `onTranscript` over the groups: each agent with the payload that it is sent.
    abbrev pub publish_group : Text × List Text → List (Text × UtterancePayload)
    publish_group (key, ids) =
        map (λ id. (id, build_payload user_ctx base (parse_scope_key key))) ids

    abbrev pub publish_all : List (Text × List Text) → List (Text × UtterancePayload)
    publish_all [] = []
    publish_all (g ∷ groups) = publish_group g ++ publish_all groups

    unfoldable pub deliveries : List Text → List (Text × UtterancePayload)
    unfolding group_by_scopes build_payload parse_scope_key
    deliveries ids = publish_all (group_by_scopes ids)
