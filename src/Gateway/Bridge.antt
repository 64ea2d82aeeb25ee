-- ===== src/Gateway/Bridge.antt =====
-- internal/gateway/bridge.go: the hub that knows which agents are connected and which sessions are
-- subscribed. A method holds the mutex, so it is one step. A connection and a context are numbered;
-- whether a connection is online (`IsOnline`) is a test that is handed to the step. The goroutines that the
-- bridge spawns are listed with the context that ends them. The response handler is the method of one
-- session, so it is named by the session's id. Redis is not modelled: a published text is what a receiver
-- is handed. Instants are nanoseconds.
pub mod Agents
pub mod Subscriptions
pub mod Handler
mod Tests
use voice_backend.Common.{
  ℕ, ◌+◌, Text, Bool, true, false, not, ◌||◌, ◌&&◌, List, [], ◌∷◌, ◌++◌, Option, none, some, ◌==◌,
  ◌=ℕ◌, leb, ltb, length, if◌then◌else◌, text,
}
use voice_backend.Common.Map.{lookup, insert, delete}

pub record SessionSub : Type 0 where
  pub context : ℕ
  pub created_at : ℕ

-- `subscribeToAgentRequests` and `subscribeToSessionResponses`, with their contexts.
pub data Receiver : Type 0 where
  requests : ℕ → Text → ℕ → Receiver
  responses : ℕ → Text → Receiver

pub record Bridge : Type 0 where
  pub agent_conns : List (Text × ℕ)
  pub agent_cancels : List (Text × ℕ)
  pub session_subs : List (Text × SessionSub)
  pub response_handler : Option Text
  pub contexts : ℕ  -- how many contexts were made
  pub cancelled : List ℕ
  pub receivers : List Receiver
  pub closed : Bool  -- the context of the bridge is cancelled, and with it all others

abbrev pub max_session_subs : ℕ
max_session_subs = 10_000

-- 30 minutes.
abbrev pub session_sub_ttl : ℕ
session_sub_ttl = 1_800_000_000_000

unfoldable pub new_bridge : Bridge
new_bridge = record {
  agent_conns = [];
  agent_cancels = [];
  session_subs = [];
  response_handler = none;
  contexts = 0;
  cancelled = [];
  receivers = [];
  closed = false;
}

-- `cancel()` where the map has one.
abbrev pub cancel_of : Option ℕ → List ℕ → List ℕ
cancel_of none cs = cs
cancel_of (some c) cs = c ∷ cs

abbrev pub sub_context : Option SessionSub → Option ℕ
sub_context none = none
sub_context (some sub) = some sub.context

unfoldable pub set_response_handler : Text → Bridge → Bridge
set_response_handler sid b = record b { response_handler = some sid }

-- A connection of the map that is online.
abbrev pub is_online_conn : (ℕ → Bool) → Option ℕ → Bool
is_online_conn online none = false
is_online_conn online (some conn) = online conn

-- `false` is `ErrAgentAlreadyConnected`.
unfoldable pub register_agent : (ℕ → Bool) → Text → ℕ → Bridge → Bridge × Bool
register_agent online id conn b =
    if is_online_conn online (lookup id b.agent_conns) then (b, false) else (
      record b {
        agent_conns = insert id conn b.agent_conns;
        agent_cancels = insert id b.contexts b.agent_cancels;
        cancelled = cancel_of (lookup id b.agent_cancels) b.cancelled;
        contexts = b.contexts + 1;
        receivers = requests b.contexts id conn ∷ b.receivers;
      },
      true,
    )

unfoldable pub unregister_agent : Text → Bridge → Bridge
unregister_agent id b = record b {
  agent_conns = delete id b.agent_conns;
  agent_cancels = delete id b.agent_cancels;
  cancelled = cancel_of (lookup id b.agent_cancels) b.cancelled;
}

unfoldable pub get_agent : (ℕ → Bool) → Text → Bridge → Option ℕ
get_agent online id b =
    if is_online_conn online (lookup id b.agent_conns) then lookup id b.agent_conns else none

-- `ListAgents` and `AgentCount`, in the order in which the map is visited.
unfoldable pub list_agents : (ℕ → Bool) → List (Text × ℕ) → List Text
list_agents online [] = []
list_agents online (e ∷ conns) =
    let rest = list_agents online conns in if online e.1 then e.0 ∷ rest else rest

unfoldable pub online_from : (ℕ → Bool) → List (Text × ℕ) → ℕ
online_from online [] = 0
online_from online (e ∷ conns) =
    let rest = online_from online conns in if online e.1 then rest + 1 else rest

unfoldable pub agent_count : (ℕ → Bool) → Bridge → ℕ × ℕ
unfolding online_from
agent_count online b = (length b.agent_conns, online_from online b.agent_conns)

abbrev pub has : Option SessionSub → Bool
has none = false
has (some sub) = true

-- `false` is the error that too many sessions are subscribed.
unfoldable pub subscribe_to_session : ℕ → Text → Bridge → Bridge × Bool
subscribe_to_session now sid b =
    let sub : SessionSub = record { context = b.contexts; created_at = now } in
    if has (lookup sid b.session_subs)
    then (b, true)
    else if leb max_session_subs (length b.session_subs)
    then (b, false)
    else (
      record b {
        session_subs = insert sid sub b.session_subs;
        contexts = b.contexts + 1;
        receivers = responses b.contexts sid ∷ b.receivers;
      },
      true,
    )

unfoldable pub unsubscribe_from_session : Text → Bridge → Bridge
unsubscribe_from_session sid b = record b {
  session_subs = delete sid b.session_subs;
  cancelled = cancel_of (sub_context (lookup sid b.session_subs)) b.cancelled;
}

unfoldable pub refresh_subscription : ℕ → Text → Bridge → Bridge
refresh_subscription now sid b = elim (lookup sid b.session_subs) [
  | none ↦ b
  | some sub ↦ record b {
    session_subs = insert sid (record sub { created_at = now }) b.session_subs;
  }
]

-- `now.Sub(sub.createdAt) > sessionSubTTL`.
abbrev pub is_stale : ℕ → SessionSub → Bool
is_stale now sub = ltb (sub.created_at + session_sub_ttl) now

unfoldable pub stale_ids : ℕ → List (Text × SessionSub) → List Text
stale_ids now [] = []
stale_ids now (e ∷ subs) =
    let rest = stale_ids now subs in if is_stale now e.1 then e.0 ∷ rest else rest

-- The second loop of `cleanupStaleSessions`.
unfoldable pub drop_sessions : List Text → Bridge → Bridge
unfolding unsubscribe_from_session
drop_sessions [] b = b
drop_sessions (sid ∷ stale) b = drop_sessions stale (unsubscribe_from_session sid b)

unfoldable pub cleanup_stale_sessions : ℕ → Bridge → Bridge
unfolding stale_ids drop_sessions
cleanup_stale_sessions now b = drop_sessions (stale_ids now b.session_subs) b

unfoldable pub session_sub_count : Bridge → ℕ
session_sub_count b = length b.session_subs

abbrev contexts_of : List (Text × ℕ) → List ℕ → List ℕ
contexts_of [] cs = cs
contexts_of (e ∷ m) cs = e.1 ∷ contexts_of m cs

unfoldable pub close : Bridge → Bridge
close b = record b {
  closed = true;
  agent_conns = [];
  agent_cancels = [];
  session_subs = [];
  cancelled = contexts_of b.agent_cancels b.cancelled;
}

-- The deferred call of `subscribeToSessionResponses`, when its goroutine returns.
unfoldable pub receiver_returns : Text → Bridge → Bridge
receiver_returns sid b = record b { session_subs = delete sid b.session_subs }

-- What a receiver of a session hands a message to: the session whose handler is called, if its
-- `onAgentResponse` does not drop it because of the session's id.
unfoldable pub handled_by : Text → Bridge → Option Text
handled_by sid b = elim b.response_handler [
  | none ↦ none
  | some owner ↦ if sid == owner then some owner else none
]

-- What `voicesession.New` does to the bridge that all sessions share.
unfoldable pub open_session : ℕ → Text → Bridge → Bridge × Bool
unfolding set_response_handler subscribe_to_session
open_session now sid b = subscribe_to_session now sid (set_response_handler sid b)

-- One call of a method, or the return of a receiver.
pub data Operation : Type 0 where
  registered : Text → ℕ → Operation
  unregistered : Text → Operation
  opened : ℕ → Text → Operation
  unsubscribed : Text → Operation
  refreshed : ℕ → Text → Operation
  cleaned : ℕ → Operation
  receiver_returned : Text → Operation
  shut : Operation

-- `online` may differ from step to step.
unfoldable pub apply : (ℕ → Bool) → Operation → Bridge → Bridge
unfolding register_agent unregister_agent open_session unsubscribe_from_session refresh_subscription
    cleanup_stale_sessions receiver_returns close
apply online (registered id conn) b = (register_agent online id conn b).0
apply online (unregistered id) b = unregister_agent id b
apply online (opened now sid) b = (open_session now sid b).0
apply online (unsubscribed sid) b = unsubscribe_from_session sid b
apply online (refreshed now sid) b = refresh_subscription now sid b
apply online (cleaned now) b = cleanup_stale_sessions now b
apply online (receiver_returned sid) b = receiver_returns sid b
apply online shut b = close b

unfoldable pub apply_all : List ((ℕ → Bool) × Operation) → Bridge → Bridge
unfolding apply
apply_all [] b = b
apply_all (o ∷ ops) b = apply_all ops (apply o.0 o.1 b)
