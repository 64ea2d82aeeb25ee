-- ===== src/Gateway/Bridge/Agents.antt =====
-- One live receiver for each connected agent, and what a connection that ends late does.
use voice_backend.Common.{
  ℕ, ◌+◌, ◌≡◌, ◌⊎◌, inl, inr, refl, sym, ap, subst, ◌∙◌, Text, Bool, true, false, ◌||◌, List, [],
  ◌∷◌, Option, none, some, ◌==◌, ◌=ℕ◌, arith, All, All-map, Bool-cases, ==→eq, leb, length,
}
use voice_backend.Common.Map.{lookup, insert, delete, lookup-insert, lookup-delete}
use voice_backend.Gateway.Bridge.{
  Bridge, Receiver, requests, responses, SessionSub, Operation, registered, unregistered, opened,
  unsubscribed, refreshed, cleaned, receiver_returned, shut, apply, apply_all, new_bridge,
  cancel_of, register_agent, unregister_agent, get_agent, drop_sessions, open_session,
  subscribe_to_session, unsubscribe_from_session, refresh_subscription, cleanup_stale_sessions,
  stale_ids, receiver_returns, close, is_online_conn, has, max_session_subs, sub_context,
  set_response_handler,
}

abbrev pub member : ℕ → List ℕ → Bool
member c [] = false
member c (d ∷ cs) = c =ℕ d || member c cs

-- The context is cancelled, by itself or with that of the bridge.
abbrev pub is_cancelled : Bridge → ℕ → Bool
is_cancelled b c = b.closed || member c b.cancelled

-- A receiver of an agent's requests that is not cancelled is the one of the agent's registered connection,
-- and it is the one that the next registration cancels.
abbrev pub IsCurrent : Bridge → Receiver → Type 0
IsCurrent b (requests c id conn) =
    (is_cancelled b c ≡ true)
    ⊎ ((lookup id b.agent_cancels ≡ some c) × (lookup id b.agent_conns ≡ some conn))
IsCurrent b (responses c sid) = Unit

-- `b'` has the agents of `b`, and no fewer cancelled contexts.
record IsLater (b b' : Bridge) : Type 0 where
  conns : b'.agent_conns ≡ b.agent_conns
  cancels : b'.agent_cancels ≡ b.agent_cancels
  ended : (c : ℕ) → is_cancelled b c ≡ true → is_cancelled b' c ≡ true

IsLater-IsCurrent : (b b' : Bridge) → IsLater b b' → (r : Receiver) → IsCurrent b r → IsCurrent b' r
IsLater-IsCurrent b b' l (requests c id conn) (inl e) = inl (l.ended c e)
IsLater-IsCurrent b b' l (requests c id conn) (inr (e, k)) =
    inr (ap (lookup id) l.cancels ∙ e, ap (lookup id) l.conns ∙ k)
IsLater-IsCurrent b b' l (responses c sid) u = tt

pub member-cancel_of :
    (o : Option ℕ) (cs : List ℕ) (c : ℕ) → member c cs ≡ true → member c (cancel_of o cs) ≡ true
member-cancel_of none cs c h = h
member-cancel_of (some d) cs c h = ground (arith, h)

-- What `RegisterAgent` and `UnregisterAgent` do to the receivers that are there, when the maps lose
-- or change the entry of one agent only, and its context is cancelled.
replaced-IsCurrent :
    (id : Text) (conns cancels : List (Text × ℕ)) (b : Bridge)
    → ((j : Text) → (id == j) ≡ false → lookup j cancels ≡ lookup j b.agent_cancels)
    → ((j : Text) → (id == j) ≡ false → lookup j conns ≡ lookup j b.agent_conns)
    → let b' : Bridge = record b {
      agent_conns = conns;
      agent_cancels = cancels;
      cancelled = cancel_of (lookup id b.agent_cancels) b.cancelled;
    } in
      (r : Receiver) → IsCurrent b r → IsCurrent b' r
replaced-IsCurrent id conns cancels b f g (requests c j k) (inl e) =
    inl (ground (arith, e, member-cancel_of (lookup id b.agent_cancels) b.cancelled c))
replaced-IsCurrent id conns cancels b f g (requests c j k) (inr (e, e2)) =
    elim (Bool-cases (id == j)) [
      | inl same ↦ inl (
          ground (
            arith,
            subst (λ (i : Text). lookup i b.agent_cancels ≡ some c) (sym (==→eq id j same)) e,
          ))
      | inr other ↦ inr (f j other ∙ e, g j other ∙ e2)
    ]
replaced-IsCurrent id conns cancels b f g (responses c sid) u = tt

register_agent-AllCurrent :
    (online : ℕ → Bool) (id : Text) (conn : ℕ) (b : Bridge)
    → All (IsCurrent b) b.receivers
    → let b' = (register_agent online id conn b).0 in All (IsCurrent b') b'.receivers
unfolding register_agent
register_agent-AllCurrent online id conn b h =
    elim (Bool-cases (is_online_conn online (lookup id b.agent_conns))) [
      | inl e ↦ rw e h
      | inr e ↦ rw e (
        inr (
          ground (arith, lookup-insert id id b.contexts b.agent_cancels),
          ground (arith, lookup-insert id id conn b.agent_conns),
        ),
        All-map
            (replaced-IsCurrent id (insert id conn b.agent_conns)
              (insert id b.contexts b.agent_cancels) b
              (λ j n. ground (arith, n, lookup-insert id j b.contexts b.agent_cancels))
              (λ j n. ground (arith, n, lookup-insert id j conn b.agent_conns)))
            b.receivers h,
      )
    ]

unregister_agent-AllCurrent :
    (id : Text) (b : Bridge)
    → All (IsCurrent b) b.receivers
    → let b' = unregister_agent id b in All (IsCurrent b') b'.receivers
unfolding unregister_agent
unregister_agent-AllCurrent id b h =
    All-map
      (replaced-IsCurrent id (delete id b.agent_conns) (delete id b.agent_cancels) b
        (λ j n. ground (arith, n, lookup-delete id j b.agent_cancels))
        (λ j n. ground (arith, n, lookup-delete id j b.agent_conns)))
      b.receivers h

drop_sessions-IsLater :
    (stale : List Text) (b : Bridge)
    → IsLater b (drop_sessions stale b) × ((drop_sessions stale b).receivers ≡ b.receivers)
unfolding drop_sessions unsubscribe_from_session
drop_sessions-IsLater [] b = (record { conns = refl; cancels = refl; ended = λ c e. e }, refl)
drop_sessions-IsLater (sid ∷ stale) b =
    let b1 = unsubscribe_from_session sid b in
    let (l, r) = drop_sessions-IsLater stale b1 in
    (
      record {
        conns = l.conns;
        cancels = l.cancels;
        ended = λ c e. l.ended c (
            ground
              (arith, e, member-cancel_of (sub_context (lookup sid b.session_subs)) b.cancelled c));
      },
      r,
    )

later-AllCurrent :
    (b b' : Bridge)
    → IsLater b b'
    → b'.receivers ≡ b.receivers
    → All (IsCurrent b) b.receivers
    → All (IsCurrent b') b'.receivers
later-AllCurrent b b' l e h =
    subst (All (IsCurrent b')) (sym e) (All-map (IsLater-IsCurrent b b' l) b.receivers h)

-- The steps that leave the agents alone.
untouched-AllCurrent :
    (handler : Option Text) (subs : List (Text × SessionSub)) (n : ℕ) (b : Bridge)
    → All (IsCurrent b) b.receivers
    → All
        (IsCurrent (record b { response_handler = handler; session_subs = subs; contexts = n }))
        b.receivers
untouched-AllCurrent handler subs n b h =
    later-AllCurrent b (record b { response_handler = handler; session_subs = subs; contexts = n })
      (record { conns = refl; cancels = refl; ended = λ c e. e }) refl h

open_session-AllCurrent :
    (now : ℕ) (sid : Text) (b : Bridge)
    → All (IsCurrent b) b.receivers
    → let b' = (open_session now sid b).0 in All (IsCurrent b') b'.receivers
unfolding open_session subscribe_to_session set_response_handler
open_session-AllCurrent now sid b h = elim (Bool-cases (has (lookup sid b.session_subs))) [
  | inl e ↦ rw e (untouched-AllCurrent (some sid) b.session_subs b.contexts b h)
  | inr e ↦ rw e (elim (Bool-cases (leb max_session_subs (length b.session_subs))) [
    | inl k ↦ rw k (untouched-AllCurrent (some sid) b.session_subs b.contexts b h)
    | inr k ↦ rw k (
      tt,
      untouched-AllCurrent (some sid)
          (insert sid (record { context = b.contexts; created_at = now }) b.session_subs)
          (b.contexts + 1) b h,
    )
  ])
]

refresh_lem :
    (now : ℕ) (sid : Text) (b : Bridge)
    → let b' = refresh_subscription now sid b in b' ≡ record b { session_subs = b'.session_subs }
unfolding refresh_subscription
refresh_lem now sid b = ground arith

refresh-AllCurrent :
    (now : ℕ) (sid : Text) (b : Bridge)
    → All (IsCurrent b) b.receivers
    → let b' = refresh_subscription now sid b in All (IsCurrent b') b'.receivers
refresh-AllCurrent now sid b h =
    subst (λ (c : Bridge). All (IsCurrent c) c.receivers) (sym (refresh_lem now sid b))
      (untouched-AllCurrent b.response_handler (refresh_subscription now sid b).session_subs
        b.contexts b h)

close-IsCurrent : (b : Bridge) (r : Receiver) → IsCurrent b r → IsCurrent (close b) r
unfolding close
close-IsCurrent b (requests c id conn) h = inl refl
close-IsCurrent b (responses c sid) h = tt

apply-AllCurrent :
    (online : ℕ → Bool) (o : Operation) (b : Bridge)
    → All (IsCurrent b) b.receivers
    → All (IsCurrent (apply online o b)) (apply online o b).receivers
unfolding apply open_session subscribe_to_session unsubscribe_from_session refresh_subscription
    cleanup_stale_sessions receiver_returns close set_response_handler
apply-AllCurrent online (registered id conn) b h = register_agent-AllCurrent online id conn b h
apply-AllCurrent online (unregistered id) b h = unregister_agent-AllCurrent id b h
apply-AllCurrent online (opened now sid) b h = open_session-AllCurrent now sid b h
apply-AllCurrent online (unsubscribed sid) b h =
    let (l, r) = drop_sessions-IsLater (sid ∷ []) b in later-AllCurrent b _ l r h
apply-AllCurrent online (refreshed now sid) b h = refresh-AllCurrent now sid b h
apply-AllCurrent online (cleaned now) b h =
    let (l, r) = drop_sessions-IsLater (stale_ids now b.session_subs) b in
    later-AllCurrent b _ l r h
apply-AllCurrent online (receiver_returned sid) b h = h
apply-AllCurrent online shut b h = All-map (close-IsCurrent b) b.receivers h

apply_all-AllCurrent_from :
    (ops : List ((ℕ → Bool) × Operation)) (b : Bridge)
    → All (IsCurrent b) b.receivers
    → let b' = apply_all ops b in All (IsCurrent b') b'.receivers
unfolding apply_all
apply_all-AllCurrent_from [] b h = h
apply_all-AllCurrent_from (o ∷ ops) b h =
    apply_all-AllCurrent_from ops (apply o.0 o.1 b) (apply-AllCurrent o.0 o.1 b h)

-- Whatever methods were called on a new bridge and whatever receivers returned, in any order, and whichever
-- connections were online at each step: a receiver of an agent's requests whose context is not cancelled serves
-- the connection that is registered for the agent, and its context is the one that the agent's entry cancels.
pub apply_all-AllCurrent :
    (ops : List ((ℕ → Bool) × Operation))
    → let b = apply_all ops new_bridge in All (IsCurrent b) b.receivers
unfolding new_bridge
apply_all-AllCurrent ops = apply_all-AllCurrent_from ops new_bridge tt

-- An agent has a registered connection that is not online when a second connection of it registers, whatever its
-- number. When the handler of the first one then ends and unregisters the agent, the second one is lost: the agent
-- is found no more, even if the second connection is online, and its receiver is cancelled.
unregister_replaced :
    (online later : ℕ → Bool) (id : Text) (conn : ℕ) (b : Bridge)
    → is_online_conn online (lookup id b.agent_conns) ≡ false
    → let b' = unregister_agent id (register_agent online id conn b).0 in
      ((register_agent online id conn b).1 ≡ true)
      × (get_agent later id b' ≡ none)
      × (is_cancelled b' b.contexts ≡ true)
unfolding unregister_agent register_agent get_agent
unregister_replaced online later id conn b h = (
  ground (arith, h),
  ground (arith, h, lookup-delete id id (insert id conn b.agent_conns)),
  ground (arith, h, lookup-insert id id b.contexts b.agent_cancels),
)
