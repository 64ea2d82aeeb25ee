-- ===== src/Gateway/Bridge/Handler.antt =====
-- The bridge is shared by all sessions and has one response handler.
use voice_backend.Common.{
  ℕ, ◌≡◌, refl, Text, Bool, List, [], ◌∷◌, Option, none, some, ◌==◌, arith, if◌then◌else◌, ap, ◌∙◌,
}
use voice_backend.Gateway.Bridge.{
  Bridge, Operation, registered, unregistered, opened, unsubscribed, refreshed, cleaned,
  receiver_returned, shut, apply, apply_all, handled_by, register_agent, unregister_agent,
  drop_sessions, open_session, subscribe_to_session, unsubscribe_from_session, refresh_subscription,
  cleanup_stale_sessions, stale_ids, receiver_returns, close, set_response_handler,
}

-- The session that was created last, or the one from before.
abbrev pub last_opened : Option Text → List ((ℕ → Bool) × Operation) → Option Text
last_opened o [] = o
last_opened o ((online, opened now sid) ∷ ops) = last_opened (some sid) ops
last_opened o ((online, _) ∷ ops) = last_opened o ops

drop_sessions-handler :
    (stale : List Text) (b : Bridge) → (drop_sessions stale b).response_handler ≡ b.response_handler
unfolding drop_sessions unsubscribe_from_session
drop_sessions-handler [] b = refl
drop_sessions-handler (s ∷ stale) b = drop_sessions-handler stale (unsubscribe_from_session s b)

apply_all-handler :
    (ops : List ((ℕ → Bool) × Operation)) (b : Bridge)
    → (apply_all ops b).response_handler ≡ last_opened b.response_handler ops
unfolding apply_all apply register_agent unregister_agent open_session subscribe_to_session
    unsubscribe_from_session refresh_subscription cleanup_stale_sessions receiver_returns close
    set_response_handler
apply_all-handler [] b = refl
apply_all-handler ((online, registered id conn) ∷ ops) b =
    ground (arith, apply_all-handler ops (register_agent online id conn b).0)
apply_all-handler ((online, unregistered id) ∷ ops) b =
    apply_all-handler ops (unregister_agent id b)
apply_all-handler ((online, opened now sid) ∷ ops) b =
    ground (arith, apply_all-handler ops (open_session now sid b).0)
apply_all-handler ((online, unsubscribed sid) ∷ ops) b =
    apply_all-handler ops (unsubscribe_from_session sid b)
apply_all-handler ((online, refreshed now sid) ∷ ops) b =
    ground (arith, apply_all-handler ops (refresh_subscription now sid b))
apply_all-handler ((online, cleaned now) ∷ ops) b =
    apply_all-handler ops (cleanup_stale_sessions now b)
    ∙ ap (λ (o : Option Text). last_opened o ops)
        (drop_sessions-handler (stale_ids now b.session_subs) b)
apply_all-handler ((online, receiver_returned sid) ∷ ops) b =
    apply_all-handler ops (receiver_returns sid b)
apply_all-handler ((online, shut) ∷ ops) b = apply_all-handler ops (close b)

-- A message of an agent for a session is handled only if that session is the one that was created last:
-- once a second session is created, whatever else happens, the messages for the first one are dropped.
pub apply_all-handled_by :
    (ops : List ((ℕ → Bool) × Operation)) (now : ℕ) (sid : Text) (b : Bridge)
    → handled_by sid (apply_all ops (open_session now sid b).0)
      ≡ elim (last_opened (some sid) ops) [
        | none ↦ none
        | some owner ↦ if sid == owner then some owner else none
      ]
unfolding handled_by open_session subscribe_to_session set_response_handler
apply_all-handled_by ops now sid b =
    ground (arith, apply_all-handler ops (open_session now sid b).0)
