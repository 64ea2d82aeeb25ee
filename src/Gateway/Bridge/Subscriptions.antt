-- ===== src/Gateway/Bridge/Subscriptions.antt =====
-- The subscriptions of sessions: how many there may be, and how they end.
use voice_backend.Common.{
  ℕ, ◌≤◌, ◌≡◌, inl, inr, refl, sym, subst, Text, Bool, true, false, List, [], ◌∷◌, Option, none,
  some, ◌==◌, arith, if◌then◌else◌, Bool-cases, Option-cases, ==→eq, length, contains,
}
use voice_backend.Common.Map.{
  lookup, lookup-delete, length-insert, length-delete-le, IsDistinct, keys,
}
use voice_backend.Gateway.Bridge.{
  Bridge, SessionSub, Operation, registered, unregistered, opened, unsubscribed, refreshed, cleaned,
  receiver_returned, shut, apply, apply_all, new_bridge, sub_context, register_agent,
  unregister_agent, drop_sessions, open_session, subscribe_to_session, unsubscribe_from_session,
  refresh_subscription, cleanup_stale_sessions, stale_ids, is_stale, receiver_returns, close,
  set_response_handler, max_session_subs, session_sub_count,
}
use voice_backend.Gateway.Bridge.Agents.{member, member-cancel_of}

drop_sessions-count :
    (stale : List Text) (b : Bridge)
    → length (drop_sessions stale b).session_subs ≤ length b.session_subs
unfolding drop_sessions unsubscribe_from_session
drop_sessions-count [] b = omega arith
drop_sessions-count (sid ∷ stale) b = omega (
  arith,
  drop_sessions-count stale (unsubscribe_from_session sid b),
  length-delete-le sid b.session_subs,
)

refresh-count :
    (now : ℕ) (sid : Text) (b : Bridge)
    → length (refresh_subscription now sid b).session_subs ≡ length b.session_subs
unfolding refresh_subscription
refresh-count now sid b = elim (Option-cases (lookup sid b.session_subs)) [
  | inl e ↦ ground (arith, e)
  | inr (sub, e) ↦
      ground (arith, e, length-insert sid (record sub { created_at = now }) b.session_subs)
]

open_session-count :
    (now : ℕ) (sid : Text) (b : Bridge)
    → length b.session_subs ≤ max_session_subs
    → length (open_session now sid b).0.session_subs ≤ max_session_subs
unfolding open_session subscribe_to_session set_response_handler
open_session-count now sid b h =
    ground (
      arith,
      h,
      length-insert sid (record { context = b.contexts; created_at = now }) b.session_subs,
    )

apply-count :
    (online : ℕ → Bool) (o : Operation) (b : Bridge)
    → length b.session_subs ≤ max_session_subs
    → length (apply online o b).session_subs ≤ max_session_subs
unfolding apply register_agent unregister_agent unsubscribe_from_session cleanup_stale_sessions
    receiver_returns close
apply-count online (registered id conn) b h = ground (arith, h)
apply-count online (unregistered id) b h = h
apply-count online (opened now sid) b h = open_session-count now sid b h
apply-count online (unsubscribed sid) b h = omega (arith, h, length-delete-le sid b.session_subs)
apply-count online (refreshed now sid) b h = omega (arith, h, refresh-count now sid b)
apply-count online (cleaned now) b h =
    omega (arith, h, drop_sessions-count (stale_ids now b.session_subs) b)
apply-count online (receiver_returned sid) b h =
    omega (arith, h, length-delete-le sid b.session_subs)
apply-count online shut b h = omega arith

apply_all-count_from :
    (ops : List ((ℕ → Bool) × Operation)) (b : Bridge)
    → length b.session_subs ≤ max_session_subs
    → length (apply_all ops b).session_subs ≤ max_session_subs
unfolding apply_all
apply_all-count_from [] b h = h
apply_all-count_from (o ∷ ops) b h =
    apply_all-count_from ops (apply o.0 o.1 b) (apply-count o.0 o.1 b h)

-- Whatever methods were called on a new bridge and whatever receivers returned, no more than 10,000
-- sessions are subscribed.
apply_all-count :
    (ops : List ((ℕ → Bool) × Operation))
    → session_sub_count (apply_all ops new_bridge) ≤ max_session_subs
unfolding session_sub_count new_bridge
apply_all-count ops = apply_all-count_from ops new_bridge (omega arith)

drop_sessions-lookup :
    (stale : List Text) (b : Bridge) (sid : Text)
    → lookup sid (drop_sessions stale b).session_subs
      ≡ (if contains stale sid then none else lookup sid b.session_subs)
unfolding drop_sessions unsubscribe_from_session
drop_sessions-lookup [] b sid = refl
drop_sessions-lookup (s ∷ stale) b sid = ground (
  arith,
  drop_sessions-lookup stale (unsubscribe_from_session s b) sid,
  lookup-delete s sid b.session_subs,
)

-- The test of `cleanupStaleSessions` on an entry that may be missing.
abbrev pub is_stale_entry : ℕ → Option SessionSub → Bool
is_stale_entry now none = false
is_stale_entry now (some sub) = is_stale now sub

stale_ids-keys :
    (now : ℕ) (m : List (Text × SessionSub)) (sid : Text)
    → contains (keys m) sid ≡ false
    → contains (stale_ids now m) sid ≡ false
unfolding stale_ids
stale_ids-keys now [] sid h = refl
stale_ids-keys now (e ∷ m) sid h = ground (arith, h, stale_ids-keys now m sid)

stale_ids-contains :
    (now : ℕ) (m : List (Text × SessionSub)) (sid : Text)
    → IsDistinct (keys m)
    → contains (stale_ids now m) sid ≡ is_stale_entry now (lookup sid m)
unfolding stale_ids lookup
stale_ids-contains now [] sid d = refl
stale_ids-contains now (e ∷ m) sid d = elim (Bool-cases (e.0 == sid)) [
  | inl same ↦
      let gone =
        stale_ids-keys now m sid
          (subst (λ (k : Text). contains (keys m) k ≡ false) (==→eq e.0 sid same) d.0) in
      ground (arith, same, gone)
  | inr other ↦ ground (arith, other, stale_ids-contains now m sid d.1)
]

drop_sessions-cancelled :
    (stale : List Text) (b : Bridge) (c : ℕ)
    → member c b.cancelled ≡ true
    → member c (drop_sessions stale b).cancelled ≡ true
unfolding drop_sessions unsubscribe_from_session
drop_sessions-cancelled [] b c h = h
drop_sessions-cancelled (s ∷ stale) b c h =
    drop_sessions-cancelled stale (unsubscribe_from_session s b) c
      (member-cancel_of (sub_context (lookup s b.session_subs)) b.cancelled c h)

drop_sessions-ends :
    (stale : List Text) (b : Bridge) (sid : Text) (sub : SessionSub)
    → contains stale sid ≡ true
    → lookup sid b.session_subs ≡ some sub
    → member sub.context (drop_sessions stale b).cancelled ≡ true
unfolding drop_sessions unsubscribe_from_session
drop_sessions-ends [] b sid sub h e = absurd (ground (arith, h))
drop_sessions-ends (s ∷ stale) b sid sub h e =
    let b1 = unsubscribe_from_session s b in
    elim (Bool-cases (s == sid)) [
      | inl same ↦
          let e2 =
            subst (λ (k : Text). lookup k b.session_subs ≡ some sub) (sym (==→eq s sid same)) e in
          drop_sessions-cancelled stale b1 sub.context (ground (arith, e2))
      | inr other ↦
          drop_sessions-ends stale b1 sid sub (ground (arith, h, other))
            (ground (arith, other, e, lookup-delete s sid b.session_subs))
    ]

-- A cleanup ends exactly the subscriptions that are more than 30 minutes old, however the map is visited: such an
-- entry is gone and the context of its receiver is cancelled, and every other entry is as it was.
cleanup-lookup :
    (now : ℕ) (b : Bridge) (sid : Text)
    → IsDistinct (keys b.session_subs)
    → (lookup sid (cleanup_stale_sessions now b).session_subs ≡ (
        if is_stale_entry now (lookup sid b.session_subs) then none else lookup sid b.session_subs))
      × ((sub : SessionSub)
          → lookup sid b.session_subs ≡ some sub
          → is_stale now sub ≡ true
          → member sub.context (cleanup_stale_sessions now b).cancelled ≡ true)
unfolding cleanup_stale_sessions
cleanup-lookup now b sid d =
    let ids = stale_ids now b.session_subs in
    let same = stale_ids-contains now b.session_subs sid d in
    (
      ground (arith, drop_sessions-lookup ids b sid, same),
      λ sub e stale. drop_sessions-ends ids b sid sub (ground (arith, same, e, stale)) e,
    )
