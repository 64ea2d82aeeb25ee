-- ===== src/VoiceSession/Utterance.antt =====
-- What `onTranscript` does with a final transcript: whom it asks, and what they are sent.
use voice_backend.Common.{
  ◌≡◌, ◌≢◌, refl, sym, ap, subst, ◌∙◌, Text, true, false, none, List, [], ◌∷◌, ◌++◌, Option,
  contains, map, append_assoc, append-nil, arith,
}
use voice_backend.Arbiter.{start}
use voice_backend.Arbiter.Laws.{start-IsOpen}
use voice_backend.Router.{route, ids_of, is_nil}
use voice_backend.Router.Targets.{IsSelection, route-IsSelection}
use voice_backend.Scopes.{
  AgentInfo, UserContext, UtterancePayload, VisionContext, build_payload, parse_scope_key,
  publish_group, publish_all, deliveries, group_by_scopes,
}
use voice_backend.Scopes.Delivery.{own, deliveries-perm}
use voice_backend.VoiceSession.{
  Session, Effect, event, cancellation, utterance, to_agents, synthesis, flushed, on_final,
  publish_groups, or_all, on_transcript,
}
use voice_backend.VoiceSession.Speaking.{MaySpeak}
use mathlib.Core.List.{Perm}

-- The messages to single agents that the effects make.
abbrev pub delivered : List Effect → List (Text × UtterancePayload)
delivered [] = []
delivered (to_agents ids p ∷ es) = map (λ id. (id, p)) ids ++ delivered es
delivered (event e ∷ es) = delivered es
delivered (cancellation id r ∷ es) = delivered es
delivered (utterance p ∷ es) = delivered es
delivered (synthesis t c ∷ es) = delivered es
delivered (flushed ∷ es) = delivered es

module _ (agents : List AgentInfo) (ctx : Option UserContext) where
  group_effects : UtterancePayload → List (Text × List Text) → List Effect
  group_effects base [] = []
  group_effects base ((key, ids) ∷ groups) =
      to_agents ids (build_payload ctx base (parse_scope_key key)) ∷ group_effects base groups

  publish_groups_lem :
      (base : UtterancePayload) (groups : List (Text × List Text)) (s : Session)
      → publish_groups agents ctx base groups s
        ≡ record s { effects = s.effects ++ group_effects base groups }
  unfolding publish_groups group_effects
  publish_groups_lem base [] s =
      ap (λ (es : List Effect). record s { effects = es }) (sym (append-nil s.effects))
  publish_groups_lem base ((key, ids) ∷ groups) s =
      let e = to_agents ids (build_payload ctx base (parse_scope_key key)) in
      publish_groups_lem base groups (record s { effects = s.effects ++ e ∷ [] })
      ∙ ap (λ (es : List Effect). record s { effects = es })
          (append_assoc s.effects (e ∷ []) (group_effects base groups))

  delivered-group_effects :
      (base : UtterancePayload) (groups : List (Text × List Text))
      → delivered (group_effects base groups) ≡ publish_all agents ctx base groups
  unfolding group_effects
  delivered-group_effects base [] = refl
  delivered-group_effects base ((key, ids) ∷ groups) =
      ap (◌++◌ (publish_group agents ctx base (key, ids))) (delivered-group_effects base groups)

  -- The payload that `onTranscript` starts from.
  abbrev pub base_of : Text → Option VisionContext → UtterancePayload
  base_of t vision = record { text = t; is_final = true; user = none; vision = vision }

  -- `u` asks some of the agents, each of which may win; behind the effects of `s` it sends, up to the
  -- order, one message to each of them, with the payload that its own scopes allow.
  pub record Asked (base : UtterancePayload) (s u : Session) : Type 0 where
    some_target : u.active_agents ≢ []
    known : (x : Text) → contains u.active_agents x ≡ true → contains (ids_of agents) x ≡ true
    may_speak : (id : Text) → contains u.active_agents id ≡ true → MaySpeak id u.arbiter
    sent :
        (es : List Effect) × (u.effects ≡ s.effects ++ es)
        × Perm (delivered es) (map (own agents ctx base) u.active_agents)

  or_all-known :
      (ids : List Text)
      → IsSelection (ids_of agents) ids
      → (x : Text) → contains (or_all agents ctx ids) x ≡ true
      → contains (ids_of agents) x ≡ true
  or_all-known [] sel x h = h
  or_all-known (id ∷ ids) sel x h = sel.known x h

  or_all-nonempty : (ids : List Text) → is_nil agents ≡ false → or_all agents ctx ids ≢ []
  or_all-nonempty ids h = ground (arith, h)

  on_final-Asked :
      (t : Text) (vision : Option VisionContext) (s : Session)
      → is_nil agents ≡ false
      → Asked (base_of t vision) s (on_final agents ctx t vision s)
  unfolding on_final deliveries start
  on_final-Asked t vision s h =
      let base = base_of t vision in
      let found = (route t agents s.router).1 in
      let targets = or_all agents ctx found in
      let open_to = start-IsOpen targets s.arbiter in
      let u : Session = record s {
        router = (route t agents s.router).0;
        active_agents = targets;
        arbiter = start targets s.arbiter;
        effects = s.effects ++ group_effects base (group_by_scopes agents targets);
      } in
      let goal : on_final agents ctx t vision s ≡ u = ground (
        arith,
        h,
        publish_groups_lem base (group_by_scopes agents targets) (record s {
          router = (route t agents s.router).0;
          active_agents = targets;
          arbiter = start targets s.arbiter;
        }),
      ) in
      subst (Asked base s) (sym goal) (record {
        some_target = or_all-nonempty found h;
        known = or_all-known found (route-IsSelection t agents s.router);
        may_speak = λ id k. record {
          running = open_to.running;
          asked = open_to.asked id ∙ k;
          open_to = ground arith;
        };
        sent = (
          group_effects base (group_by_scopes agents targets),
          refl,
          subst (λ l. Perm l (map (own agents ctx base) targets))
              (sym (delivered-group_effects base (group_by_scopes agents targets)))
              (deliveries-perm agents ctx base targets),
        );
      })

  -- A final transcript that is not empty asks, if the session has agents, at least one of them and only
  -- these, whatever the router answers; every agent that is asked may win; and it is sent, up to the order,
  -- exactly one message for each agent that is asked, with the payload that its own scopes allow.
  pub on_transcript-Asked :
      (t : Text) (vision : Option VisionContext) (s : Session)
      → t ≢ []
      → is_nil agents ≡ false
      → Asked (base_of t vision) s (on_transcript agents ctx false t vision s)
  unfolding on_transcript
  on_transcript-Asked t vision s some_text h =
      let behind : on_final agents ctx t vision s ≡ on_transcript agents ctx false t vision s =
        ground (arith, some_text) in
      subst (Asked (base_of t vision) s) behind (on_final-Asked t vision s h)
