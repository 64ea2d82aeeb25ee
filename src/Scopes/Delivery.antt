-- ===== src/Scopes/Delivery.antt =====
-- The grouping of agents by their scopes is invisible: each agent gets the payload of its own scopes.
use mathlib.Core.List.{Perm, perm_middle, map-append}
use mathlib.Core.List.Perm
use voice_backend.Common.{
  Text, true, List, [], ◌∷◌, ◌++◌, Option, none, some, map, ◌==◌, ◌&&◌, ◌≡◌, ap, sym, ◌∙◌, subst,
  contains, filter, if◌then◌else◌, Bool-cases, ==→eq, inl, inr, arith, append_assoc, append-nil,
  contains-filter,
}
use voice_backend.Common.Map.{append_at-cons, append_at}
use voice_backend.Common.Sort.{sort, contains-sort}
use voice_backend.Scopes.{
  AgentInfo, UserContext, UserInfo, UtterancePayload, scope_profile, scope_email, scope_location,
  scope_vision, relevant, relevant_scopes, parse_scope_key, build_payload, build_user,
  get_agent_scopes, agent_key, group_from, group_by_scopes, publish_all, deliveries,
}
use voice_backend.Scopes.Keys.{parse-scope_key}

-- What of a user the scopes allow, each part by itself; no user at all if nothing of it is left.
abbrev pub allowed_part : List Text → Text → Text → Text
allowed_part scopes scope value = if contains scopes scope then value else []

abbrev pub allowed_user : List Text → UserContext → Option UserInfo
allowed_user scopes ctx =
    let name = allowed_part scopes scope_profile ctx.name in
    let email = allowed_part scopes scope_email ctx.email in
    let ip = allowed_part scopes scope_location ctx.ip in
    if name == [] && email == [] && ip == []
    then none
    else some (record { name = name; email = email; ip = ip })

abbrev pub user_of : List Text → Option UserContext → Option UserInfo
user_of scopes none = none
user_of scopes (some ctx) = allowed_user scopes ctx

-- The whole payload that the scopes allow.
abbrev pub allowed : Option UserContext → UtterancePayload → List Text → UtterancePayload
allowed ctx base scopes = record {
  text = base.text;
  is_final = base.is_final;
  user = user_of scopes ctx;
  vision = if contains scopes scope_vision then base.vision else none;
}

build_user-allowed :
    (ctx : UserContext) (scopes : List Text) → build_user ctx scopes ≡ allowed_user scopes ctx
unfolding build_user
build_user-allowed ctx scopes = ground arith

build_payload-allowed :
    (ctx : Option UserContext) (base : UtterancePayload) (scopes : List Text)
    → build_payload ctx base scopes ≡ allowed ctx base scopes
unfolding build_payload
build_payload-allowed none base scopes = ground arith
build_payload-allowed (some ctx) base scopes = ground (arith, build_user-allowed ctx scopes)

-- A payload depends on the four scopes alone.
build_payload-eq :
    (ctx : Option UserContext) (base : UtterancePayload) (s t : List Text)
    → contains s scope_profile ≡ contains t scope_profile
    → contains s scope_email ≡ contains t scope_email
    → contains s scope_location ≡ contains t scope_location
    → contains s scope_vision ≡ contains t scope_vision
    → build_payload ctx base s ≡ build_payload ctx base t
unfolding build_payload
build_payload-eq none base s t p e l v = ground arith
build_payload-eq (some ctx) base s t p e l v = ground arith

contains-relevant :
    (s : List Text) (x : Text)
    → contains relevant x ≡ true
    → contains (sort (relevant_scopes s)) x ≡ contains s x
unfolding relevant_scopes
contains-relevant s x h =
    contains-sort (filter (contains relevant) s) x
    ∙ contains-filter (contains relevant) s x
    ∙ ground arith

module _ (agents : List AgentInfo) (ctx : Option UserContext) (base : UtterancePayload) where
  -- What an agent is to be sent, by its own granted scopes.
  abbrev pub own : Text → Text × UtterancePayload
  own id = (id, allowed ctx base (get_agent_scopes agents id))

  -- The payload made from the key of an agent's group is the one made from its scopes.
  build_payload-key :
      (id : Text) → build_payload ctx base (parse_scope_key (agent_key agents id)) ≡ (own id).1
  unfolding agent_key
  build_payload-key id =
      let granted = get_agent_scopes agents id in
      ap (build_payload ctx base) (parse-scope_key granted)
      ∙ build_payload-eq ctx base (sort (relevant_scopes granted)) granted
          (contains-relevant granted scope_profile (ground arith))
          (contains-relevant granted scope_email (ground arith))
          (contains-relevant granted scope_location (ground arith))
          (contains-relevant granted scope_vision (ground arith))
      ∙ build_payload-allowed ctx base granted

  abbrev all : List (Text × List Text) → List (Text × UtterancePayload)
  all = publish_all agents ctx base

  -- One more agent in a group is one more delivery.
  abbrev own_group : Text → Text → Text × UtterancePayload
  own_group key id = (id, build_payload ctx base (parse_scope_key key))

  publish_all-append_at :
      (k id : Text) (m : List (Text × List Text))
      → Perm (all (append_at k id m)) ((id, build_payload ctx base (parse_scope_key k)) ∷ all m)
  publish_all-append_at k id [] = unfold append_at in Perm.refl _
  publish_all-append_at k id ((j, ids) ∷ m) =
      rw (append_at-cons k id j ids m) (elim (Bool-cases (j == k)) [
        | inl here ↦
            rw
              (
                here,
                map-append (own_group k) ids (id ∷ []),
                append_assoc (map (own_group k) ids) _ _,
              )
              (subst
                (λ (i : Text).
                  Perm (map (own_group k) ids ++ own_group k id ∷ all m)
                    (own_group k id ∷ (map (own_group i) ids ++ all m)))
                (sym (==→eq j k here)) (perm_middle (map (own_group k) ids) (all m)))
        | inr other ↦ rw other (
            Perm.trans (Perm.append_left (map (own_group j) ids) (publish_all-append_at k id m))
              (perm_middle (map (own_group j) ids) (all m)))
      ])

  publish_all-group_from :
      (ids : List Text) (m : List (Text × List Text))
      → Perm (all (group_from agents ids m)) (map own ids ++ all m)
  unfolding group_from
  publish_all-group_from [] m = Perm.refl (all m)
  publish_all-group_from (id ∷ ids) m =
      Perm.trans (publish_all-group_from ids (append_at (agent_key agents id) id m)) (
        Perm.trans
          (Perm.append (Perm.refl (map own ids)) (publish_all-append_at (agent_key agents id) id m))
          (rw (build_payload-key id) (perm_middle (map own ids) (all m))))

  -- Whatever agents an utterance goes to, the messages of all groups together are, up to their order,
  -- one message for each target, with the payload that its own granted scopes allow: the text and whether
  -- it is final; of the user the name under the scope profile, the mail address under email and the address
  -- under location, each empty otherwise, and no user at all where all three are empty; and what the camera
  -- saw under the scope vision only.
  pub deliveries-perm : (ids : List Text) → Perm (deliveries agents ctx base ids) (map own ids)
  unfolding deliveries group_by_scopes
  deliveries-perm ids =
      subst (λ (l : List (Text × UtterancePayload)). Perm (all (group_from agents ids [])) l)
        (append-nil (map own ids)) (publish_all-group_from ids [])
