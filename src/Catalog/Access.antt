-- ===== src/Catalog/Access.antt =====
-- Only the developer who owns an agent changes it.
use voice_backend.Common.{
  ◌≡◌, ◌⊎◌, inl, inr, refl, Text, Bool, true, false, List, [], Option, none, some, ◌==◌, arith,
  filter, not, Bool-cases, ◌∷◌, inr,
}
use voice_backend.Common.Map.{lookup}
use voice_backend.Catalog.{
  Agent, AgentReview, save, set_reply, edited, Database, Statement, found, Guarded, granted, denied,
  first, has_id, owned_agent, require_developer, get_by_id, serve_granted, serve_owner,
  handle_owner, DeveloperRequest, update, delete, publish, save_agent, delete_agent,
  reply_to_review,
}

-- The caller is a developer and owns this agent of the database, which has the id.
pub record Owns (developers : List (Text × Bool)) (caller : Option Text) (id : Text) (db : Database)
    (a : Agent) : Type 0 where
  pub user : Text
  pub known : caller ≡ some user
  pub developer : lookup user developers ≡ some true
  pub stored : first (has_id id) db.agents ≡ found a
  pub owner : a.developer_id ≡ user

pub owned_agent-Owns :
    (fails : Statement → Bool) (developers : List (Text × Bool)) (caller : Option Text) (id : Text)
    (db : Database) (a : Agent)
    → owned_agent fails caller developers id db ≡ granted a
    → Owns developers caller id db a
unfolding owned_agent require_developer get_by_id
owned_agent-Owns fails developers none id db a h = ground (arith, h)
owned_agent-Owns fails developers (some u) id db a h = record {
  user = u;
  known = refl;
  developer = ground (arith, h);
  stored = ground (arith, h);
  owner = ground (arith, h);
}

-- The agents that have another id, and the reviews of other agents.
abbrev pub others : Text → List Agent → List Agent
others id agents = filter (λ a. not (a.id == id)) agents

abbrev pub of_others : Text → List AgentReview → List AgentReview
of_others id reviews = filter (λ v. not (v.agent_id == id)) reviews

-- No more changes between two databases than the agent of this id and the reviews of it.
pub record OnlyOf (id : Text) (before after : Database) : Type 0 where
  pub same_installs : after.installs ≡ before.installs
  pub same_agents : others id after.agents ≡ others id before.agents
  pub same_reviews : of_others id after.reviews ≡ of_others id before.reviews

others-save :
    (new : Agent) (id : Text) (agents : List Agent)
    → new.id ≡ id
    → others id (save new agents) ≡ others id agents
unfolding save
others-save new id [] e = refl
others-save new id (a ∷ agents) e = ground (arith, e, others-save new id agents e)

others-delete :
    (id gone : Text) (agents : List Agent)
    → gone ≡ id
    → others id (filter (λ b. not (has_id gone b)) agents) ≡ others id agents
others-delete id gone [] e = refl
others-delete id gone (a ∷ agents) e = ground (arith, e, others-delete id gone agents e)

of_others-set_reply :
    (review agent body id : Text) (reviews : List AgentReview)
    → agent ≡ id
    → of_others id (set_reply review agent body reviews) ≡ of_others id reviews
unfolding set_reply
of_others-set_reply review agent body id [] e = refl
of_others-set_reply review agent body id (v ∷ reviews) e =
    ground (arith, e, of_others-set_reply review agent body id reviews e)

first-id :
    (id : Text) (agents : List Agent) (a : Agent) → first (has_id id) agents ≡ found a → a.id ≡ id
first-id id [] a h = ground (arith, h)
first-id id (b ∷ agents) a h = elim (Bool-cases (has_id id b)) [
  | inl e ↦ ground (arith, h, e)
  | inr e ↦ first-id id agents a (ground (arith, h, e))
]

OnlyOf-refl : (id : Text) (db : Database) → OnlyOf id db db
OnlyOf-refl id db = record { same_installs = refl; same_agents = refl; same_reviews = refl }

serve_owner-refused :
    (fails : Statement → Bool) (q : DeveloperRequest) (a : Agent) (db : Database)
    → ((serve_owner fails q a db).1.code == []) ≡ false
    → (serve_owner fails q a db).0 ≡ db
unfolding serve_owner
serve_owner-refused fails (update none) a db h = refl
serve_owner-refused fails (update (some e)) a db h = ground (arith, h)
serve_owner-refused fails delete a db h = ground (arith, h)
serve_owner-refused fails publish a db h = ground (arith, h)
serve_owner-refused fails (reply_to_review r none) a db h = refl
serve_owner-refused fails (reply_to_review r (some b)) a db h = ground (arith, h)

serve_owner-OnlyOf :
    (fails : Statement → Bool) (id : Text) (q : DeveloperRequest) (a : Agent) (db : Database)
    → a.id ≡ id
    → OnlyOf id db (serve_owner fails q a db).0
unfolding serve_owner
serve_owner-OnlyOf fails id (update none) a db e = OnlyOf-refl id db
serve_owner-OnlyOf fails id (update (some edit)) a db e = elim (Bool-cases (fails save_agent)) [
  | inl f ↦ rw f (OnlyOf-refl id db)
  | inr f ↦ rw f (record {
    same_installs = refl;
    same_agents = others-save (edited (edit a) a) id db.agents e;
    same_reviews = refl;
  })
]
serve_owner-OnlyOf fails id delete a db e = elim (Bool-cases (fails delete_agent)) [
  | inl f ↦ rw f (OnlyOf-refl id db)
  | inr f ↦ rw f (record {
    same_installs = refl;
    same_agents = others-delete id a.id db.agents e;
    same_reviews = refl;
  })
]
serve_owner-OnlyOf fails id publish a db e = elim (Bool-cases (fails save_agent)) [
  | inl f ↦ rw f (OnlyOf-refl id db)
  | inr f ↦ rw f (record {
    same_installs = refl;
    same_agents = others-save (record a { is_public = true }) id db.agents e;
    same_reviews = refl;
  })
]
serve_owner-OnlyOf fails id (reply_to_review review none) a db e = OnlyOf-refl id db
serve_owner-OnlyOf fails id (reply_to_review review (some body)) a db e = record {
  same_installs = ground arith;
  same_agents = ground arith;
  same_reviews = ground (arith, of_others-set_reply review a.id body id db.reviews e);
}

serve_granted-Access :
    (fails : Statement → Bool) (developers : List (Text × Bool)) (caller : Option Text) (id : Text)
    (q : DeveloperRequest) (db : Database) (g : Guarded Agent)
    → owned_agent fails caller developers id db ≡ g
    → let r = serve_granted fails g q db in
      ((r.0 ≡ db) ⊎ ((a : Agent) × Owns developers caller id db a))
      × OnlyOf id db r.0
      × ((r.1.code == []) ≡ false → r.0 ≡ db)
unfolding serve_granted
serve_granted-Access fails developers caller id q db (denied r) e =
    (inl refl, OnlyOf-refl id db, λ h. refl)
serve_granted-Access fails developers caller id q db (granted a) e =
    let owns = owned_agent-Owns fails developers caller id db a e in
    (
      inr (a, owns),
      serve_owner-OnlyOf fails id q a db (first-id id db.agents a owns.stored),
      serve_owner-refused fails q a db,
    )

-- An update, a deletion, a publication or a reply to a review, whichever statements the database refuses:
-- unless the caller is a developer who owns the stored agent of that id, the database is left as it was;
-- in any case the installs, the agents of other ids and the reviews of other agents are left as they were;
-- and all is left as it was whenever the answer is a refusal.
pub handle_owner-Access :
    (fails : Statement → Bool) (developers : List (Text × Bool)) (caller : Option Text) (id : Text)
    (q : DeveloperRequest) (db : Database)
    → let r = handle_owner fails caller developers id q db in
      ((r.0 ≡ db) ⊎ ((a : Agent) × Owns developers caller id db a))
      × OnlyOf id db r.0
      × ((r.1.code == []) ≡ false → r.0 ≡ db)
unfolding handle_owner
handle_owner-Access fails developers caller id q db =
    serve_granted-Access fails developers caller id q db (owned_agent fails caller developers id db)
      refl
