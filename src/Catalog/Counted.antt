-- ===== src/Catalog/Counted.antt =====
-- The counters of active installs agree with the installs: what the requests of developers keep.
use voice_backend.Common.{
  ◌≤◌, ◌≡◌, sym, subst, Text, Bool, true, false, not, ◌||◌, ◌&&◌, List, [], ◌∷◌, Option, none, some,
  ◌==◌, leb, filter, arith, All, if◌then◌else◌,
}
use voice_backend.Catalog.{
  Agent, Database, Statement, Guarded, granted, denied, count, of_user, of_agent, has_id, save,
  owned_agent, serve_owner, serve_granted, create_granted, DeveloperRequest, update, delete,
  publish, reply_to_review, new_agent, edited, save_agent, delete_agent, reply, create_agent,
  is_reply, set_reply,
}
use voice_backend.Catalog.Rows.{pick, Agrees, save-All, filter-All, first-All}
use voice_backend.Catalog.Access.{owned_agent-Owns}

-- A user has an agent at most once, and the counters of the agents agree with the table of installs.
pub record IsCounted (db : Database) : Type 0 where
  pub unique : (u a : Text) → count (of_user u a) db.installs ≤ 1
  pub counted : All (λ (a : Agent). a.active_installs ≡ count (of_agent a.id) db.installs) db.agents

-- A database that a test chooses from two.
pub choose :
    (b : Bool) (x y : Database) {r : Database}
    → r ≡ (if b then x else y)
    → (b ≡ true → IsCounted x)
    → (b ≡ false → IsCounted y)
    → IsCounted r
choose b x y e f g = subst IsCounted (sym e) (pick IsCounted b x y f g)

-- With the agents changed only.
with_agents :
    (db : Database) (agents : List Agent)
    → IsCounted db
    → All (Agrees db.installs) agents
    → IsCounted (record db { agents = agents })
with_agents db agents h c = record { unique = h.unique; counted = c }

serve_owner-IsCounted :
    (fails : Statement → Bool) (q : DeveloperRequest) (a : Agent) (db : Database)
    → Agrees db.installs a
    → IsCounted db
    → IsCounted (serve_owner fails q a db).0
unfolding serve_owner
serve_owner-IsCounted fails (update none) a db own h = h
serve_owner-IsCounted fails (update (some edit)) a db own h =
    choose (fails save_agent) db (record db { agents = save (edited (edit a) a) db.agents })
      (ground arith) (λ e. h)
      (λ e. with_agents db _ h (save-All (Agrees db.installs) _ db.agents own h.counted))
serve_owner-IsCounted fails delete a db own h =
    choose (fails delete_agent) db
      (record db { agents = filter (λ b. not (has_id a.id b)) db.agents }) (ground arith) (λ e. h)
      (λ e. with_agents db _ h (filter-All (Agrees db.installs) _ db.agents h.counted))
serve_owner-IsCounted fails publish a db own h =
    choose (fails save_agent) db
      (record db { agents = save (record a { is_public = true }) db.agents }) (ground arith)
      (λ e. h) (λ e. with_agents db _ h (save-All (Agrees db.installs) _ db.agents own h.counted))
serve_owner-IsCounted fails (reply_to_review r none) a db own h = h
serve_owner-IsCounted fails (reply_to_review r (some b)) a db own h =
    choose (not (b == []) && (not (fails reply) && leb 1 (count (is_reply r a.id) db.reviews)))
      (record db { reviews = set_reply r a.id b db.reviews }) db (ground arith)
      (λ e. record { unique = h.unique; counted = h.counted }) (λ e. h)

pub serve_granted-IsCounted :
    (fails : Statement → Bool) (developers : List (Text × Bool)) (caller : Option Text) (id : Text)
    (q : DeveloperRequest) (db : Database) (g : Guarded Agent)
    → owned_agent fails caller developers id db ≡ g
    → IsCounted db
    → IsCounted (serve_granted fails g q db).0
unfolding serve_granted
serve_granted-IsCounted fails developers caller id q db (denied r) e h = h
serve_granted-IsCounted fails developers caller id q db (granted a) e h =
    serve_owner-IsCounted fails q a db
      (first-All (Agrees db.installs) (has_id id) db.agents a
        (owned_agent-Owns fails developers caller id db a e).stored h.counted)
      h

pub create_granted-IsCounted :
    (fails : Statement → Bool) (new_id : Text) (q : Option Agent) (db : Database) (g : Guarded Text)
    → count (of_agent new_id) db.installs ≡ 0
    → IsCounted db
    → IsCounted (create_granted fails g new_id q db).0
unfolding create_granted
create_granted-IsCounted fails new_id q db (denied r) n h = h
create_granted-IsCounted fails new_id none db (granted u) n h = h
create_granted-IsCounted fails new_id (some a) db (granted u) n h =
    choose (a.name == [] || fails create_agent) db
      (record db { agents = new_agent u new_id a ∷ db.agents }) (ground arith) (λ e. h)
      (λ e. with_agents db _ h (sym n, h.counted))
