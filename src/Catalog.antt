-- ===== src/Catalog.antt =====
-- internal/agent: the catalogue of agents, with store.go, handler.go, install_handler.go and the reviews
-- of marketplace.go. A database is three tables; a statement of the store is a function on them, with the
-- meaning of its SQL, the unique indices and the check of model.go included, and `fails` tells which
-- statements the database refuses. A request that cannot be bound is `none`, as is the user of a request
-- without a valid token. The float `AvgRating`, the instants and the embeddings are left out, and an id that
-- `shared.NewID` makes is an argument.
pub mod Installs
pub mod Rows
pub mod Counted
pub mod Counters
pub mod Access
pub mod Reviews
mod Tests
use voice_backend.Common.{
  ℕ, ◌+◌, ◌-◌, Text, Bool, true, false, not, ◌||◌, ◌&&◌, List, [], ◌∷◌, ◌++◌, Option, none, some,
  ◌==◌, leb, filter, map, text, if◌then◌else◌,
}
use voice_backend.Common.Map.{lookup}

pub record Agent : Type 0 where
  pub id : Text
  pub developer_id : Text
  pub name : Text
  pub description : Text
  pub logo_url : Text
  pub keywords : List Text
  pub capabilities : List Text
  pub category : Text
  pub is_public : Bool
  pub is_verified : Bool
  pub total_installs : ℕ
  pub active_installs : ℕ
  pub total_reviews : ℕ

pub record AgentInstall : Type 0 where
  pub id : Text
  pub user_id : Text
  pub agent_id : Text
  pub granted_scopes : List Text

pub record AgentReview : Type 0 where
  pub id : Text
  pub agent_id : Text
  pub user_id : Text
  pub rating : ℕ
  pub body : Text
  pub developer_reply : Option Text

pub record Database : Type 0 where
  pub agents : List Agent
  pub installs : List AgentInstall
  pub reviews : List AgentReview

-- The status and the code of an answer; a success has the empty code.
pub record Reply : Type 0 where
  pub status : ℕ
  pub code : Text

abbrev pub refused : ℕ → Text → Reply
refused status code = record { status = status; code = code }

abbrev pub done : ℕ → Reply
done status = record { status = status; code = [] }

pub data Statement : Type 0 where
  get_user get_agent create_agent save_agent delete_agent get_install insert_install increment
        delete_install decrement update_scopes get_review insert_review recalculate reply :
      Statement

-- What a read finds: a row, no row, or an error of the database.
pub data Fetched {ℓ} (A : Type ℓ) : Type ℓ where
  found : A → Fetched A
  missing broken : Fetched A

-- A value, or the answer that refuses.
pub data Guarded {ℓ} (A : Type ℓ) : Type ℓ where
  granted : A → Guarded A
  denied : Reply → Guarded A

abbrev pub first {ℓ} : {A : Type ℓ} → (A → Bool) → List A → Fetched A
first p [] = missing
first p (x ∷ xs) = if p x then found x else first p xs

abbrev pub count {ℓ} : {A : Type ℓ} → (A → Bool) → List A → ℕ
count p [] = 0
count p (x ∷ xs) = let rest = count p xs in if p x then rest + 1 else rest

abbrev pub has_id : Text → Agent → Bool
has_id id a = a.id == id

-- The row of a user's install.
abbrev pub of_user : Text → Text → AgentInstall → Bool
of_user user agent i = i.user_id == user && i.agent_id == agent

abbrev pub of_agent : Text → AgentInstall → Bool
of_agent agent i = i.agent_id == agent

unfoldable pub count_more : Text → List Agent → List Agent
count_more id [] = []
count_more id (a ∷ agents) =
    let rest = count_more id agents in
    (if has_id id a
      then record a {
        total_installs = a.total_installs + 1;
        active_installs = a.active_installs + 1;
      }
      else a)
    ∷ rest

-- `GREATEST(active_installs - 1, 0)` is the subtraction of ℕ.
unfoldable pub count_less : Text → List Agent → List Agent
count_less id [] = []
count_less id (a ∷ agents) =
    let rest = count_less id agents in
    (if has_id id a then record a { active_installs = a.active_installs - 1 } else a) ∷ rest

-- `Save` on a row that is there.
unfoldable pub save : Agent → List Agent → List Agent
save new [] = []
save new (a ∷ agents) = let rest = save new agents in (if has_id new.id a then new else a) ∷ rest

unfoldable pub set_scopes : Text → Text → List Text → List AgentInstall → List AgentInstall
set_scopes user agent scopes [] = []
set_scopes user agent scopes (i ∷ installs) =
    let rest = set_scopes user agent scopes installs in
    (if of_user user agent i then record i { granted_scopes = scopes } else i) ∷ rest

-- What the developer asks of an agent that is owned, with the fields that a request changes.
pub data DeveloperRequest : Type 0 where
  update : Option (Agent → Agent) → DeveloperRequest
  delete publish : DeveloperRequest
  reply_to_review : Text → Option Text → DeveloperRequest

abbrev pub is_reply : Text → Text → AgentReview → Bool
is_reply review agent r = r.id == review && r.agent_id == agent

unfoldable pub set_reply : Text → Text → Text → List AgentReview → List AgentReview
set_reply review agent body [] = []
set_reply review agent body (r ∷ reviews) =
    let rest = set_reply review agent body reviews in
    (if is_reply review agent r then record r { developer_reply = some body } else r) ∷ rest

abbrev or_assistant : Text → Text
or_assistant category = if category == [] then text "assistant" else category

abbrev pub new_agent : Text → Text → Agent → Agent
new_agent user new_id a = record a {
  id = new_id;
  developer_id = user;
  category = or_assistant a.category;
  is_public = false;
  is_verified = false;
  total_installs = 0;
  active_installs = 0;
  total_reviews = 0;
}

-- The agent `a` with the columns of `e` that a request may change.
abbrev pub edited : Agent → Agent → Agent
edited e a = record a {
  name = e.name;
  description = e.description;
  logo_url = e.logo_url;
  keywords = e.keywords;
  capabilities = e.capabilities;
  category = e.category;
}

module _ (fails : Statement → Bool) where
  unfoldable pub get_by_id : Text → Database → Fetched Agent
  get_by_id id db = if fails get_agent then broken else first (has_id id) db.agents

  -- `requireDeveloper`. `developers` is the table of users, with the flag `IsDeveloper`.
  unfoldable pub require_developer : Option Text → List (Text × Bool) → Guarded Text
  unfolding lookup
  require_developer none developers = denied (refused 401 (text "auth_required"))
  require_developer (some user) developers =
      if fails get_user
      then denied (refused 404 (text "user_not_found"))
      else elim (lookup user developers) [
        | none ↦ denied (refused 404 (text "user_not_found"))
        | some true ↦ granted user
        | some false ↦ denied (refused 403 (text "not_developer"))
      ]

  -- The head that `Get`, `Update`, `Delete`, `Publish` and `ReplyToReview` share: the agent, if the caller
  -- owns it.
  unfoldable pub owned_agent : Option Text → List (Text × Bool) → Text → Database → Guarded Agent
  unfolding require_developer get_by_id
  owned_agent caller developers id db = elim (require_developer caller developers) [
    | denied r ↦ denied r
    | granted user ↦ elim (get_by_id id db) [
      | found a ↦
          if a.developer_id == user then granted a else denied (refused 403 (text "not_owner"))
      | missing ↦ denied (refused 404 (text "agent_not_found"))
      | broken ↦ denied (refused 500 (text "get_failed"))
    ]
  ]

  -- `Update`, `Delete`, `Publish` and `ReplyToReview` behind the shared head. An update keeps the id, the
  -- owner and all that a request has no field for.
  unfoldable pub serve_owner : DeveloperRequest → Agent → Database → Database × Reply
  unfolding save set_reply
  serve_owner (update none) a db = (db, refused 400 (text "invalid_request"))
  serve_owner (update (some edit)) a db =
      if fails save_agent
      then (db, refused 500 (text "update_failed"))
      else (record db { agents = save (edited (edit a) a) db.agents }, done 200)
  serve_owner delete a db =
      if fails delete_agent
      then (db, refused 500 (text "delete_failed"))
      else (record db { agents = filter (λ b. not (has_id a.id b)) db.agents }, done 204)
  serve_owner publish a db =
      if fails save_agent
      then (db, refused 500 (text "publish_failed"))
      else (record db { agents = save (record a { is_public = true }) db.agents }, done 200)
  serve_owner (reply_to_review review none) a db = (db, refused 400 (text "invalid_request"))
  serve_owner (reply_to_review review (some body)) a db =
      if body == []
      then (db, refused 400 (text "missing_reply"))
      else if fails reply
      then (db, refused 500 (text "reply_failed"))
      else if leb 1 (count (is_reply review a.id) db.reviews)
      then (record db { reviews = set_reply review a.id body db.reviews }, done 204)
      else (db, refused 404 (text "review_not_found"))

  -- The handlers behind the head, by its outcome.
  unfoldable pub serve_granted : Guarded Agent → DeveloperRequest → Database → Database × Reply
  unfolding serve_owner
  serve_granted (denied r) request db = (db, r)
  serve_granted (granted a) request db = serve_owner request a db

  unfoldable pub handle_owner :
      Option Text → List (Text × Bool) → Text → DeveloperRequest → Database → Database × Reply
  unfolding owned_agent serve_granted
  handle_owner caller developers id request db =
      serve_granted (owned_agent caller developers id db) request db

  -- `Create` behind the head, with the fields of the request.
  unfoldable pub create_granted : Guarded Text → Text → Option Agent → Database → Database × Reply
  create_granted (denied r) new_id request db = (db, r)
  create_granted (granted user) new_id none db = (db, refused 400 (text "invalid_request"))
  create_granted (granted user) new_id (some a) db =
      if a.name == []
      then (db, refused 400 (text "missing_name"))
      else if fails create_agent
      then (db, refused 500 (text "create_failed"))
      else (record db { agents = new_agent user new_id a ∷ db.agents }, done 201)

  unfoldable pub create :
      Option Text → List (Text × Bool) → Text → Option Agent → Database → Database × Reply
  unfolding require_developer create_granted
  create caller developers new_id request db =
      create_granted (require_developer caller developers) new_id request db
