-- ===== src/Catalog/Installs.antt =====
-- internal/agent/install_handler.go and the reviews of marketplace.go, with their statements of store.go. A
-- rating is a natural number; a negative one is refused as 0 is.
use voice_backend.Common.{
  ℕ, Text, Bool, true, false, not, ◌||◌, ◌&&◌, List, [], ◌∷◌, Option, none, some, ◌==◌, leb, filter,
  text, if◌then◌else◌,
}
use voice_backend.Catalog.{
  Agent, AgentInstall, AgentReview, Database, Reply, refused, done, Statement, get_install,
  insert_install, increment, delete_install, decrement, update_scopes, get_review, insert_review,
  recalculate, Fetched, found, missing, broken, Guarded, granted, denied, first, count, of_user,
  has_id, count_more, count_less, set_scopes, get_by_id, DeveloperRequest, handle_owner, create,
}

abbrev pub is_found {ℓ} : {A : Type ℓ} → Fetched A → Bool
is_found (found a) = true
is_found missing = false
is_found broken = false

unfoldable pub set_total : Text → ℕ → List Agent → List Agent
set_total id n [] = []
set_total id n (a ∷ agents) =
    let rest = set_total id n agents in
    (if has_id id a then record a { total_reviews = n } else a) ∷ rest

-- The rows of the index `idx_agent_user_review`, which model.go declares on `user_id` alone.
abbrev pub by_user : Text → AgentReview → Bool
by_user user r = r.user_id == user

abbrev pub of_review : Text → Text → AgentReview → Bool
of_review user agent r = r.user_id == user && r.agent_id == agent

abbrev pub about_agent : Text → AgentReview → Bool
about_agent agent r = r.agent_id == agent

module _ (fails : Statement → Bool) where
  -- `Store.Install`. `false` is an error.
  unfoldable pub store_install : AgentInstall → Database → Database × Bool
  unfolding count_more
  store_install i db =
      let added : Database = record db { installs = i ∷ db.installs } in
      if fails insert_install || leb 1 (count (of_user i.user_id i.agent_id) db.installs)
      then (db, false)
      else if fails increment
      then (added, false)
      else (record added { agents = count_more i.agent_id db.agents }, true)

  -- `GetInstall`.
  unfoldable pub find_install : Text → Text → Database → Fetched AgentInstall
  find_install user agent db =
      if fails get_install then broken else first (of_user user agent) db.installs

  -- An agent that the marketplace shows.
  unfoldable pub public_agent : Text → Database → Guarded Agent
  unfolding get_by_id
  public_agent id db = elim (get_by_id fails id db) [
    | found a ↦ if a.is_public then granted a else denied (refused 404 (text "agent_not_found"))
    | missing ↦ denied (refused 404 (text "agent_not_found"))
    | broken ↦ denied (refused 500 (text "get_failed"))
  ]

  -- `Install` behind the look at the agent, with the scopes of the request, under a new id.
  unfoldable pub install_shown :
      Guarded Agent → Text → Text → Text → Option (List Text) → Database → Database × Reply
  unfolding find_install store_install
  install_shown (denied r) user agent new_id request db = (db, r)
  install_shown (granted a) user agent new_id none db =
      if is_found (find_install user agent db)
      then (db, refused 409 (text "already_installed"))
      else (db, refused 400 (text "invalid_request"))
  install_shown (granted a) user agent new_id (some scopes) db =
      let row : AgentInstall = record {
        id = new_id;
        user_id = user;
        agent_id = agent;
        granted_scopes = scopes;
      } in
      let (stored, ok) = store_install row db in
      if is_found (find_install user agent db)
      then (db, refused 409 (text "already_installed"))
      else (stored, if ok then done 201 else refused 500 (text "install_failed"))

  -- `Install` behind the authentication.
  unfoldable pub install : Text → Text → Text → Option (List Text) → Database → Database × Reply
  unfolding public_agent install_shown
  install user agent new_id request db =
      install_shown (public_agent agent db) user agent new_id request db

  -- `Store.Uninstall` with its answer.
  unfoldable pub uninstall : Text → Text → Database → Database × Reply
  unfolding count_less
  uninstall user agent db =
      let removed : Database = record db {
        installs = filter (λ i. not (of_user user agent i)) db.installs;
      } in
      if fails delete_install
      then (db, refused 500 (text "uninstall_failed"))
      else if leb 1 (count (of_user user agent) db.installs)
      then (if fails decrement
          then (removed, refused 500 (text "uninstall_failed"))
          else (record removed { agents = count_less agent db.agents }, done 204))
      else (db, refused 404 (text "not_installed"))

  unfoldable pub change_scopes : Text → Text → Option (List Text) → Database → Database × Reply
  unfolding set_scopes
  change_scopes user agent none db = (db, refused 400 (text "invalid_request"))
  change_scopes user agent (some scopes) db =
      if fails update_scopes
      then (db, refused 500 (text "update_failed"))
      else if leb 1 (count (of_user user agent) db.installs)
      then (record db { installs = set_scopes user agent scopes db.installs }, done 204)
      else (db, refused 404 (text "not_installed"))

  -- `Store.CreateReview`. The table has an index that is unique in the user, and checks the rating.
  unfoldable pub store_review : AgentReview → Database → Database × Bool
  unfolding set_total
  store_review r db =
      let added : Database = record db { reviews = r ∷ db.reviews } in
      let total = count (about_agent r.agent_id) added.reviews in
      if fails insert_review
        || leb 1 (count (by_user r.user_id) db.reviews)
        || not (leb 1 r.rating && leb r.rating 5)
      then (db, false)
      else if fails recalculate
      then (added, false)
      else (record added { agents = set_total r.agent_id total db.agents }, true)

  unfoldable pub find_review : Text → Text → Database → Fetched AgentReview
  find_review user agent db =
      if fails get_review then broken else first (of_review user agent) db.reviews

  -- `CreateReview` behind the look at the agent, with the rating and the text of the request.
  unfoldable pub review_shown :
      Guarded Agent → Text → Text → Text → Option (ℕ × Text) → Database → Database × Reply
  unfolding find_install find_review store_review
  review_shown (denied r) user agent new_id request db = (db, r)
  review_shown (granted a) user agent new_id none db =
      if not (is_found (find_install user agent db))
      then (db, refused 403 (text "not_installed"))
      else if is_found (find_review user agent db)
      then (db, refused 409 (text "already_reviewed"))
      else (db, refused 400 (text "invalid_request"))
  review_shown (granted a) user agent new_id (some (rating, body)) db =
      let row : AgentReview = record {
        id = new_id;
        agent_id = agent;
        user_id = user;
        rating = rating;
        body = body;
        developer_reply = none;
      } in
      let (stored, ok) = store_review row db in
      if not (is_found (find_install user agent db))
      then (db, refused 403 (text "not_installed"))
      else if is_found (find_review user agent db)
      then (db, refused 409 (text "already_reviewed"))
      else if not (leb 1 rating && leb rating 5)
      then (db, refused 400 (text "invalid_rating"))
      else (stored, if ok then done 201 else refused 500 (text "create_review_failed"))

  -- `CreateReview` behind the authentication.
  unfoldable pub create_review :
      Text → Text → Text → Option (ℕ × Text) → Database → Database × Reply
  unfolding public_agent review_shown
  create_review user agent new_id request db =
      review_shown (public_agent agent db) user agent new_id request db

-- A request to the catalogue, and how it is served.
pub data Request : Type 0 where
  owner : Option Text → Text → DeveloperRequest → Request
  creation : Option Text → Text → Option Agent → Request
  installation : Text → Text → Text → Option (List Text) → Request
  removal : Text → Text → Request
  scoping : Text → Text → Option (List Text) → Request
  review : Text → Text → Text → Option (ℕ × Text) → Request

unfoldable pub serve :
    (Statement → Bool) → List (Text × Bool) → Request → Database → Database × Reply
unfolding handle_owner create install uninstall change_scopes create_review
serve fails developers (owner caller id q) db = handle_owner fails caller developers id q db
serve fails developers (creation caller new_id q) db = create fails caller developers new_id q db
serve fails developers (installation user agent new_id q) db = install fails user agent new_id q db
serve fails developers (removal user agent) db = uninstall fails user agent db
serve fails developers (scoping user agent q) db = change_scopes fails user agent q db
serve fails developers (review user agent new_id q) db = create_review fails user agent new_id q db
