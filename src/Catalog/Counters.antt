-- ===== src/Catalog/Counters.antt =====
-- The counter of active installs of an agent is the number of its installs.
use voice_backend.Common.{
  ℕ, ◌≤◌, ◌≡◌, inl, inr, refl, sym, subst, ◌∙◌, Text, Bool, true, false, not, ◌||◌, ◌&&◌, List, [],
  ◌∷◌, Option, none, some, leb, filter, arith, All, All-map, if◌then◌else◌, Bool-cases, ==→eq,
}
use voice_backend.Catalog.{
  Agent, AgentInstall, Database, Statement, increment, decrement, Guarded, granted, denied, count,
  of_user, of_agent, owned_agent, require_developer, handle_owner, create, AgentReview,
  insert_install, delete_install, update_scopes, insert_review, recalculate, count_more, count_less,
  set_scopes,
}
use voice_backend.Catalog.Installs.{
  install, install_shown, uninstall, change_scopes, create_review, review_shown, store_install,
  store_review, public_agent, find_install, find_review, is_found, set_total, about_agent, by_user,
  Request, owner, creation, installation, removal, scoping, review, serve,
}
use voice_backend.Catalog.Rows.{
  pick, Agrees, count_more-Agrees, count_less-Agrees, count-filter-le, set_total-Agrees,
  set_scopes-count,
}
use voice_backend.Catalog.Counted.{
  IsCounted, choose, serve_granted-IsCounted, create_granted-IsCounted,
}

added_unique :
    (i : AgentInstall) (db : Database) (u a : Text)
    → count (of_user i.user_id i.agent_id) db.installs ≡ 0
    → count (of_user u a) db.installs ≤ 1
    → count (of_user u a) (i ∷ db.installs) ≤ 1
added_unique i db u a none_yet h = elim (Bool-cases (of_user u a i)) [
  | inl e ↦
      let same_user = ==→eq i.user_id u (ground (arith, e)) in
      let same_agent = ==→eq i.agent_id a (ground (arith, e)) in
      let moved =
        subst (λ (v : Text). count (of_user v a) db.installs ≡ 0) same_user
          (subst (λ (b : Text). count (of_user i.user_id b) db.installs ≡ 0) same_agent none_yet) in
      ground (arith, e, moved)
  | inr e ↦ ground (arith, e, h)
]

store_install-IsCounted :
    (fails : Statement → Bool) (i : AgentInstall) (db : Database)
    → fails increment ≡ false
    → IsCounted db
    → IsCounted (store_install fails i db).0
unfolding store_install
store_install-IsCounted fails i db f h =
    choose (fails insert_install || leb 1 (count (of_user i.user_id i.agent_id) db.installs)) db
      (record db { installs = i ∷ db.installs; agents = count_more i.agent_id db.agents })
      (ground (arith, f)) (λ e. h)
      (λ e. record {
        unique = λ u a. added_unique i db u a (ground (arith, e)) (h.unique u a);
        counted = count_more-Agrees i db.installs db.agents h.counted;
      })

install_shown-IsCounted :
    (fails : Statement → Bool) (user agent new_id : Text) (q : Option (List Text)) (db : Database)
    (g : Guarded Agent)
    → fails increment ≡ false
    → IsCounted db
    → IsCounted (install_shown fails g user agent new_id q db).0
unfolding install_shown
install_shown-IsCounted fails user agent new_id q db (denied r) f h = h
install_shown-IsCounted fails user agent new_id none db (granted a) f h =
    choose (is_found (find_install fails user agent db)) db db (ground arith) (λ e. h) (λ e. h)
install_shown-IsCounted fails user agent new_id (some scopes) db (granted a) f h =
    let row : AgentInstall = record {
      id = new_id;
      user_id = user;
      agent_id = agent;
      granted_scopes = scopes;
    } in
    choose (is_found (find_install fails user agent db)) db (store_install fails row db).0
      (ground arith) (λ e. h) (λ e. store_install-IsCounted fails row db f h)

uninstall-IsCounted :
    (fails : Statement → Bool) (user agent : Text) (db : Database)
    → fails decrement ≡ false
    → IsCounted db
    → IsCounted (uninstall fails user agent db).0
unfolding uninstall
uninstall-IsCounted fails user agent db f h =
    choose (not (fails delete_install) && leb 1 (count (of_user user agent) db.installs))
      (record db {
        installs = filter (λ i. not (of_user user agent i)) db.installs;
        agents = count_less agent db.agents;
      })
      db (ground (arith, f))
      (λ e. record {
        unique = λ u a. omega (
          arith,
          h.unique u a,
          count-filter-le (of_user u a) (λ i. not (of_user user agent i)) db.installs,
        );
        counted =
            count_less-Agrees user agent db.installs db.agents
              (ground (arith, e, h.unique user agent)) h.counted;
      })
      (λ e. h)

change_scopes-IsCounted :
    (fails : Statement → Bool) (user agent : Text) (q : Option (List Text)) (db : Database)
    → IsCounted db
    → IsCounted (change_scopes fails user agent q db).0
unfolding change_scopes
change_scopes-IsCounted fails user agent none db h = h
change_scopes-IsCounted fails user agent (some scopes) db h =
    choose (not (fails update_scopes) && leb 1 (count (of_user user agent) db.installs))
      (record db { installs = set_scopes user agent scopes db.installs }) db (ground arith)
      (λ e. record {
        unique = λ u a.
            omega (arith, h.unique u a, (set_scopes-count user agent scopes u a db.installs).0);
        counted =
            All-map
              (λ (a : Agent) c. c ∙ sym (set_scopes-count user agent scopes [] a.id db.installs).1)
              db.agents h.counted;
      })
      (λ e. h)

store_review-IsCounted :
    (fails : Statement → Bool) (r : AgentReview) (db : Database)
    → IsCounted db
    → IsCounted (store_review fails r db).0
unfolding store_review
store_review-IsCounted fails r db h =
    let total = set_total r.agent_id (count (about_agent r.agent_id) (r ∷ db.reviews)) db.agents in
    choose
      (fails insert_review
        || leb 1 (count (by_user r.user_id) db.reviews)
        || not (leb 1 r.rating && leb r.rating 5))
      db
      (record db {
        reviews = r ∷ db.reviews;
        agents = if fails recalculate then db.agents else total;
      })
      (ground arith) (λ e. h)
      (λ e. record {
        unique = h.unique;
        counted =
            pick (All (Agrees db.installs)) (fails recalculate) db.agents total (λ k. h.counted)
              (λ k. set_total-Agrees r.agent_id _ db.installs db.agents h.counted);
      })

review_shown-IsCounted :
    (fails : Statement → Bool) (user agent new_id : Text) (q : Option (ℕ × Text)) (db : Database)
    (g : Guarded Agent)
    → IsCounted db
    → IsCounted (review_shown fails g user agent new_id q db).0
unfolding review_shown
review_shown-IsCounted fails user agent new_id q db (denied r) h = h
review_shown-IsCounted fails user agent new_id none db (granted a) h =
    choose true db db (ground arith) (λ e. h) (λ e. h)
review_shown-IsCounted fails user agent new_id (some (rating, body)) db (granted a) h =
    let row : AgentReview = record {
      id = new_id;
      agent_id = agent;
      user_id = user;
      rating = rating;
      body = body;
      developer_reply = none;
    } in
    choose
      (not (is_found (find_install fails user agent db))
        || is_found (find_review fails user agent db)
        || not (leb 1 rating && leb rating 5))
      db (store_review fails row db).0 (ground arith) (λ e. h)
      (λ e. store_review-IsCounted fails row db h)

-- The id of a new agent belongs to no install that is there.
abbrev pub HasFreshId : Request → Database → Type 0
HasFreshId (creation caller new_id q) db = count (of_agent new_id) db.installs ≡ 0
HasFreshId _ db = Unit

-- Every request to the catalogue, whoever makes it and whether it is refused, keeps this: a user has an agent at
-- most once, and each agent's counter of active installs is the number of its rows in the table of installs;
-- provided that the two statements which move the counters do not fail, and that a new agent gets a new id.
pub serve-IsCounted :
    (fails : Statement → Bool) (developers : List (Text × Bool)) (q : Request) (db : Database)
    → fails increment ≡ false
    → fails decrement ≡ false
    → HasFreshId q db
    → IsCounted db
    → IsCounted (serve fails developers q db).0
unfolding serve handle_owner create install create_review
serve-IsCounted fails devs (owner caller id q) db f g n h =
    serve_granted-IsCounted fails devs caller id q db (owned_agent fails caller devs id db) refl h
serve-IsCounted fails devs (creation caller new_id q) db f g n h =
    create_granted-IsCounted fails new_id q db (require_developer fails caller devs) n h
serve-IsCounted fails devs (installation user agent new_id q) db f g n h =
    install_shown-IsCounted fails user agent new_id q db (public_agent fails agent db) f h
serve-IsCounted fails devs (removal user agent) db f g n h =
    uninstall-IsCounted fails user agent db g h
serve-IsCounted fails devs (scoping user agent q) db f g n h =
    change_scopes-IsCounted fails user agent q db h
serve-IsCounted fails devs (review user agent new_id q) db f g n h =
    review_shown-IsCounted fails user agent new_id q db (public_agent fails agent db) h
