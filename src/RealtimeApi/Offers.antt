-- ===== src/RealtimeApi/Offers.antt =====
-- What an offer does to the table of sessions (internal/realtime/handler.go), and who may use the session
-- that it opens.
use voice_backend.Common.{◌≡◌, refl, Text, Option, none, some, List, [], ◌∷◌, arith}
use voice_backend.Common.Map.{lookup, insert, delete, lookup-insert}
use voice_backend.RealtimeApi.{
  UserProfile, Claims, auth_func, OfferRequest, Session, Sessions, Course, Reply, refused, answered,
  finish_offer, open_session, with_profile, handle_offer, permitted, check_owner, find_for,
  candidate_access,
}

abbrev pub user_of : Option UserProfile → Text
user_of none = []
user_of (some p) = p.user_id

delete-insert_fresh {ℓ} :
    {V : Type ℓ} (k : Text) (v : V) (m : List (Text × V))
    → lookup k m ≡ none
    → delete k (insert k v m) ≡ m
unfolding lookup insert delete
delete-insert_fresh k v [] fresh = ground arith
delete-insert_fresh k v (e ∷ m) fresh = ground (arith, delete-insert_fresh k v m)

-- The table behind a reply to an offer of this user.
abbrev pub table_after : Text → Reply → Sessions → Sessions
table_after user (refused status) ss = ss
table_after user (answered id answer) ss = insert id (record { user_id = user }) ss

finish_offer-table :
    (c : Course) (user : Text) (answer : Option Text) (ss : Sessions)
    → lookup c.id ss ≡ none
    → (finish_offer c answer (insert c.id (record { user_id = user }) ss)).0
      ≡ table_after user (finish_offer c answer (insert c.id (record { user_id = user }) ss)).1 ss
unfolding finish_offer
finish_offer-table c user none ss fresh =
    delete-insert_fresh c.id (record { user_id = user }) ss fresh
finish_offer-table c user (some a) ss fresh =
    ground (arith, delete-insert_fresh c.id (record { user_id = user }) ss fresh)

open_session-table :
    (c : Course) (user : Text) (ss : Sessions)
    → lookup c.id ss ≡ none
    → (open_session c user ss).0 ≡ table_after user (open_session c user ss).1 ss
unfolding open_session
open_session-table c user ss fresh = ground (arith, finish_offer-table c user c.answer ss fresh)

with_profile-table {ℓ} :
    {C : Type ℓ} (c : Course) (ss : Sessions) (extracted : Option (Text × C))
    (p : Option UserProfile)
    → lookup c.id ss ≡ none
    → (with_profile c ss extracted p).0
      ≡ table_after (user_of p) (with_profile c ss extracted p).1 ss
unfolding with_profile
with_profile-table c ss extracted none fresh = refl
with_profile-table c ss none (some p) fresh = refl
with_profile-table c ss (some (sdp, cfg)) (some p) fresh =
    ground (arith, open_session-table c p.user_id ss fresh)

-- For all courses of events with an id that is not in the table: a refused offer leaves the table of sessions
-- as it is, and an answered one puts in one session, under the id of the reply and owned by the user that the
-- request authenticates.
handle_offer-table {ℓ} :
    {C : Type ℓ} (claims_of : Text → Option Claims) (c : Course) (r : OfferRequest)
    (extracted : Option (Text × C)) (ss : Sessions)
    → lookup c.id ss ≡ none
    → (handle_offer claims_of c r extracted ss).0
      ≡ table_after
          (user_of (auth_func claims_of r.authorization))
          (handle_offer claims_of c r extracted ss).1
          ss
unfolding handle_offer
handle_offer-table claims_of c r extracted ss fresh =
    with_profile-table c ss extracted (auth_func claims_of r.authorization) fresh

check_owner-owner :
    (user : Text) (found : Option Session) (s : Session)
    → check_owner user found ≡ permitted s
    → found ≡ some (record { user_id = user })
check_owner-owner user none s ok = ground (arith, ok)
check_owner-owner user (some t) s ok = ground (arith, ok)

find_for-owner :
    (id : Text) (ss : Sessions) (p : Option UserProfile) (s : Session)
    → find_for id ss p ≡ permitted s
    → lookup id ss ≡ some (record { user_id = user_of p })
find_for-owner id ss none s ok = ground (arith, ok)
find_for-owner id ss (some p) s ok =
    ground (arith, ok, check_owner-owner p.user_id (lookup id ss) s)

-- Once an offer with an id that is not in the table is answered, a request about the candidates of that
-- session is let through only if it authenticates the user whose offer it was.
pub offer-owner_only {ℓ} :
    {C : Type ℓ} (claims_of : Text → Option Claims) (c : Course) (r : OfferRequest)
    (extracted : Option (Text × C)) (ss : Sessions) (id answer header : Text) (s : Session)
    → lookup c.id ss ≡ none
    → (handle_offer claims_of c r extracted ss).1 ≡ answered id answer
    → candidate_access claims_of header id (handle_offer claims_of c r extracted ss).0 ≡ permitted s
    → user_of (auth_func claims_of header) ≡ user_of (auth_func claims_of r.authorization)
unfolding candidate_access
offer-owner_only claims_of c r extracted ss id answer header s fresh done ok =
    let owner =
      find_for-owner id (handle_offer claims_of c r extracted ss).0 (auth_func claims_of header) s
        ok in
    ground (
      arith,
      owner,
      done,
      handle_offer-table claims_of c r extracted ss fresh,
      lookup-insert id id (record { user_id = user_of (auth_func claims_of r.authorization) }) ss,
    )
