-- ===== src/RealtimeApi.antt =====
-- internal/realtime/handler.go, with CreateSession, GetSession and RemoveSession of internal/realtime/manager.go and ProvideAuthFunc
-- of internal/bootstrap/voice.go: how a client opens a session and exchanges ICE candidates. What the WebRTC
-- library and the start of the voice session answer comes from outside, as do the reading of JSON and of
-- tokens and the id that is drawn at random. The sending loop of HandleICEStream is left out.
pub mod Offers
pub mod Profiles
mod Tests
use voice_backend.Common.{
  ℕ, ◌+◌, Text, text, Bool, true, false, not, ◌&&◌, ◌||◌, List, [], ◌∷◌, ◌++◌, Option, none, some,
  ◌==◌, ◌=ℕ◌, take, if◌then◌else◌,
}
use voice_backend.Common.Map.{lookup, insert, delete, is_some}
use voice_backend.Gateway.Access.{cut_prefix}
use voice_backend.Scopes.{UserContext}

pub record UserProfile : Type 0 where
  pub user_id : Text
  pub name : Text
  pub email : Text

pub record Claims : Type 0 where
  pub user_id : Text
  pub email : Text
  pub name : Text
  pub avatar_url : Text

abbrev pub profile_of : Option Claims → Option UserProfile
profile_of none = none
profile_of (some c) = some (record { user_id = c.user_id; name = []; email = [] })

-- `claims_of` is the validator, on the whole header.
unfoldable pub auth_func : (Text → Option Claims) → Text → Option UserProfile
unfolding cut_prefix
auth_func claims_of header =
    if header == []
    then none
    else if is_some (cut_prefix (text "Bearer ") header)
    then profile_of (claims_of header)
    else none

-- A part of a form: its name and its content, if it can be read; or an error of the reader.
pub data Part : Type 0 where
  part : Text → Option Text → Part
  part_error : Part

pub record OfferRequest : Type 0 where
  pub authorization : Text
  pub real_ip : Text
  pub remote_addr : Text
  pub media_type : Text
  pub boundary : Text
  pub body : Option Text
  pub parts : List Part

module _ {C : Type 0} (parse_config : Text → Option C)
    (parse_offer : Text → Option (Text × Option C)) where
  abbrev pub limited : ℕ → Option Text → Option Text
  limited size none = none
  limited size (some b) = some (take size b)

  abbrev pub bare : Option Text → Option (Text × Option C)
  bare none = none
  bare (some sdp) = some (sdp, none)

  abbrev pub from_json : Option Text → Option (Text × Option C)
  from_json none = none
  from_json (some b) = parse_offer b

  -- The loop over the parts, with what it has read so far.
  unfoldable pub read_parts : ℕ → Text → Option C → List Part → Option (Text × Option C)
  read_parts size sdp cfg [] = if sdp == [] then none else some (sdp, cfg)
  read_parts size sdp cfg (part_error ∷ ps) = none
  read_parts size sdp cfg (part name content ∷ ps) =
      let as_sdp : Option (Text × Option C) = elim (limited size content) [
        | none ↦ none
        | some s ↦ read_parts size s cfg ps
      ] in
      let as_session : Option (Text × Option C) = elim (limited size content) [
        | none ↦ none
        | some s ↦ elim (parse_config s) [ none ↦ none | some c ↦ read_parts size sdp (some c) ps ]
      ] in
      let other : Option (Text × Option C) = read_parts size sdp cfg ps in
      if name == text "sdp" then as_sdp else if name == text "session" then as_session else other

  -- `extractRequest`.
  unfoldable pub extract_request : ℕ → OfferRequest → Option (Text × Option C)
  unfolding read_parts
  extract_request size r =
      if r.media_type == text "application/sdp"
      then bare (limited size r.body)
      else if r.media_type == text "multipart/form-data"
      then (if r.boundary == [] then none else read_parts size [] none r.parts)
      else if r.media_type == text "application/json" || r.media_type == []
      then from_json (limited size r.body)
      else none

-- `maxSDPSize`.
unfoldable pub max_sdp_size : ℕ → ℕ
max_sdp_size n = if n =ℕ 0 then 65536 else n

pub record Session : Type 0 where
  pub user_id : Text

abbrev pub Sessions : Type 0
Sessions = List (Text × Session)

-- What happens while an offer is handled: whether the peer is created and takes the offer, whether the connection is created, the peer's answer, whether the voice session starts, and
-- the id of the session.
pub record Course : Type 0 where
  pub peer_created : Bool
  pub offer_set : Bool
  pub conn_created : Bool
  pub answer : Option Text
  pub started : Bool
  pub id : Text

pub data Reply : Type 0 where
  refused : ℕ → Reply
  answered : Text → Text → Reply  -- the session's id and the answer

-- The end of HandleOffer, once the session stands in the table.
unfoldable pub finish_offer : Course → Option Text → Sessions → Sessions × Reply
finish_offer c none ss = (delete c.id ss, refused 500)
finish_offer c (some answer) ss =
    if c.started then (ss, answered c.id answer) else (delete c.id ss, refused 500)

unfoldable pub open_session : Course → Text → Sessions → Sessions × Reply
unfolding finish_offer
open_session c user ss =
    if not c.peer_created
    then (ss, refused 500)
    else if not c.offer_set
    then (ss, refused 400)
    else if not c.conn_created
    then (ss, refused 500)
    else finish_offer c c.answer (insert c.id (record { user_id = user }) ss)

abbrev pub or_addr : Text → Text → Text
or_addr addr ip = if ip == [] then addr else ip

-- The context of the user that the voice session is started with.
unfoldable pub user_context : OfferRequest → UserProfile → UserContext
user_context r p = record {
  user_id = p.user_id;
  ip = or_addr r.remote_addr r.real_ip;
  name = p.name;
  email = p.email;
}

abbrev pub with_sdp {ℓ} :
    {C : Type ℓ} → Course → Text → Sessions → Option (Text × C) → Sessions × Reply
unfolding open_session
with_sdp c user ss none = (ss, refused 400)
with_sdp c user ss (some (sdp, cfg)) =
    if sdp == [] then (ss, refused 400) else open_session c user ss

abbrev pub with_profile {ℓ} :
    {C : Type ℓ} → Course → Sessions → Option (Text × C) → Option UserProfile → Sessions × Reply
unfolding with_sdp
with_profile c ss extracted none = (ss, refused 401)
with_profile c ss extracted (some p) = with_sdp c p.user_id ss extracted

-- `HandleOffer`, by what is extracted from the request.
unfoldable pub handle_offer {ℓ} :
    {C : Type ℓ}
    → (Text → Option Claims)
    → Course
    → OfferRequest
    → Option (Text × C)
    → Sessions
    → Sessions × Reply
unfolding auth_func with_profile
handle_offer claims_of c r extracted ss =
    with_profile c ss extracted (auth_func claims_of r.authorization)

-- Which session a request for candidates may use.
pub data Permission : Type 0 where
  denied : ℕ → Permission
  permitted : Session → Permission

abbrev pub check_owner : Text → Option Session → Permission
check_owner user none = denied 404
check_owner user (some s) = if s.user_id == user then permitted s else denied 403

abbrev pub find_for : Text → Sessions → Option UserProfile → Permission
find_for id ss none = denied 401
find_for id ss (some p) = if id == [] then denied 400 else check_owner p.user_id (lookup id ss)

-- The checks that HandleICECandidate and HandleICEStream share.
unfoldable pub candidate_access : (Text → Option Claims) → Text → Text → Sessions → Permission
unfolding auth_func
candidate_access claims_of authorization id ss = find_for id ss (auth_func claims_of authorization)

-- `HandleICECandidate`: the status, by whether the body can be read and the peer takes the candidate.
abbrev pub candidate_status : Bool → Bool → Permission → ℕ
candidate_status bound added (denied status) = status
candidate_status bound added (permitted s) =
    if not bound then 400 else if not added then 400 else 204

unfoldable pub handle_ice_candidate :
    (Text → Option Claims) → Text → Text → Bool → Bool → Sessions → ℕ
unfolding candidate_access
handle_ice_candidate claims_of authorization id bound added ss =
    candidate_status bound added (candidate_access claims_of authorization id ss)
