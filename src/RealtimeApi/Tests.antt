-- ===== src/RealtimeApi/Tests.antt =====
-- An offer that is answered, a request of its owner, and the theorems at them.
use voice_backend.Common.{
  ◌≡◌, refl, Text, text, Text-discrete, true, Option, none, some, [], ◌∷◌, contains,
}
use voice_backend.Common.Map.{lookup, insert}
use voice_backend.Scopes.{build_user, scope_location, scope_profile}
use voice_backend.RealtimeApi.{
  Claims, auth_func, OfferRequest, Sessions, Course, handle_offer, candidate_access, user_context,
  part, extract_request, handle_ice_candidate,
}
use voice_backend.RealtimeApi.Offers.{user_of, offer-owner_only}
use voice_backend.RealtimeApi.Profiles.{only_ip, call-unnamed}

-- A token of any kind belongs to the user "u", whose claims hold a name.
abbrev claims_of : Text → Option Claims
claims_of header =
    some (record { user_id = text "u"; email = text "e"; name = text "n"; avatar_url = [] })

abbrev header : Text
header = text "Bearer t"

abbrev request : OfferRequest
request = record {
  authorization = header;
  real_ip = [];
  remote_addr = text "1.2.3.4";
  media_type = text "multipart/form-data";
  boundary = text "b";
  body = none;
  parts = part (text "sdp") (some (text "offer")) ∷ part (text "other") none ∷ [];
}

abbrev course : Course
course = record {
  peer_created = true;
  offer_set = true;
  conn_created = true;
  answer = some (text "answer");
  started = true;
  id = text "s2";
}

abbrev table : Sessions
table = (text "s1", record { user_id = text "v" }) ∷ []

abbrev extracted : Option (Text × Option Text)
extracted = extract_request some (λ b. none) 100 request

extracted_sdp : extracted ≡ some (text "offer", none)
unfolding extract_request Text-discrete
extracted_sdp = refl

abbrev offer : Option (Text × Option Text)
offer = some (text "offer", none)

offer-owner_only_example :
    user_of (auth_func claims_of header) ≡ user_of (auth_func claims_of header)
unfolding lookup insert Text-discrete handle_offer candidate_access
offer-owner_only_example =
    offer-owner_only claims_of course request offer table (text "s2") (text "answer") header
      (record { user_id = text "u" }) refl refl refl

call-unnamed_example :
    build_user
      (user_context request (record { user_id = text "u"; name = []; email = [] }))
      (scope_profile ∷ scope_location ∷ [])
    ≡ only_ip
        (contains (scope_profile ∷ scope_location ∷ []) scope_location)
        (user_context request (record { user_id = text "u"; name = []; email = [] })).ip
unfolding auth_func Text-discrete
call-unnamed_example =
    call-unnamed claims_of request (record { user_id = text "u"; name = []; email = [] })
      (scope_profile ∷ scope_location ∷ []) refl

forbidden : handle_ice_candidate claims_of header (text "s1") true true table ≡ 403
unfolding handle_ice_candidate lookup Text-discrete
forbidden = refl
