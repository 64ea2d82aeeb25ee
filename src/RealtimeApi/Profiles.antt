-- ===== src/RealtimeApi/Profiles.antt =====
-- What an agent learns of a user who calls over WebRTC: ProvideAuthFunc (internal/bootstrap/voice.go), the context that HandleOffer makes of
-- its profile (internal/realtime/handler.go), and buildPayload (internal/voicesession/session.go).
use voice_backend.Common.{
  ◌≡◌, Text, Bool, false, not, ◌&&◌, Option, none, some, ◌==◌, Text-discrete, if◌then◌else◌, List,
  [], arith, contains,
}
use voice_backend.Scopes.{
  build_user, UserInfo, UserContext, scope_location, scope_profile, scope_email,
}
use voice_backend.RealtimeApi.{
  UserProfile, Claims, profile_of, auth_func, OfferRequest, user_context,
}

-- What an agent may at most be told of such a user: the address.
abbrev pub only_ip : Bool → Text → Option UserInfo
only_ip allowed ip =
    if allowed && not (ip == []) then some (record { name = []; email = []; ip = ip }) else none

and_not_nil : (b : Bool) (x : Text) → x ≡ [] → (b && not (x == [])) ≡ false
unfolding Text-discrete
and_not_nil b x e = ground (arith, e)

build_user_unnamed :
    (ctx : UserContext) (scopes : List Text)
    → ctx.name ≡ []
    → ctx.email ≡ []
    → build_user ctx scopes ≡ only_ip (contains scopes scope_location) ctx.ip
unfolding build_user
build_user_unnamed ctx scopes n e = rw (
  and_not_nil (contains scopes scope_profile) ctx.name n,
  and_not_nil (contains scopes scope_email) ctx.email e,
)

profile_of_unnamed :
    (claims : Option Claims) (p : UserProfile)
    → profile_of claims ≡ some p
    → (p.name ≡ []) × (p.email ≡ [])
profile_of_unnamed none p made = ground (arith, made)
profile_of_unnamed (some c) p made = (ground (arith, made), ground (arith, made))

auth_func_unnamed :
    (claims_of : Text → Option Claims) (header : Text) (p : UserProfile)
    → auth_func claims_of header ≡ some p
    → (p.name ≡ []) × (p.email ≡ [])
unfolding auth_func
auth_func_unnamed claims_of header p made =
    ground (arith, made, profile_of_unnamed (claims_of header) p)

-- Whatever scopes a user who is authenticated for a call over WebRTC has granted to an agent, the payload tells the
-- agent neither name nor email: no more than the address, if the scope of the location is granted.
pub call-unnamed :
    (claims_of : Text → Option Claims) (r : OfferRequest) (p : UserProfile) (scopes : List Text)
    → auth_func claims_of r.authorization ≡ some p
    → build_user (user_context r p) scopes
      ≡ only_ip (contains scopes scope_location) (user_context r p).ip
unfolding user_context
call-unnamed claims_of r p scopes made =
    let unnamed = auth_func_unnamed claims_of r.authorization p made in
    build_user_unnamed (user_context r p) scopes unnamed.0 unnamed.1
