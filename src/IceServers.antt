-- ===== src/IceServers.antt =====
-- The servers through which a client and this server find a path to each other: the lists of internal/bootstrap/config.go,
-- and iceServers, ICEServers and generateTURNCredentials of internal/realtime/manager.go with the answer of
-- internal/realtime/handler.go. `sign` is the encoded HMAC of a text by the secret and `format` prints a
-- number; instants and the time to live are in seconds, and a time to live of 0 stands for all that are not
-- positive. White space is that of ASCII.
pub mod Lists
pub mod Turn
mod Tests
use voice_backend.Common.{
  ℕ, ◌+◌, Text, text, Bool, true, false, not, ◌&&◌, List, [], ◌∷◌, ◌++◌, map, ◌==◌, ◌=ℕ◌,
  if◌then◌else◌,
}
use voice_backend.SentenceBuffer.{trim_space}

-- `strings.Split(s, ",")`, with `part` read so far.
unfoldable pub split_from : Text → Text → List Text
split_from part [] = part ∷ []
split_from part (c ∷ s) =
    let here = part ∷ split_from [] s in
    let on = split_from (part ++ c ∷ []) s in if c =ℕ b',' then here else on

-- The loop that all lists of the configuration share: the trimmed parts that are not empty.
unfoldable pub listed : List Text → List Text
unfolding trim_space
listed [] = []
listed (s ∷ parts) =
    let rest = listed parts in if trim_space s == [] then rest else trim_space s ∷ rest

unfoldable pub parse_list : Text → List Text
unfolding split_from listed
parse_list s = listed (split_from [] s)

pub record IceServer : Type 0 where
  pub urls : List Text
  pub username : Text
  pub credential : Text

abbrev pub server_at : Text → IceServer
server_at url = record { urls = url ∷ []; username = []; credential = [] }

abbrev pub default_stun : Text
default_stun = text "stun:stun.l.google.com:19302"

abbrev pub or_stun : List IceServer → List IceServer
or_stun [] = server_at default_stun ∷ []
or_stun (s ∷ servers) = s ∷ servers

unfoldable pub parse_ice_servers : Text → List IceServer
unfolding parse_list
parse_ice_servers env =
    if env == [] then server_at default_stun ∷ [] else or_stun (map server_at (parse_list env))

unfoldable pub parse_cors_origins : Text → List Text
unfolding parse_list
parse_cors_origins env = if env == [] then [] else parse_list env

pub record Config : Type 0 where
  pub ice_servers : List IceServer
  pub turn_server : Text
  pub turn_secret : Text
  pub turn_ttl : ℕ

-- How a configured server is handed to the peer connection: without a user name there is no credential.
unfoldable pub peer_server : IceServer → IceServer
peer_server s =
    if s.username == [] then record { urls = s.urls; username = []; credential = [] } else s

module _ (sign : Text → Text → Text) (format : ℕ → Text) where
  pub record TurnCredentials : Type 0 where
    pub username : Text
    pub credential : Text

  unfoldable pub generate_turn_credentials : ℕ → ℕ → Config → TurnCredentials
  generate_turn_credentials now ttl cfg =
      let username = format (now + ttl) in
      record { username = username; credential = sign cfg.turn_secret username }

  abbrev pub turn_at : TurnCredentials → Text → IceServer
  turn_at c url = record {
    urls = (text "turn:" ++ url) ∷ [];
    username = c.username;
    credential = c.credential;
  }

  unfoldable pub turn_servers : ℕ → ℕ → Config → List IceServer
  unfolding generate_turn_credentials parse_list
  turn_servers now ttl cfg =
      if not (cfg.turn_server == []) && not (cfg.turn_secret == [])
      then map (turn_at (generate_turn_credentials now ttl cfg)) (parse_list cfg.turn_server)
      else []

  -- `iceServers`, for the peer connection of this server.
  unfoldable pub peer_ice_servers : ℕ → Config → List IceServer
  unfolding turn_servers peer_server
  peer_ice_servers now cfg =
      or_stun (map peer_server cfg.ice_servers ++ turn_servers now cfg.turn_ttl cfg)

  -- `ICEServers`, for the client.
  unfoldable pub client_ice_servers : ℕ → Config → List IceServer
  unfolding turn_servers
  client_ice_servers now cfg =
      let ttl = if cfg.turn_ttl =ℕ 0 then 86400 else cfg.turn_ttl in
      cfg.ice_servers ++ turn_servers now ttl cfg

  -- `iceServersResponse`.
  unfoldable pub ice_servers_response : ℕ → Config → List IceServer
  unfolding client_ice_servers
  ice_servers_response now cfg = or_stun (client_ice_servers now cfg)
