-- ===== src/IceServers/Tests.antt =====
-- Two lists, a TURN server, and the theorems at them.
use voice_backend.Common.{ℕ, ◌≡◌, refl, Text, text, Text-discrete, List, [], ◌∷◌, ◌++◌, map, All}
use voice_backend.SentenceBuffer.{join, trim_space}
use voice_backend.IceServers.{server_at, parse_ice_servers, parse_cors_origins, parse_list, Config}
use voice_backend.IceServers.Lists.{IsEntry, parse-join_entries}

abbrev urls : List Text
urls = text "b" ∷ []

urls-IsEntry : All IsEntry (text "a" ∷ urls)
unfolding Text-discrete trim_space
urls-IsEntry = ((refl, refl, (refl, tt)), ((refl, refl, (refl, tt)), tt))

parse-join_entries_example :
    (parse_ice_servers (join (b',' ∷ []) (text "a" ∷ urls)) ≡ map server_at (text "a" ∷ urls))
    × (parse_cors_origins (join (b',' ∷ []) (text "a" ∷ urls)) ≡ text "a" ∷ urls)
parse-join_entries_example = parse-join_entries (text "a") urls urls-IsEntry

trimmed : parse_list (text " a,, b c ,") ≡ text "a" ∷ text "b c" ∷ []
unfolding parse_list Text-discrete
trimmed = refl

abbrev config : Config
config = record {
  ice_servers = server_at (text "stun:x") ∷ [];
  turn_server = text "t.org, u.org";
  turn_secret = text "s";
  turn_ttl = 0;
}

abbrev sign : Text → Text → Text
sign key message = key ++ message

abbrev format : ℕ → Text
format n = n ∷ []
