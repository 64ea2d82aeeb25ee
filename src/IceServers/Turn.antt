-- ===== src/IceServers/Turn.antt =====
-- What the client and the peer connection are handed.
use voice_backend.Common.{
  ℕ, ◌+◌, ◌≡◌, refl, ap, sym, ◌∙◌, Text, text, List, [], ◌∷◌, ◌++◌, map, ◌==◌, ◌=ℕ◌, All,
  if◌then◌else◌, arith, Bool-cases, inl, inr, not, ◌&&◌,
}
use voice_backend.IceServers.{
  IceServer, default_stun, or_stun, Config, peer_server, TurnCredentials, generate_turn_credentials,
  turn_at, turn_servers, peer_ice_servers, client_ice_servers, ice_servers_response, parse_list,
}

-- The URLs of each server.
abbrev pub urls_of : List IceServer → List (List Text)
urls_of [] = []
urls_of (s ∷ ss) = s.urls ∷ urls_of ss

urls_of-append : (xs ys : List IceServer) → urls_of (xs ++ ys) ≡ urls_of xs ++ urls_of ys
urls_of-append [] ys = refl
urls_of-append (x ∷ xs) ys = ap (◌∷◌ x.urls) (urls_of-append xs ys)

urls_of-peer : (ss : List IceServer) → urls_of (map peer_server ss) ≡ urls_of ss
unfolding peer_server
urls_of-peer [] = refl
urls_of-peer (s ∷ ss) = ground (arith, urls_of-peer ss)

abbrev or_stun_urls : List (List Text) → List (List Text)
or_stun_urls [] = (default_stun ∷ []) ∷ []
or_stun_urls (u ∷ us) = u ∷ us

urls_of-or_stun : (xs : List IceServer) → urls_of (or_stun xs) ≡ or_stun_urls (urls_of xs)
urls_of-or_stun [] = refl
urls_of-or_stun (x ∷ xs) = refl

module _ (sign : Text → Text → Text) (format : ℕ → Text) where
  urls_of-turn_at :
      (c d : TurnCredentials sign format) (us : List Text)
      → urls_of (map (turn_at sign format c) us) ≡ urls_of (map (turn_at sign format d) us)
  urls_of-turn_at c d [] = refl
  urls_of-turn_at c d (u ∷ us) = ap (◌∷◌ ((text "turn:" ++ u) ∷ [])) (urls_of-turn_at c d us)

  urls_of-turn_servers :
      (now t u : ℕ) (cfg : Config)
      → urls_of (turn_servers sign format now t cfg) ≡ urls_of (turn_servers sign format now u cfg)
  unfolding turn_servers
  urls_of-turn_servers now t u cfg =
      elim (Bool-cases (not (cfg.turn_server == []) && not (cfg.turn_secret == []))) [
        | inl e ↦ rw e (
            urls_of-turn_at (generate_turn_credentials sign format now t cfg)
              (generate_turn_credentials sign format now u cfg) (parse_list cfg.turn_server))
        | inr e ↦ rw e refl
      ]

  abbrev IsNamed : Text → IceServer → Type 0
  IsNamed name s = s.username ≡ name

  named :
      (c : TurnCredentials sign format) (us : List Text)
      → All (IsNamed c.username) (map (turn_at sign format c) us)
  named c [] = tt
  named c (u ∷ us) = (refl, named c us)

  turn_servers-IsNamed :
      (now ttl : ℕ) (cfg : Config)
      → All (IsNamed (format (now + ttl))) (turn_servers sign format now ttl cfg)
  unfolding turn_servers generate_turn_credentials
  turn_servers-IsNamed now ttl cfg =
      elim (Bool-cases (not (cfg.turn_server == []) && not (cfg.turn_secret == []))) [
        | inl e ↦
            rw e (
              named (generate_turn_credentials sign format now ttl cfg)
                (parse_list cfg.turn_server))
        | inr e ↦ rw e tt
      ]

  all_urls :
      (now t u : ℕ) (cfg : Config)
      → urls_of (or_stun (map peer_server cfg.ice_servers ++ turn_servers sign format now t cfg))
        ≡ urls_of (or_stun (cfg.ice_servers ++ turn_servers sign format now u cfg))
  all_urls now t u cfg =
      let ours = map peer_server cfg.ice_servers ++ turn_servers sign format now t cfg in
      let theirs = cfg.ice_servers ++ turn_servers sign format now u cfg in
      let same : urls_of ours ≡ urls_of theirs = cc (
        urls_of-append (map peer_server cfg.ice_servers) (turn_servers sign format now t cfg),
        urls_of-append cfg.ice_servers (turn_servers sign format now u cfg),
        urls_of-peer cfg.ice_servers,
        urls_of-turn_servers now t u cfg,
      ) in
      urls_of-or_stun ours ∙ ap or_stun_urls same ∙ sym (urls_of-or_stun theirs)

  -- With a time to live that is not positive: the client and the peer connection of this server are handed servers
  -- with the same URLs, in the same order, but the user names for TURN of the peer connection expire at
  -- once, while those of the client expire after a day.
  ice_servers-urls :
      (now : ℕ) (cfg : Config)
      → cfg.turn_ttl ≡ 0
      → (urls_of (peer_ice_servers sign format now cfg)
          ≡ urls_of (ice_servers_response sign format now cfg))
        × (peer_ice_servers sign format now cfg
            ≡ or_stun (map peer_server cfg.ice_servers ++ turn_servers sign format now 0 cfg))
        × All (IsNamed (format (now + 0))) (turn_servers sign format now 0 cfg)
        × (client_ice_servers sign format now cfg
            ≡ cfg.ice_servers ++ turn_servers sign format now 86400 cfg)
        × All (IsNamed (format (now + 86400))) (turn_servers sign format now 86400 cfg)
  unfolding peer_ice_servers ice_servers_response client_ice_servers
  ice_servers-urls now cfg h =
      let ttl = if cfg.turn_ttl =ℕ 0 then 86400 else cfg.turn_ttl in
      let day : ttl ≡ 86400 = ground (arith, h) in
      (
        all_urls now cfg.turn_ttl ttl cfg,
        ap
            (λ (t : ℕ).
              or_stun (map peer_server cfg.ice_servers ++ turn_servers sign format now t cfg))
            h,
        turn_servers-IsNamed now 0 cfg,
        ap (λ (t : ℕ). cfg.ice_servers ++ turn_servers sign format now t cfg) day,
        turn_servers-IsNamed now 86400 cfg,
      )
