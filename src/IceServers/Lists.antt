-- ===== src/IceServers/Lists.antt =====
-- The lists of the configuration.
use voice_backend.Common.{
  ◌≡◌, refl, ap, sym, ◌∙◌, Text, false, List, [], ◌∷◌, ◌++◌, map, ◌==◌, ◌=ℕ◌, All, append_assoc,
  append-nil, arith,
}
use voice_backend.SentenceBuffer.{trim_space, join}
use voice_backend.IceServers.{
  split_from, listed, parse_list, server_at, or_stun, parse_ice_servers, parse_cors_origins,
}

abbrev pub NoComma : Text → Type 0
NoComma = All (λ c. (c =ℕ b',') ≡ false)

-- An entry that survives: not empty, with no white space at its ends, and with no comma.
abbrev pub IsEntry : Text → Type 0
IsEntry s = ((s == []) ≡ false) × (trim_space s ≡ s) × NoComma s

split_from-append :
    (s part rest : Text) → NoComma s → split_from part (s ++ rest) ≡ split_from (part ++ s) rest
unfolding split_from
split_from-append [] part rest h = rw (append-nil part) refl
split_from-append (c ∷ s) part rest h = rw h.0 (
    split_from-append s (part ++ c ∷ []) rest h.1
    ∙ ap (λ (t : Text). split_from t rest) (append_assoc part (c ∷ []) s))

split-join :
    (s : Text) (urls : List Text)
    → NoComma s
    → All IsEntry urls
    → split_from [] (join (b',' ∷ []) (s ∷ urls)) ≡ s ∷ urls
unfolding join split_from
split-join s [] h hs = ap (split_from []) (sym (append-nil s)) ∙ split_from-append s [] [] h
split-join s (t ∷ urls) h hs =
    split_from-append s [] (b',' ∷ join (b',' ∷ []) (t ∷ urls)) h
    ∙ ap (◌∷◌ s) (split-join t urls hs.0.2 hs.1)

listed-entries : (urls : List Text) → All IsEntry urls → listed urls ≡ urls
unfolding listed
listed-entries [] h = refl
listed-entries (u ∷ urls) h = ground (arith, h.0, listed-entries urls h.1)

parse-join :
    (u : Text) (urls : List Text)
    → All IsEntry (u ∷ urls)
    → parse_list (join (b',' ∷ []) (u ∷ urls)) ≡ u ∷ urls
unfolding parse_list
parse-join u urls h = ap listed (split-join u urls h.0.2 h.1) ∙ listed-entries (u ∷ urls) h

nonempty-join :
    (u : Text) (urls : List Text) → (u == []) ≡ false → (join (b',' ∷ []) (u ∷ urls) == []) ≡ false
unfolding join
nonempty-join [] urls h = absurd (ground (arith, h))
nonempty-join (c ∷ u) [] h = ground arith
nonempty-join (c ∷ u) (t ∷ urls) h = ground arith

-- One or more entries that are not empty and have no comma and no white space at their ends, joined by commas, are read back as they
-- were, in order: as ICE servers and as origins.
pub parse-join_entries :
    (u : Text) (urls : List Text)
    → All IsEntry (u ∷ urls)
    → let env = join (b',' ∷ []) (u ∷ urls) in
      (parse_ice_servers env ≡ map server_at (u ∷ urls)) × (parse_cors_origins env ≡ u ∷ urls)
unfolding parse_ice_servers parse_cors_origins
parse-join_entries u urls h =
    let some_text = nonempty-join u urls h.0.0 in
    let same = parse-join u urls h in
    (rw some_text (ap (λ (l : List Text). or_stun (map server_at l)) same), rw some_text same)
