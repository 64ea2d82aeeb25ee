-- ===== src/Peer/Tracks.antt =====
-- Which of the tracks that a client offers is shown, and which are read.
use voice_backend.Common.{
  ℕ, ◌≡◌, refl, sym, Text, text, Text-discrete, List, [], ◌∷◌, ◌++◌, Option, none, some,
  if◌then◌else◌, arith, append-nil, Bool-cases, inl, inr,
}
use voice_backend.Peer.{
  Peer, new_peer, is_screen_share, should_replace, handle_video_track, handle_video_tracks,
}

-- The first track of a shared screen, if any.
abbrev pub first_screen : List Text → Option Text
first_screen [] = none
first_screen (t ∷ ts) = let rest = first_screen ts in if is_screen_share t then some t else rest

abbrev pub or_else : Option Text → Text → Text
or_else none t = t
or_else (some s) t = s

abbrev pub to_list : Option Text → List Text
to_list none = []
to_list (some t) = t ∷ []

-- The track that is shown: the first one of a screen, or else the first one.
abbrev pub selected : List Text → Option Text
selected [] = none
selected (t ∷ ts) = some (if is_screen_share t then t else or_else (first_screen ts) t)

-- The tracks that are read: the first one, and the first one of a screen.
abbrev pub opened : List Text → List Text
opened [] = []
opened (t ∷ ts) = t ∷ (if is_screen_share t then [] else to_list (first_screen ts))

-- What is shown is a screen: nothing replaces it.
screen_stays :
    (ts : List Text) (p : Peer) (s : Text)
    → p.video_track ≡ some s
    → p.video_track_kind ≡ text "screen"
    → handle_video_tracks ts p ≡ p
unfolding handle_video_tracks handle_video_track should_replace Text-discrete
screen_stays [] p s e k = refl
screen_stays (t ∷ ts) p s e k =
    let same : handle_video_track t p ≡ p = ground (arith, e, k) in
    rw same (screen_stays ts p s e k)

-- What is shown is a camera: the first screen replaces it.
camera_waits :
    (ts : List Text) (p : Peer) (s : Text)
    → p.video_track ≡ some s
    → p.video_track_kind ≡ text "camera"
    → let q = handle_video_tracks ts p in
      (q.video_track ≡ some (or_else (first_screen ts) s))
      × (q.readers ≡ p.readers ++ to_list (first_screen ts))
unfolding handle_video_tracks handle_video_track should_replace Text-discrete
camera_waits [] p s e k = (e, sym (append-nil p.readers))
camera_waits (t ∷ ts) p s e k = elim (Bool-cases (is_screen_share t)) [
  | inl screen ↦
      let next = handle_video_track t p in
      let shown : (next.video_track ≡ some t)
          × (next.video_track_kind ≡ text "screen")
          × (next.readers ≡ p.readers ++ t ∷ []) =
        ground (arith, e, k, screen) in
      rw (screen_stays ts next t shown.0 shown.1) (ground (arith, screen, shown))
  | inr camera ↦
      let same : handle_video_track t p ≡ p = ground (arith, e, k, camera) in
      ground (arith, same, camera, camera_waits ts p s e k)
]

-- Whatever tracks a client offers: the first one that shares a screen is shown, or else the first one; and the tracks
-- that are read are the first one and the first one that shares a screen, so a camera that came first is
-- read on beside the screen that has replaced it.
pub handle_video_tracks-selected :
    (ssrc : ℕ) (ts : List Text)
    → let p = handle_video_tracks ts (new_peer ssrc) in
      (p.video_track ≡ selected ts) × (p.readers ≡ opened ts)
unfolding handle_video_tracks handle_video_track should_replace new_peer Text-discrete
handle_video_tracks-selected ssrc [] = (refl, refl)
handle_video_tracks-selected ssrc (t ∷ ts) =
    let next = handle_video_track t (new_peer ssrc) in
    elim (Bool-cases (is_screen_share t)) [
      | inl screen ↦
          let kind : next.video_track_kind ≡ text "screen" = ground (arith, screen) in
          rw (screen_stays ts next t refl kind) (ground (arith, screen))
      | inr camera ↦
          let kind : next.video_track_kind ≡ text "camera" = ground (arith, camera) in
          ground (arith, camera, camera_waits ts next t refl kind)
    ]
