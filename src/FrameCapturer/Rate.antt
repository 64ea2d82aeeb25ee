-- ===== src/FrameCapturer/Rate.antt =====
-- What is captured.
use voice_backend.Common.{
  ℕ, ◌+◌, ◌%◌, ◌≤◌, ◌≡◌, ◌⊎◌, refl, sym, ap, subst, ◌∙◌, append_assoc, append-nil, Text, text, Bool,
  true, false, not, ◌&&◌, ◌||◌, List, [], ◌∷◌, ◌++◌, map, Option, none, some, arith, Bool-cases,
  inl, inr, leb, ◌==◌, ◌=ℕ◌, if◌then◌else◌,
}
use voice_backend.FrameCapturer.{
  Sample, Captured, FrameCapturer, new_frame_capturer, is_keyframe, is_too_soon, capture,
  capture_all, RtpPacket, create_sample_builder, prepared, capture_with, handle_rtp_packet, stop,
  Event, packet, stop_called, step, run,
}

abbrev pub IsLater : ℕ → Option ℕ → ℕ → Type 0
IsLater rate none now = Unit {0}
IsLater rate (some last) now = last + rate ≤ now

-- Consecutive instants lie a rate apart at least, beginning with `last`.
abbrev pub Spaced : ℕ → Option ℕ → List Captured → Type 0
Spaced rate last [] = Unit {0}
Spaced rate last (c ∷ cs) = IsLater rate last c.instant × Spaced rate (some c.instant) cs

abbrev pub is_supported : Text → Bool
is_supported m = m == text "video/VP8" || m == text "video/VP9" || m == text "video/H264"

-- The samples that packets give before the first `stop_called`, each with the codec of its packet: those of
-- well-formed packets of the three codecs.
abbrev pub offered : List Event → List (Text × Sample)
offered [] = []
offered (stop_called ∷ es) = []
offered (packet p ∷ es) =
    let rest = offered es in
    if p.is_well_formed && is_supported p.mime_type
    then map (λ s. (p.mime_type, s)) p.popped ++ rest
    else rest

abbrev pub starts_even : Text → Bool
starts_even [] = false
starts_even (b ∷ rest) = b % 2 =ℕ 0

abbrev pub is_later : ℕ → Option ℕ → ℕ → Bool
is_later rate none now = true
is_later rate (some last) now = leb (last + rate) now

-- The samples that begin with an even byte, each taken if it lies a rate behind the one taken before.
abbrev pub selected : ℕ → Option ℕ → List (Text × Sample) → List Captured
selected rate last [] = []
selected rate last (x ∷ xs) =
    let taken = selected rate (some x.1.now) xs in
    let passed = selected rate last xs in
    if starts_even x.1.bytes && is_later rate last x.1.now
    then record { instant = x.1.now; bytes = x.1.bytes; mime_type = x.0 } ∷ taken
    else passed

selected-Spaced :
    (rate : ℕ) (last : Option ℕ) (xs : List (Text × Sample))
    → Spaced rate last (selected rate last xs)
selected-Spaced rate last [] = tt
selected-Spaced rate none ((m, s) ∷ xs) = elim (Bool-cases (starts_even s.bytes)) [
  | inl e ↦ rw e (tt, selected-Spaced rate (some s.now) xs)
  | inr e ↦ rw e (selected-Spaced rate none xs)
]
selected-Spaced rate (some t) ((m, s) ∷ xs) =
    elim (Bool-cases (starts_even s.bytes && leb (t + rate) s.now)) [
      | inl e ↦ rw e (ground (arith, e), selected-Spaced rate (some s.now) xs)
      | inr e ↦ rw e (selected-Spaced rate (some t) xs)
    ]

keyframe-even : (bytes : Text) → is_keyframe bytes ≡ starts_even bytes
unfolding is_keyframe
keyframe-even [] = refl
keyframe-even (b ∷ rest) = refl

too_soon-later :
    (now : ℕ) (last : Option ℕ) (rate : ℕ)
    → is_too_soon now last rate ≡ not (is_later rate last now)
unfolding is_too_soon
too_soon-later now none rate = refl
too_soon-later now (some last) rate = ground arith

-- What is captured already and what is still selected of `xs`.
abbrev total : FrameCapturer → List (Text × Sample) → List Captured
total c xs = c.captured ++ selected c.capture_rate c.last_capture xs

capture-selected :
    (mime : Text) (s : Sample) (c : FrameCapturer) (xs : List (Text × Sample))
    → total c ((mime, s) ∷ xs) ≡ total (capture mime s c) xs
unfolding capture
capture-selected mime s c xs = elim (Bool-cases (starts_even s.bytes)) [
  | inl key ↦ elim (Bool-cases (is_later c.capture_rate c.last_capture s.now)) [
    | inl late ↦
        rw (keyframe-even s.bytes, key, too_soon-later s.now c.last_capture c.capture_rate, late)
          (sym (
            append_assoc c.captured
              (record { instant = s.now; bytes = s.bytes; mime_type = mime } ∷ [])
              (selected c.capture_rate (some s.now) xs)))
    | inr soon ↦
        rw (keyframe-even s.bytes, key, too_soon-later s.now c.last_capture c.capture_rate, soon)
          refl
  ]
  | inr other ↦ rw (keyframe-even s.bytes, other) refl
]

capture_all-selected :
    (mime : Text) (ss : List Sample) (c : FrameCapturer) (xs : List (Text × Sample))
    → total c (map (λ s. (mime, s)) ss ++ xs) ≡ total (capture_all mime ss c) xs
unfolding capture_all
capture_all-selected mime [] c xs = refl
capture_all-selected mime (s ∷ ss) c xs =
    capture-selected mime s c (map (λ t. (mime, t)) ss ++ xs)
    ∙ capture_all-selected mime ss (capture mime s c) xs

capture_all-rate :
    (mime : Text) (ss : List Sample) (c : FrameCapturer)
    → ((capture_all mime ss c).capture_rate ≡ c.capture_rate)
      × ((capture_all mime ss c).stopped ≡ c.stopped)
      × ((capture_all mime ss c).builder ≡ c.builder)
      × ((capture_all mime ss c).mime_type ≡ c.mime_type)
unfolding capture_all capture
capture_all-rate mime [] c = (refl, refl, refl, refl)
capture_all-rate mime (s ∷ ss) c = ground (arith, capture_all-rate mime ss (capture mime s c))

-- A builder is one for the codec that is noted beside it.
abbrev FitsCodec : FrameCapturer → Type 0
FitsCodec c = (c.builder ≡ none) ⊎ (c.builder ≡ create_sample_builder c.mime_type)

prepared-builder :
    (p : RtpPacket) (c : FrameCapturer)
    → FitsCodec c
    → ((prepared p c).builder ≡ create_sample_builder p.mime_type)
      × ((prepared p c).mime_type ≡ p.mime_type)
unfolding prepared
prepared-builder p c (inl e) = ground (arith, e)
prepared-builder p c (inr e) = ground (arith, e)

-- The state behind a packet, and what is still to come.
record IsAfter (p : RtpPacket) (c d : FrameCapturer) (es : List Event) : Type 0 where
  pub same_total : total c (offered (packet p ∷ es)) ≡ total d (offered es)
  pub same_rate : d.capture_rate ≡ c.capture_rate
  pub same_stopped : d.stopped ≡ c.stopped
  pub fits : FitsCodec d

capture_with-IsAfter :
    (p : RtpPacket) (c : FrameCapturer) (es : List Event)
    → c.builder ≡ create_sample_builder p.mime_type
    → c.mime_type ≡ p.mime_type
    → IsAfter p c (capture_with c.builder p c) es
unfolding capture_with create_sample_builder
capture_with-IsAfter p c es b m = elim (Bool-cases (is_supported p.mime_type)) [
  | inr e ↦
      let unset : c.builder ≡ none = ground (arith, b, e) in
      let same : c ≡ capture_with c.builder p c = ground (arith, unset) in
      let none_of : total c (offered (packet p ∷ es)) ≡ total c (offered es) =
        rw e (ground arith) in
      subst (λ d. IsAfter p c d es) same
        (record { same_total = none_of; same_rate = refl; same_stopped = refl; fits = inl unset })
  | inl e ↦
      let set : c.builder ≡ some p.mime_type = ground (arith, b, e) in
      let kept = capture_all-rate p.mime_type p.popped c in
      elim (Bool-cases p.is_well_formed) [
        | inl w ↦
            let same : capture_all p.mime_type p.popped c ≡ capture_with c.builder p c =
              ground (arith, set, w) in
            let all : total c (offered (packet p ∷ es))
                ≡ total c (map (λ s. (p.mime_type, s)) p.popped ++ offered es) =
              rw (w, e) refl in
            subst (λ d. IsAfter p c d es) same
              (record {
                same_total = all ∙ capture_all-selected p.mime_type p.popped c (offered es);
                same_rate = kept.0;
                same_stopped = kept.1;
                fits = inr (kept.2 ∙ b ∙ ap create_sample_builder (sym (kept.3 ∙ m)));
              })
        | inr w ↦
            let same : c ≡ capture_with c.builder p c = ground (arith, set, w) in
            let none_of : total c (offered (packet p ∷ es)) ≡ total c (offered es) = rw w refl in
            subst (λ d. IsAfter p c d es) same
              (record {
                same_total = none_of;
                same_rate = refl;
                same_stopped = refl;
                fits = inr (b ∙ ap create_sample_builder (sym m));
              })
      ]
]

-- What the preparation of a packet leaves alone.
prepared-same :
    (p : RtpPacket) (c : FrameCapturer)
    → ((prepared p c).captured ≡ c.captured)
      × ((prepared p c).capture_rate ≡ c.capture_rate)
      × ((prepared p c).last_capture ≡ c.last_capture)
      × ((prepared p c).stopped ≡ c.stopped)
unfolding prepared
prepared-same p c = ground arith

handle_rtp_packet-IsAfter :
    (p : RtpPacket) (c : FrameCapturer) (es : List Event)
    → c.stopped ≡ false
    → FitsCodec c
    → IsAfter p c (handle_rtp_packet p c) es
unfolding handle_rtp_packet
handle_rtp_packet-IsAfter p c es running fits =
    let n = prepared p c in
    let b = prepared-builder p c fits in
    let kept = prepared-same p c in
    let v = capture_with-IsAfter p n es b.0 b.1 in
    let before : total c (offered (packet p ∷ es)) ≡ total n (offered (packet p ∷ es)) = cc in
    let same : capture_with n.builder p n ≡ handle_rtp_packet p c = ground (arith, running) in
    subst (λ d. IsAfter p c d es) same
      (record {
        same_total = before ∙ v.same_total;
        same_rate = v.same_rate ∙ kept.1;
        same_stopped = v.same_stopped ∙ kept.3;
        fits = v.fits;
      })

stopped-run :
    (es : List Event) (c : FrameCapturer) → c.stopped ≡ true → (run c es).captured ≡ c.captured
unfolding run step handle_rtp_packet stop
stopped-run [] c h = refl
stopped-run (packet p ∷ es) c h =
    let same : handle_rtp_packet p c ≡ c = ground (arith, h) in
    ground (arith, same, stopped-run es c h)
stopped-run (stop_called ∷ es) c h = stopped-run es (record c { stopped = true }) refl

run-total :
    (es : List Event) (c : FrameCapturer)
    → c.stopped ≡ false
    → FitsCodec c
    → (run c es).captured ≡ total c (offered es)
unfolding run step stop
run-total [] c running fits = sym (append-nil c.captured)
run-total (stop_called ∷ es) c running fits =
    stopped-run es (record c { stopped = true }) refl ∙ sym (append-nil c.captured)
run-total (packet p ∷ es) c running fits =
    let v = handle_rtp_packet-IsAfter p c es running fits in
    run-total es (handle_rtp_packet p c) (v.same_stopped ∙ running) v.fits ∙ sym v.same_total

abbrev pub rate_of : ℕ → ℕ
rate_of rate = if rate =ℕ 0 then 2000000000 else rate

-- Whatever packets of whatever codecs come and whatever samples they complete, in clock order or not, before or after `Stop`: the frames
-- captured are exactly those of the samples of well-formed packets of the three codecs, before the first
-- `Stop`, that begin with an even byte and whose instant lies the capture rate (two seconds if it is 0) or
-- more behind that of the frame captured before; so each instant lies that far behind the one before.
pub run-Spaced :
    (rate : ℕ) (es : List Event)
    → let cs = (run (new_frame_capturer rate) es).captured in
      (cs ≡ selected (rate_of rate) none (offered es)) × Spaced (rate_of rate) none cs
unfolding new_frame_capturer
run-Spaced rate es =
    let same = run-total es (new_frame_capturer rate) refl (inl refl) in
    (
      same,
      subst (Spaced (rate_of rate) none) (sym same)
          (selected-Spaced (rate_of rate) none (offered es)),
    )
