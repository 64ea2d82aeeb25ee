-- ===== src/Frames/Privacy.antt =====
-- Which frames an agent is shown.
use voice_backend.Common.{
  ℕ, ◌≡◌, ◌∙◌, sym, inl, inr, refl, ap, Text, text, Bool, true, false, ◌&&◌, List, [], ◌∷◌, ◌++◌,
  Option, none, some, map, ◌==◌, ==→eq, ==_refl, length, length-append, drop, contains, All,
  All-map, if◌then◌else◌, arith, Bool-cases,
}
use voice_backend.Common.Int.{ℤ, less_ℤ}
use voice_backend.Scopes.{AgentInfo, get_agent_scopes, scope_vision}
use voice_backend.Frames.{
  Range, entries, range_error, FrameSets, frames_key, FrameData, FrameRequest, FramePayload,
  read_request, with_defaults, FrameResponse, describe_all, frame_of, FrameEvent, stored,
  cleaned_up, store_frame, delete_frames, apply_event, apply_events, shown_frames, get_frames,
  answer_request, handle_frame_request,
}

same_prefix : (xs ys t : Text) → xs ++ t ≡ ys ++ t → xs ≡ ys
same_prefix [] [] t e = refl
same_prefix [] (y ∷ ys) t e =
    absurd (omega (arith, ap (λ (l : Text). length l) e, length-append (y ∷ ys) t))
same_prefix (x ∷ xs) [] t e =
    absurd (omega (arith, ap (λ (l : Text). length l) e, length-append (x ∷ xs) t))
same_prefix (x ∷ xs) (y ∷ ys) t e =
    ground (arith, e, same_prefix xs ys t (ap (λ (l : Text). drop 1 l) e))

frames_key-== : (a b : Text) → (frames_key a == frames_key b) ≡ (a == b)
unfolding frames_key
frames_key-== a b = elim (Bool-cases (a == b)) [
  | inl e ↦ rw (==→eq a b e) (==_refl (frames_key b) ∙ sym (==_refl b))
  | inr e ↦ elim (Bool-cases (frames_key a == frames_key b)) [
    | inl h ↦
        let keys = ==→eq (frames_key a) (frames_key b) h in
        let same = same_prefix a b (text ":frames") (ap (λ (l : Text). drop 8 l) keys) in
        absurd (ground (arith, e, same))
    | inr h ↦ h ∙ sym e
  ]
]

-- When a frame was stored last for a session, since the frames of the session were deleted last.
abbrev pub last_stored : Text → Text → Option ℤ → List FrameEvent → Option ℤ
last_stored session m found [] = found
last_stored session m found (stored s t b ∷ es) =
    last_stored session m (if s == session && b == m then some t else found) es
last_stored session m found (cleaned_up s ∷ es) =
    last_stored session m (if s == session then none else found) es

module _ {R : Type 0} (sets : FrameSets R) where
  zscore-store_frame :
      (session m s : Text) (t : ℤ) (b : Text) (r : R)
      → sets.zscore (frames_key session) m (store_frame sets s t b r)
        ≡ (if s == session && b == m then some t else sets.zscore (frames_key session) m r)
  unfolding store_frame
  zscore-store_frame session m s t b r =
      sets.zscore-zadd (frames_key s) t b r (frames_key session) m
      ∙ ap
          (λ (same : Bool). if same && b == m then some t else sets.zscore (frames_key session) m r)
          (frames_key-== s session)

  zscore-delete_frames :
      (session m s : Text) (r : R)
      → sets.zscore (frames_key session) m (delete_frames sets s r)
        ≡ (if s == session then none else sets.zscore (frames_key session) m r)
  unfolding delete_frames
  zscore-delete_frames session m s r =
      sets.zscore-del (frames_key s) r (frames_key session) m
      ∙ ap (λ (same : Bool). if same then none else sets.zscore (frames_key session) m r)
          (frames_key-== s session)

  zscore-apply_events :
      (session m : Text) (es : List FrameEvent) (r : R)
      → sets.zscore (frames_key session) m (apply_events sets es r)
        ≡ last_stored session m (sets.zscore (frames_key session) m r) es
  unfolding apply_events apply_event
  zscore-apply_events session m [] r = refl
  zscore-apply_events session m (stored s t b ∷ es) r =
      zscore-apply_events session m es (store_frame sets s t b r)
      ∙ ap (λ (f : Option ℤ). last_stored session m f es) (zscore-store_frame session m s t b r)
  zscore-apply_events session m (cleaned_up s ∷ es) r =
      zscore-apply_events session m es (delete_frames sets s r)
      ∙ ap (λ (f : Option ℤ). last_stored session m f es) (zscore-delete_frames session m s r)

-- A frame that an agent may be shown, on its request.
pub record IsShown (agents : List AgentInfo) (agent_id session : Text) (es : List FrameEvent)
    (q : FrameRequest) (f : FrameData) : Type 0 where
  pub scope : contains (get_agent_scopes agents agent_id) scope_vision ≡ true
  pub last : last_stored session f.base64 none es ≡ some f.timestamp
  pub not_before : less_ℤ f.timestamp q.start_time ≡ false
  pub not_after : less_ℤ q.end_time f.timestamp ≡ false

-- What is described is a frame with the property.
pub data IsDescribed (P : FrameData → Type 0) (describe : FrameData → Option Text) (d : Text)
    : Type 0 where
  described : (f : FrameData) → describe f ≡ some d → P f → IsDescribed P describe d

-- All that an answer shows has the property.
abbrev pub Shows : (FrameData → Type 0) → (FrameData → Option Text) → FrameResponse → Type 0
Shows P describe a = All P a.frames × All (IsDescribed P describe) a.descriptions

module _ (P : FrameData → Type 0) (describe : FrameData → Option Text) where
  found-IsDescribed :
      (f : FrameData) (found : Option Text) (ds : List Text)
      → describe f ≡ found
      → P f
      → All (IsDescribed P describe) ds
      → All (IsDescribed P describe) (elim found [ none ↦ ds | some d ↦ d ∷ ds ])
  found-IsDescribed f none ds e h rest = rest
  found-IsDescribed f (some d) ds e h rest = (described f e h, rest)

  describe_all-IsDescribed :
      (fs : List FrameData) → All P fs → All (IsDescribed P describe) (describe_all describe fs)
  unfolding describe_all
  describe_all-IsDescribed [] h = tt
  describe_all-IsDescribed (f ∷ fs) h =
      found-IsDescribed f (describe f) (describe_all describe fs) refl h.0
        (describe_all-IsDescribed fs h.1)

  map-All : (xs : List (ℤ × Text)) → All (λ x. P (frame_of x)) xs → All P (map frame_of xs)
  map-All [] h = tt
  map-All (x ∷ xs) h = (h.0, map-All xs h.1)

  module _ {R : Type 0} (sets : FrameSets R) where
    shown_frames-Shows :
        (raw : Bool) (x : Range)
        → ((xs : List (ℤ × Text)) → x ≡ entries xs → All (λ x. P (frame_of x)) xs)
        → Shows P describe (shown_frames sets describe raw x)
    unfolding shown_frames
    shown_frames-Shows raw (range_error e) h = (tt, tt)
    shown_frames-Shows true (entries xs) h = (map-All xs (h xs refl), tt)
    shown_frames-Shows false (entries xs) h =
        (tt, describe_all-IsDescribed (map frame_of xs) (map-All xs (h xs refl)))

module _ {R : Type 0} (sets : FrameSets R) (describe : FrameData → Option Text) where
  get_frames-Shows :
      (agents : List AgentInfo) (agent_id session : Text) (es : List FrameEvent) (q : FrameRequest)
      (r : R)
      → ((m : Text) → sets.zscore (frames_key session) m r ≡ none)
      → contains (get_agent_scopes agents agent_id) scope_vision ≡ true
      → Shows
          (IsShown agents agent_id session es q)
          describe
          (get_frames sets describe session q (apply_events sets es r))
  unfolding get_frames
  get_frames-Shows agents agent_id session es q r empty scope =
      let after = apply_events sets es r in
      shown_frames-Shows (IsShown agents agent_id session es q) describe sets q.raw_base64
        (sets.zrange_by_score (frames_key session) q.start_time q.end_time q.limit after)
        (λ xs e.
          All-map
            (λ x h. record {
              scope = scope;
              last =
                  sym (ap (λ (f : Option ℤ). last_stored session x.1 f es) (empty x.1))
                  ∙ sym (zscore-apply_events sets session x.1 es r)
                  ∙ h.0;
              not_before = h.1;
              not_after = h.2;
            })
            xs
            (sets.zrange_by_score-scores (frames_key session) q.start_time q.end_time q.limit after
              xs e))

  -- From a store without frames of a session, whatever frames of whatever sessions are stored and deleted, for a
  -- request that can be read: what an agent is shown, as it is or described, are frames that were last stored for
  -- the session itself, at their time and since its frames were deleted last; they lie between the times of
  -- the request with its defaults; and the user has granted this agent the scope of the camera.
  pub handle_frame_request-Shows :
      (agents : List AgentInfo) (has_analyzer : Bool) (session : Text) (now : ℕ) (agent_id : Text)
      (payload : FramePayload) (q : FrameRequest) (es : List FrameEvent) (r : R)
      → ((m : Text) → sets.zscore (frames_key session) m r ≡ none)
      → read_request payload ≡ some q
      → Shows (IsShown agents agent_id session es (with_defaults now q)) describe (
          handle_frame_request sets describe agents has_analyzer session now agent_id payload
            (apply_events sets es r))
  unfolding handle_frame_request answer_request
  handle_frame_request-Shows agents has_analyzer session now agent_id payload q es r empty read =
      elim (Bool-cases (contains (get_agent_scopes agents agent_id) scope_vision)) [
        | inl scope ↦
            let shows =
              get_frames-Shows agents agent_id session es (with_defaults now q) r empty scope in
            elim (Bool-cases has_analyzer) [
              | inl there ↦ rw (scope, there, read) shows
              | inr absent ↦ rw (scope, absent) (tt, tt)
            ]
        | inr missing ↦ rw missing (tt, tt)
      ]
