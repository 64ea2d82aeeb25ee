-- ===== src/Frames.antt =====
-- What an agent that asks for pictures of the user's camera gets: handleFrameRequest and sendFrameResponse
-- (internal/voicesession/session.go), GetFrames and Cleanup of internal/vision/analyzer.go, and
-- internal/vision/store.go. The sorted sets of Redis are third-party code: the interface `FrameSets` has the
-- commands that the store uses, with their documented behaviour as laws. A number of a JSON payload is
-- given as the integer that it is converted to. No key expires; the store lets a set expire a minute after the last frame.
pub mod Privacy
pub mod Memory
mod Tests
use voice_backend.Common.{
  ℕ, ◌+◌, ◌-◌, ◌≡◌, ◌≤◌, Text, text, Bool, true, false, not, ◌&&◌, List, [], ◌∷◌, ◌++◌, Option,
  none, some, map, ◌==◌, leb, ltb, length, contains, All, if◌then◌else◌,
}
use voice_backend.Common.Int.{ℤ, pos, negsuc, less_ℤ}
use voice_backend.Common.Map.{lookup}
use voice_backend.Scopes.{AgentInfo, get_agent_scopes, scope_vision}

-- What ZRANGEBYSCORE gives: entries with their scores, or the text of an error.
pub data Range : Type 0 where
  entries : List (ℤ × Text) → Range
  range_error : Text → Range

pub record FrameSets (R : Type 0) : Type 0 where
  pub zadd : Text → ℤ → Text → R → R
  pub del : Text → R → R
  pub zscore : Text → Text → R → Option ℤ
  pub zrange_by_score : Text → ℤ → ℤ → ℤ → R → Range  -- the key, the bounds and the count
  pub zscore-zadd :
      (k : Text) (s : ℤ) (m : Text) (r : R) (k' m' : Text)
      → zscore k' m' (zadd k s m r) ≡ (if (k == k') && (m == m') then some s else zscore k' m' r)
  pub zscore-del :
      (k : Text) (r : R) (k' m' : Text)
      → zscore k' m' (del k r) ≡ (if k == k' then none else zscore k' m' r)
  pub zrange_by_score-scores :
      (k : Text) (low high n : ℤ) (r : R) (xs : List (ℤ × Text))
      → zrange_by_score k low high n r ≡ entries xs
      → All
          (λ x. (zscore k x.1 r ≡ some x.0) × (less_ℤ x.0 low ≡ false) × (less_ℤ high x.0 ≡ false))
          xs

unfoldable pub frames_key : Text → Text
frames_key session = text "session:" ++ (session ++ text ":frames")

pub record FrameData : Type 0 where
  pub timestamp : ℤ
  pub base64 : Text

pub record FrameRequest : Type 0 where
  pub start_time : ℤ
  pub end_time : ℤ
  pub limit : ℤ
  pub raw_base64 : Bool

-- A field of a payload: a number, a Boolean or something else.
pub data Field : Type 0 where
  number : ℤ → Field
  boolean : Bool → Field
  other_field : Field

-- A payload: the typed one, an object, or something else.
pub data FramePayload : Type 0 where
  typed : FrameRequest → FramePayload
  fields : List (Text × Field) → FramePayload
  other_payload : FramePayload

abbrev pub integer_of : Option Field → ℤ
integer_of (some (number n)) = n
integer_of (some (boolean b)) = pos 0
integer_of (some other_field) = pos 0
integer_of none = pos 0

abbrev pub boolean_of : Option Field → Bool
boolean_of (some (boolean b)) = b
boolean_of (some (number n)) = false
boolean_of (some other_field) = false
boolean_of none = false

unfoldable pub read_request : FramePayload → Option FrameRequest
read_request (typed q) = some q
read_request (fields p) = some (record {
  start_time = integer_of (lookup (text "start_time") p);
  end_time = integer_of (lookup (text "end_time") p);
  limit = integer_of (lookup (text "limit") p);
  raw_base64 = boolean_of (lookup (text "raw_base64") p);
})
read_request other_payload = none

-- `n - d` of int64, for a small positive `d`.
unfoldable pub subtract : ℕ → ℤ → ℤ
subtract d (pos n) = if leb d n then pos (n - d) else negsuc (d - n - 1)
subtract d (negsuc n) =
    if ltb (n + d) 9223372036854775808 then negsuc (n + d) else pos (18446744073709551615 - (n + d))

abbrev pub or_else : ℤ → ℤ → ℤ
or_else d (pos n) = if leb n 0 then d else pos n
or_else d (negsuc n) = negsuc n

-- The request with its defaults; `now` is in milliseconds.
unfoldable pub with_defaults : ℕ → FrameRequest → FrameRequest
unfolding subtract
with_defaults now q =
    let end : ℤ = or_else (pos now) q.end_time in
    record q {
      limit = or_else (pos 5) q.limit;
      end_time = end;
      start_time = or_else (subtract 30000 end) q.start_time;
    }

-- `FrameResponsePayload`.
pub record FrameResponse : Type 0 where
  pub frames : List FrameData
  pub descriptions : List Text
  pub error : Text

abbrev pub frame_error : Text → FrameResponse
frame_error e = record { frames = []; descriptions = []; error = e }

unfoldable pub describe_all : (FrameData → Option Text) → List FrameData → List Text
describe_all describe [] = []
describe_all describe (f ∷ fs) =
    let rest = describe_all describe fs in elim (describe f) [ none ↦ rest | some d ↦ d ∷ rest ]

abbrev pub frame_of : ℤ × Text → FrameData
frame_of x = record { timestamp = x.0; base64 = x.1 }

-- A frame is stored, or the frames of a session that closes are deleted.
pub data FrameEvent : Type 0 where
  stored : Text → ℤ → Text → FrameEvent
  cleaned_up : Text → FrameEvent

module _ {R : Type 0} (sets : FrameSets R) where
  unfoldable pub store_frame : Text → ℤ → Text → R → R
  store_frame session timestamp bytes r = sets.zadd (frames_key session) timestamp bytes r

  unfoldable pub delete_frames : Text → R → R
  delete_frames session r = sets.del (frames_key session) r

  unfoldable pub apply_event : R → FrameEvent → R
  unfolding store_frame delete_frames
  apply_event r (stored session t bytes) = store_frame session t bytes r
  apply_event r (cleaned_up session) = delete_frames session r

  unfoldable pub apply_events : List FrameEvent → R → R
  unfolding apply_event
  apply_events [] r = r
  apply_events (e ∷ es) r = apply_events es (apply_event r e)

  module _ (describe : FrameData → Option Text) where
    -- `Analyzer.GetFrames`, on what the store gives, and what handleFrameRequest copies from it.
    abbrev pub shown_frames : Bool → Range → FrameResponse
    unfolding describe_all
    shown_frames raw (range_error e) = frame_error e
    shown_frames true (entries xs) = record (frame_error []) { frames = map frame_of xs }
    shown_frames false (entries xs) = record (frame_error []) {
      descriptions = describe_all describe (map frame_of xs);
    }

    unfoldable pub get_frames : Text → FrameRequest → R → FrameResponse
    unfolding shown_frames
    get_frames session q r =
        shown_frames q.raw_base64
          (sets.zrange_by_score (frames_key session) q.start_time q.end_time q.limit r)

    abbrev pub answer_request : ℕ → Text → R → Option FrameRequest → FrameResponse
    unfolding get_frames with_defaults
    answer_request now session r none = frame_error (text "invalid request payload")
    answer_request now session r (some q) = get_frames session (with_defaults now q) r

    -- `handleFrameRequest`: what it answers to an agent.
    unfoldable pub handle_frame_request :
        List AgentInfo → Bool → Text → ℕ → Text → FramePayload → R → FrameResponse
    unfolding get_agent_scopes read_request answer_request
    handle_frame_request agents has_analyzer session now agent_id payload r =
        if not (contains (get_agent_scopes agents agent_id) scope_vision)
        then frame_error (text "vision scope not granted")
        else if not has_analyzer
        then frame_error (text "vision not available")
        else answer_request now session r (read_request payload)
