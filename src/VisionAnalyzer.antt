-- ===== src/VisionAnalyzer.antt =====
-- internal/vision/analyzer.go: one analyser, which every session of the manager shares, looks at the latest
-- frame of a session and keeps what it found. `frame_of` and `analyze` stand for the store and for the
-- client of the vision service, where `none` is an error or no frame. The goroutine of `StartAnalysis`
-- takes the mutex to keep its result and again when it ends, so these are two events.
pub mod Running
pub mod Sharing
mod Tests
use voice_backend.Common.{
  ℕ, Text, Bool, true, false, not, ◌||◌, ◌&&◌, List, [], ◌∷◌, Option, none, some, ltb, length,
  if◌then◌else◌,
}
use voice_backend.Scopes.{VisionContext}

pub record AnalyzeResponse : Type 0 where
  pub description : Text
  pub timestamp : ℕ

-- `analysisDone`: no channel yet, one that is open, or one that is closed.
pub data DoneChannel : Type 0 where
  no_channel open_channel closed_channel : DoneChannel

-- `running` is the session whose goroutine has not ended; `panicked` tells that a closed or missing channel
-- was closed.
pub record Analyzer : Type 0 where
  pub last_result : Option AnalyzeResponse
  pub analyzing : Bool
  pub analysis_done : DoneChannel
  pub running : List Text
  pub panicked : Bool

unfoldable pub new_analyzer : Analyzer
new_analyzer = record {
  last_result = none;
  analyzing = false;
  analysis_done = no_channel;
  running = [];
  panicked = false;
}

unfoldable pub start_analysis : Text → Analyzer → Analyzer
start_analysis sid a =
    if a.analyzing
    then a
    else record a { analyzing = true; analysis_done = open_channel; running = sid ∷ a.running }

-- `close(a.analysisDone)`.
unfoldable pub close_channel : DoneChannel → Analyzer → Analyzer
close_channel open_channel a = record a { analysis_done = closed_channel }
close_channel _ a = record a { panicked = true }

-- The deferred function of the goroutine that has run longest, and its return.
unfoldable pub finish : List Text → Analyzer → Analyzer
unfolding close_channel
finish [] a = a
finish (sid ∷ rest) a =
    close_channel a.analysis_done (record a { analyzing = false; running = rest })

-- The goroutine keeps what it found.
unfoldable pub keep_found : Option AnalyzeResponse → Analyzer → Analyzer
keep_found none a = a
keep_found (some r) a = record a { last_result = some r }

module _ (frame_of : Text → Option Text) (analyze : Text → Option AnalyzeResponse) where
  -- What the goroutine finds: a frame below 5000 bytes is taken for a black one.
  unfoldable pub outcome : Text → Option AnalyzeResponse
  outcome sid = elim (frame_of sid) [
    | none ↦ none
    | some frame ↦ if ltb (length frame) 5000 then none else analyze frame
  ]

  unfoldable pub keep_result : List Text → Analyzer → Analyzer
  unfolding outcome keep_found
  keep_result [] a = a
  keep_result (sid ∷ rest) a = keep_found (outcome sid) a

  pub data Event : Type 0 where
    started : Text → Event
    kept ended was_reset : Event

  unfoldable pub step : Analyzer → Event → Analyzer
  unfolding start_analysis keep_result finish
  step a (started sid) = start_analysis sid a
  step a kept = keep_result a.running a
  step a ended = finish a.running a
  step a was_reset = record a { last_result = none }

  unfoldable pub run : Analyzer → List Event → Analyzer
  unfolding step
  run a [] = a
  run a (e ∷ es) = run (step a e) es

abbrev unavailable : VisionContext
unavailable = record { description = []; timestamp = 0; available = false }

abbrev pub shown : Option AnalyzeResponse → VisionContext
shown none = unavailable
shown (some r) = record { description = r.description; timestamp = r.timestamp; available = true }

abbrev pub is_some {ℓ} : {A : Type ℓ} → Option A → Bool
is_some none = false
is_some (some a) = true

abbrev has_channel : DoneChannel → Bool
has_channel no_channel = false
has_channel open_channel = true
has_channel closed_channel = true

-- `GetResult`: `a` is the analyser at the call, and `later` the one when it reads again behind the
-- closed channel, unless the time ran out.
unfoldable pub get_result : Bool → Analyzer → Analyzer → VisionContext
get_result timed_out later a =
    if is_some a.last_result
    then shown a.last_result
    else if has_channel a.analysis_done
    then (if timed_out then unavailable else shown later.last_result)
    else unavailable

-- What `onTranscript` of a session does with the analyser, whose result is there: it takes and resets it.
unfoldable pub take_result : Analyzer → Analyzer × VisionContext
unfolding get_result
take_result a = (record a { last_result = none }, get_result false a a)
