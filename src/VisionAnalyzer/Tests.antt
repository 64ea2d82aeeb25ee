-- ===== src/VisionAnalyzer/Tests.antt =====
-- Two sessions and one picture, and the theorem at them.
use voice_backend.Common.{Text, text, List, [], ◌∷◌, Option, some, ℕ, zero, suc}
use voice_backend.VisionAnalyzer.{
  AnalyzeResponse, new_analyzer, Event, started, kept, ended, was_reset, run,
}
use voice_backend.VisionAnalyzer.Running.{IsSound, run-new_analyzer-IsSound}

abbrev repeat : ℕ → Text
repeat zero = []
repeat (suc n) = 0 ∷ repeat n

abbrev frame_of : Text → Option Text
frame_of sid = some (repeat 5000)

abbrev picture : AnalyzeResponse
picture = record { description = text "a cat"; timestamp = 7 }

abbrev analyze : Text → Option AnalyzeResponse
analyze frame = some picture

abbrev history : List (Event frame_of analyze)
history =
    started (text "s1") ∷ started (text "s2") ∷ was_reset ∷ kept ∷ ended ∷ started (text "s2") ∷ []

run-new_analyzer-IsSound_example : IsSound (run frame_of analyze new_analyzer history)
run-new_analyzer-IsSound_example = run-new_analyzer-IsSound frame_of analyze history
