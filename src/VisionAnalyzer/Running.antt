-- ===== src/VisionAnalyzer/Running.antt =====
-- At most one analysis runs, and its channel is closed once.
use voice_backend.Common.{Text, true, false, List, [], ◌∷◌, Option, none, some}
use voice_backend.VisionAnalyzer.{
  AnalyzeResponse, Analyzer, DoneChannel, no_channel, open_channel, closed_channel, new_analyzer,
  start_analysis, finish, close_channel, keep_result, keep_found, outcome, Event, started, kept,
  ended, was_reset, step, run,
}

-- Either nothing runs and no channel is open, or one analysis runs and its channel is open.
pub data IsSound : Analyzer → Type 0 where
  idle :
      (last : Option AnalyzeResponse) (c : DoneChannel)
      → IsSound (record {
        last_result = last;
        analyzing = false;
        analysis_done = c;
        running = [];
        panicked = false;
      })
  busy :
      (last : Option AnalyzeResponse) (sid : Text)
      → IsSound (record {
        last_result = last;
        analyzing = true;
        analysis_done = open_channel;
        running = sid ∷ [];
        panicked = false;
      })

keep_found-IsSound :
    (o last : Option AnalyzeResponse) (sid : Text)
    → IsSound (
        keep_found o (record {
          last_result = last;
          analyzing = true;
          analysis_done = open_channel;
          running = sid ∷ [];
          panicked = false;
        }))
unfolding keep_found
keep_found-IsSound none last sid = busy last sid
keep_found-IsSound (some r) last sid = busy (some r) sid

module _ (frame_of : Text → Option Text) (analyze : Text → Option AnalyzeResponse) where
  step-IsSound :
      (e : Event frame_of analyze) (a : Analyzer) → IsSound a → IsSound (step frame_of analyze a e)
  unfolding step start_analysis finish close_channel keep_result
  step-IsSound (started s) a (idle last c) = busy last s
  step-IsSound (started s) a (busy last sid) = busy last sid
  step-IsSound kept a (idle last c) = idle last c
  step-IsSound kept a (busy last sid) = keep_found-IsSound (outcome frame_of analyze sid) last sid
  step-IsSound ended a (idle last c) = idle last c
  step-IsSound ended a (busy last sid) = idle last closed_channel
  step-IsSound was_reset a (idle last c) = idle _ c
  step-IsSound was_reset a (busy last sid) = busy _ sid

  run-IsSound :
      (es : List (Event frame_of analyze)) (a : Analyzer)
      → IsSound a
      → IsSound (run frame_of analyze a es)
  unfolding run
  run-IsSound [] a h = h
  run-IsSound (e ∷ es) a h = run-IsSound es (step frame_of analyze a e) (step-IsSound e a h)

  -- Whatever sessions start an analysis, and however their goroutines, their ends and the resets interleave, from
  -- a new analyser: at most one analysis runs, `analyzing` tells whether one does, its channel is open, and no
  -- goroutine has closed a channel that was missing or closed.
  pub run-new_analyzer-IsSound :
      (es : List (Event frame_of analyze)) → IsSound (run frame_of analyze new_analyzer es)
  unfolding new_analyzer
  run-new_analyzer-IsSound es = run-IsSound es new_analyzer (idle none no_channel)
