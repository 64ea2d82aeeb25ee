-- ===== src/OutputWorker/Tests.antt =====
-- Three frames, and the theorems at them.
use voice_backend.Common.{◌+◌, ◌≡◌, ◌↔◌, refl, text, true, false, List, [], ◌∷◌}
use voice_backend.OutputWorker.{
  new_output_worker, is_drained, Event, sent, counted, taken, written_out, finished, drained,
  dropped, run,
}
use voice_backend.OutputWorker.Drain.{unplayed, lost, run-is_drained}

-- The second frame is drained between its send and its increment, and the counter stays behind the first.
abbrev three_frames : List Event
three_frames =
    sent (text "a")
    ∷ counted
    ∷ taken
    ∷ sent (text "b")
    ∷ written_out
    ∷ finished
    ∷ drained
    ∷ dropped
    ∷ counted
    ∷ []

three_frames-run :
    let w = run (new_output_worker 0) three_frames in
    (w.written ≡ text "a" ∷ [])
    × (w.pending ≡ 1)
    × (unplayed w ≡ 0)
    × (lost (new_output_worker 0) three_frames ≡ 1)
    × (is_drained w ≡ false)
unfolding run new_output_worker is_drained
three_frames-run = (refl, refl, refl, refl, refl)

run-is_drained_example :
    let w = run (new_output_worker 0) three_frames in
    let k = lost (new_output_worker 0) three_frames in
    (w.pending + w.uncounted ≡ unplayed w + k)
    × ((is_drained w ≡ true) ↔ (unplayed w + k ≡ w.uncounted))
run-is_drained_example = run-is_drained 0 three_frames
