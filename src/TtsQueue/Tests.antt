-- ===== src/TtsQueue/Tests.antt =====
-- Interleavings of the queue, and the theorems at them.
use voice_backend.Common.{◌≡◌, refl, text, true, List, [], ◌∷◌}
use voice_backend.Speech.{SpeechController, new_speech_controller}
use voice_backend.TtsQueue.{System, Event, enqueued, advanced, done, new_tts_queue, step, run}
use voice_backend.TtsQueue.Fifo.{Served, sentences_of, run-new_tts_queue-Served}

abbrev controller : SpeechController
unfolding new_speech_controller
controller = new_speech_controller (record {
  allow_while_speaking = true;
  min_partial_chars = 0;
  min_silence_for_end = 0;
  debounce_min = 0;
  debounce_max = 0;
})

-- Two sentences; the goroutine starts and takes the first one.
abbrev playing : List Event
playing =
    enqueued (text "a")
    ∷ advanced 0 done
    ∷ advanced 0 done
    ∷ enqueued (text "b")
    ∷ advanced 0 done
    ∷ []

abbrev system : System
system = run (new_tts_queue controller) playing

playing_run : (system.streams ≡ text "a" ∷ []) × (system.queue ≡ text "b" ∷ [])
unfolding run step new_tts_queue
playing_run = (refl, refl)

run-new_tts_queue-Served_example : Served system (sentences_of playing)
run-new_tts_queue-Served_example =
    run-new_tts_queue-Served controller playing (tt, (tt, (tt, (tt, (tt, tt)))))
