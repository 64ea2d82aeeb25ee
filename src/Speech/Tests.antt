-- ===== src/Speech/Tests.antt =====
-- Runs of the controller, and the theorems at concrete calls.
use voice_backend.Common.{◌≡◌, refl, true, false, List, [], ◌∷◌}
use voice_backend.Speech.{
  BargeInPolicy, SpeechController, Call, speaking, interrupted, listening, user_speech_start,
  user_speech_end, tts_audio_start, new_speech_controller, call, run,
}
use voice_backend.Speech.Invariant.{Inv, run-new-Inv}

abbrev policy : BargeInPolicy
policy = record {
  allow_while_speaking = true;
  min_partial_chars = 3;
  min_silence_for_end = 0;
  debounce_min = 0;
  debounce_max = 7;
}

abbrev talk : List Call
talk = user_speech_start 10 ∷ user_speech_end 20 ∷ tts_audio_start ∷ user_speech_start 30 ∷ []

talk_interrupts : (run (new_speech_controller policy) talk).state ≡ interrupted
unfolding run call new_speech_controller
talk_interrupts = refl

run-new-Inv_example : Inv (run (new_speech_controller policy) talk)
run-new-Inv_example = run-new-Inv policy talk

abbrev speaker : SpeechController
speaker = record { state = speaking; policy = policy; tts_active = true; last_speech = 0 }

abbrev listener : SpeechController
listener = record { state = listening; policy = policy; tts_active = false; last_speech = 5 }
