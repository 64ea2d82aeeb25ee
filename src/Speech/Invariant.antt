-- ===== src/Speech/Invariant.antt =====
-- What holds of a controller between two calls.
use voice_backend.Common.{◌<◌, ◌≡◌, List, [], ◌∷◌, arith}
use voice_backend.Speech.{
  SpeechController, BargeInPolicy, Call, new_speech_controller, is_output, call, run,
}

-- The synthesiser is active exactly in the states that stand for output, and the policy has the
-- durations that the constructor fills in.
pub record Inv (c : SpeechController) : Type 0 where
  pub output : is_output c.state ≡ c.tts_active
  pub silence_set : 0 < c.policy.min_silence_for_end
  pub debounce_min_set : 0 < c.policy.debounce_min
  pub debounce_max_set : 0 < c.policy.debounce_max

new_speech_controller-Inv : (p : BargeInPolicy) → Inv (new_speech_controller p)
unfolding new_speech_controller
new_speech_controller-Inv p = ground arith

pub call-Inv : (c : SpeechController) (x : Call) → Inv c → Inv (call c x).controller
unfolding call
call-Inv c x v = ground arith

run-Inv : (c : SpeechController) (xs : List Call) → Inv c → Inv (run c xs)
unfolding run
run-Inv c [] v = v
run-Inv c (x ∷ xs) v = run-Inv (call c x).controller xs (call-Inv c x v)

-- Whatever the policy and whatever calls were made since the controller was built, in any order,
-- the synthesiser is marked active exactly in the states speaking and interrupted, and the three
-- durations of the policy are positive.
pub run-new-Inv : (p : BargeInPolicy) (xs : List Call) → Inv (run (new_speech_controller p) xs)
run-new-Inv p xs = run-Inv (new_speech_controller p) xs (new_speech_controller-Inv p)
