-- ===== src/Speech/Actions.antt =====
-- Which calls ask for which actions.
use voice_backend.Common.{ℕ, ◌≡◌, ◌≢◌, ◌↔◌, Bool, true, false, ◌||◌, List, [], ◌∷◌, arith, All}
use voice_backend.Speech.{
  ActionType, stop_tts, cancel_agent, pause_output, resume_output, end_utterance, Action, Reason,
  SpeechController, BargeInPolicy, speaking, interrupted, listening, idle, Call, user_speech_start,
  user_speech_end, backpressured, silence_check, new_speech_controller, call, run, silencing,
  tts_audio_start, tts_audio_end,
}
use voice_backend.Speech.Invariant.{Inv, run-new-Inv}

abbrev is_type : ActionType → ActionType → Bool
is_type stop_tts stop_tts = true
is_type cancel_agent cancel_agent = true
is_type pause_output pause_output = true
is_type resume_output resume_output = true
is_type end_utterance end_utterance = true
is_type _ _ = false

-- Some action of the list has the type.
abbrev pub asks_for : ActionType → List Action → Bool
asks_for t [] = false
asks_for t (a ∷ rest) = is_type t a.type || asks_for t rest

-- The calls that interrupt a controller.
pub data Interrupts (c : SpeechController) : Call → Type 0 where
  barges :
      (now : ℕ)
      → c.state ≡ speaking
      → c.policy.allow_while_speaking ≡ true
      → Interrupts c (user_speech_start now)
  overflows : c.tts_active ≡ true → Interrupts c backpressured

-- A call asks to stop the synthesis exactly if it is a start of speech while the controller speaks
-- under a policy that allows it, or backpressure while the synthesiser is active.
stops_iff :
    (c : SpeechController) (x : Call)
    → (asks_for stop_tts (call c x).actions ≡ true) ↔ Interrupts c x
unfolding call
stops_iff c x = (stops c x, halts c x)
  where
    stops :
        (c : SpeechController) (x : Call)
        → asks_for stop_tts (call c x).actions ≡ true
        → Interrupts c x
    stops c (user_speech_start now) h = barges now (ground arith) (ground arith)
    stops c backpressured h = overflows (ground arith)
    stops c tts_audio_start h = ground arith
    stops c tts_audio_end h = ground arith
    stops c (user_speech_end now) h = ground arith
    stops c (silence_check now) h = ground arith

    halts :
        (c : SpeechController) (x : Call)
        → Interrupts c x
        → asks_for stop_tts (call c x).actions ≡ true
    halts c x (barges now s a) = ground arith
    halts c x (overflows t) = ground arith

-- The actions come as whole groups: a call that asks to stop asks to stop, to cancel the agents and
-- to pause, in this order and for one reason, and leaves the controller interrupted.
silencing_whole :
    (c : SpeechController) (x : Call)
    → asks_for stop_tts (call c x).actions ≡ true
    → (r : Reason) × ((call c x).actions ≡ silencing r)
      × ((call c x).controller.state ≡ interrupted)
unfolding call
silencing_whole c (user_speech_start now) h = (Reason.barge_in, ground arith, ground arith)
silencing_whole c backpressured h = (Reason.backpressure, ground arith, ground arith)
silencing_whole c tts_audio_start h = ground arith
silencing_whole c tts_audio_end h = ground arith
silencing_whole c (user_speech_end now) h = ground arith
silencing_whole c (silence_check now) h = ground arith

resumes_iff :
    (c : SpeechController) (now : ℕ)
    → Inv c
    → let out = (call c (user_speech_end now)).actions in
      ((asks_for end_utterance out ≡ true) ↔ (c.tts_active ≡ false))
      × ((asks_for resume_output out ≡ true) ↔ (c.tts_active ≡ false))
unfolding call
resumes_iff c now v =
    ((λ h. ground arith, λ h. ground arith), (λ h. ground arith, λ h. ground arith))

-- After any history of a new controller, an end of the user's speech ends the utterance exactly if
-- the synthesiser is not active then, and it resumes the output in the same cases.
speech_end-resumes_iff :
    (p : BargeInPolicy) (xs : List Call) (now : ℕ)
    → let c = run (new_speech_controller p) xs in
      let out = (call c (user_speech_end now)).actions in
      ((asks_for end_utterance out ≡ true) ↔ (c.tts_active ≡ false))
      × ((asks_for resume_output out ≡ true) ↔ (c.tts_active ≡ false))
speech_end-resumes_iff p xs now =
    resumes_iff (run (new_speech_controller p) xs) now (run-new-Inv p xs)

-- A history that holds no start of the user's speech.
abbrev pub IsQuiet : Call → Type 0
IsQuiet (user_speech_start now) = ⊥
IsQuiet _ = Unit {0}

quiet_step :
    (c : SpeechController) (x : Call)
    → c.state ≢ listening
    → IsQuiet x
    → ((call c x).controller.state ≢ listening) × ((call c x).ended ≡ false)
unfolding call
quiet_step c x h q = ground arith

not_ended :
    (c : SpeechController) (xs : List Call) (now : ℕ)
    → c.state ≢ listening
    → All IsQuiet xs
    → (call (run c xs) (silence_check now)).ended ≡ false
unfolding run
not_ended c [] now h q = (quiet_step c (silence_check now) h tt).1
not_ended c (x ∷ xs) now h q = not_ended (call c x).controller xs now (quiet_step c x h q.0).0 q.1

ended_idle :
    (c : SpeechController) (now : ℕ)
    → (call c (silence_check now)).ended ≡ true
    → (call c (silence_check now)).controller.state ≡ idle
unfolding call
ended_idle c now h = ground arith

-- An utterance is ended by silence once: after a check that reports the end, no check reports it
-- again, whatever calls come between, unless the user starts to speak.
silence_once :
    (c : SpeechController) (now later : ℕ) (xs : List Call)
    → (call c (silence_check now)).ended ≡ true
    → All IsQuiet xs
    → (call (run (call c (silence_check now)).controller xs) (silence_check later)).ended ≡ false
silence_once c now later xs h q =
    not_ended (call c (silence_check now)).controller xs later
      (λ e. ground (arith, ended_idle c now h)) q
