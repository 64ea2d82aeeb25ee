-- ===== src/VoiceSession/Audible.antt =====
-- When the output is heard again after an interruption.
use voice_backend.Common.{◌≡◌, refl, ap, ◌∙◌, true, not, [], arith, if◌then◌else◌, ℕ}
use voice_backend.Speech.{is_output, interrupted, barge_in, on_user_speech_end, on_tts_audio_end}
use voice_backend.TtsQueue.{System, clear}
use voice_backend.VoiceSession.{
  Session, acted, on_speech_start, on_speech_end, with_speech, cancel_active_agents, is_audible,
  clear_queue, execute, execute_actions, send_event, stop_speaking,
}
use voice_backend.VoiceSession.Silence.{
  CanInterrupt, stopped, on_speech_start_lem, barge_in_silences,
}
use voice_backend.VoiceSession.Speaking.{cancel_agents-Alike}

-- The end of the user's speech makes the output audible unless the controller is in an output state.
on_speech_end-audible :
    (now : ℕ) (s : Session)
    → is_audible (on_speech_end now s)
      ≡ (if is_output s.tts.speech.state then is_audible s else true)
unfolding on_speech_end on_user_speech_end execute_actions execute send_event
on_speech_end-audible now s = ground arith

-- `Clear` ends the speech of the controller exactly if a goroutine had started to speak.
clear_queue-state :
    (q : System)
    → q.speech.state ≡ interrupted
    → is_output (clear_queue q).speech.state ≡ not q.started
unfolding clear_queue clear on_tts_audio_end
clear_queue-state q h = ground (arith, h)

barge_in-state :
    (now : ℕ) (s : Session)
    → CanInterrupt s
    → is_output (on_speech_start now s).tts.speech.state ≡ not s.tts.started
unfolding cancel_active_agents stop_speaking send_event
barge_in-state now s h =
    let bare : Session = record (stopped now s) { active_agents = [] } in
    ap (λ (t : Session). is_output t.tts.speech.state) (on_speech_start_lem now s h)
    ∙ ap (λ (q : System). is_output q.speech.state)
        (cancel_agents-Alike (acted barge_in) s.active_agents bare).tts
    ∙ clear_queue-state
        (with_speech (record s.tts.speech { last_speech = now; state = interrupted }) s).tts refl

-- When the user stops speaking after an interruption, audio goes out again exactly if a goroutine of the
-- queue had started to speak: then `Clear` has told the controller of the end. If the session spoke a
-- complete answer instead, the end of the user's speech leaves the output silent.
pub barge_in-audible_iff :
    (now later : ℕ) (s : Session)
    → CanInterrupt s
    → is_audible (on_speech_end later (on_speech_start now s)) ≡ s.tts.started
barge_in-audible_iff now later s h = ground (
  arith,
  on_speech_end-audible later (on_speech_start now s),
  barge_in-state now s h,
  (barge_in_silences now s h).silent,
)
