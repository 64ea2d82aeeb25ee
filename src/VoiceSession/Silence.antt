-- ===== src/VoiceSession/Silence.antt =====
-- The user interrupts the output: what is silenced, what stays silent, and when the output is heard
-- again.
use voice_backend.Common.{
  ◌≡◌, ◌≢◌, refl, sym, ap, subst, ◌∙◌, Text, true, false, List, [], ◌∷◌, ◌++◌, Option, some, none,
  ◌==◌, arith, append_assoc, append-nil, if◌then◌else◌, ℕ, All,
}
use voice_backend.Speech.{speaking, interrupted, barge_in, on_user_speech_start}
use voice_backend.Arbiter.{Arbiter, decide}
use voice_backend.Arbiter as Arb
use voice_backend.SentenceBuffer.{SentenceBuffer, new_sentence_buffer}
use voice_backend.TtsQueue.{System, clear}
use voice_backend.VoiceSession.{
  Session, Effect, event, cancellation, flushed, speech_started, agent_cancelled, acted,
  CancelReason, on_speech_start, with_speech, cancel_agents, cancel_active_agents, is_audible,
  clear_queue, execute, execute_actions, send_event, stop_speaking,
}
use voice_backend.VoiceSession.Messages.{
  AgentMessage, on_agent_message, on_agent_messages, handle_complete, handle_delta, handle_done,
  response_delta, response, response_done, take_sentences, speak_sentences, settle, reset_buffer,
}
use voice_backend.VoiceSession.Answer.{add-some}
use voice_backend.VoiceSession.Speaking.{cancel_agents-Alike}

-- What the agents and the client are told when these agents are cancelled.
abbrev pub told_of : CancelReason → List Text → List Effect
told_of reason [] = []
told_of reason (id ∷ ids) =
    cancellation id reason ∷ event (agent_cancelled id reason) ∷ told_of reason ids

cancel_agents-effects :
    (reason : CancelReason) (ids : List Text) (s : Session)
    → (cancel_agents reason ids s).effects ≡ s.effects ++ told_of reason ids
unfolding cancel_agents send_event
cancel_agents-effects reason [] s = sym (append-nil s.effects)
cancel_agents-effects reason (id ∷ ids) s =
    cancel_agents-effects reason ids _
    ∙ append_assoc (s.effects ++ cancellation id reason ∷ [])
        (event (agent_cancelled id reason) ∷ []) _
    ∙ append_assoc s.effects (cancellation id reason ∷ []) _

cancel_agents-rest :
    (reason : CancelReason) (ids : List Text) (s : Session)
    → ((cancel_agents reason ids s).active_agents ≡ s.active_agents)
      × ((cancel_agents reason ids s).tts_cancel_ch ≡ s.tts_cancel_ch)
      × ((cancel_agents reason ids s).closed_channels ≡ s.closed_channels)
      × ((cancel_agents reason ids s).output ≡ s.output)
unfolding cancel_agents send_event
cancel_agents-rest reason [] s = (refl, refl, refl, refl)
cancel_agents-rest reason (id ∷ ids) s = cancel_agents-rest reason ids _

-- The session speaks, under a policy that lets the user interrupt.
abbrev pub CanInterrupt : Session → Type 0
CanInterrupt s = (s.tts.speech.state ≡ speaking) × (s.tts.speech.policy.allow_while_speaking ≡ true)

-- The session behind `stopTTS` and `cancelActiveAgents` of an interruption.
abbrev pub stopped : ℕ → Session → Session
stopped now s = stop_speaking (
    with_speech (record s.tts.speech { last_speech = now; state = interrupted })
      (send_event speech_started s))

pub on_speech_start_lem :
    (now : ℕ) (s : Session)
    → CanInterrupt s
    → let t = cancel_active_agents barge_in (stopped now s) in
      on_speech_start now s ≡ record t { output = record t.output { paused = true } }
unfolding on_speech_start on_user_speech_start execute_actions execute send_event
on_speech_start_lem now s h = ground (arith, h.0, h.1)

clear_queue-empty : (q : System) → ((clear_queue q).queue ≡ []) × ((clear_queue q).playing ≡ false)
unfolding clear_queue clear
clear_queue-empty q = (ground arith, ground arith)

-- All is silent in `t`, which was `s` before: the queue is empty and not playing, the sentence buffer is as
-- new, no agent is active and the arbitration is over, there is no channel of a synthesis left to
-- close and no audio goes out. The effects are exactly: the client is told of the start of speech, the
-- queue of the connection is flushed, and each agent that was active is cancelled, in order, and the
-- client told of it.
pub record Silenced (s t : Session) : Type 0 where
  queue : t.tts.queue ≡ []
  playing : t.tts.playing ≡ false
  buffer : t.buffer ≡ new_sentence_buffer
  agents : t.active_agents ≡ []
  arbiter : t.arbiter ≡ Arb.reset s.arbiter
  channel : t.tts_cancel_ch ≡ none
  pub silent : is_audible t ≡ false
  effects :
      t.effects
      ≡ s.effects ++ event speech_started ∷ flushed ∷ told_of (acted barge_in) s.active_agents

stopped-Silenced :
    (now : ℕ) (s : Session)
    → let t = cancel_active_agents barge_in (stopped now s) in
      Silenced s (record t { output = record t.output { paused = true } })
unfolding cancel_active_agents stop_speaking new_sentence_buffer send_event Arb.reset
stopped-Silenced now s =
    let bare : Session = record (stopped now s) { active_agents = [] } in
    let same = cancel_agents-Alike (acted barge_in) s.active_agents bare in
    let (a, c, z, o) = cancel_agents-rest (acted barge_in) s.active_agents bare in
    let empty =
      clear_queue-empty
        (with_speech (record s.tts.speech { last_speech = now; state = interrupted }) s).tts in
    record {
      queue = ap (λ (q : System). q.queue) same.tts ∙ empty.0;
      playing = ap (λ (q : System). q.playing) same.tts ∙ empty.1;
      buffer = same.buffer;
      agents = a;
      arbiter = refl;
      channel = c;
      silent = refl;
      effects =
          cancel_agents-effects (acted barge_in) s.active_agents bare
          ∙ append_assoc (s.effects ++ event speech_started ∷ []) (flushed ∷ []) _
          ∙ append_assoc s.effects (event speech_started ∷ []) _;
    }

-- When the user starts to speak while the session speaks, and the policy allows it, then all is silent,
-- in the sense of `Silenced`.
pub barge_in_silences :
    (now : ℕ) (s : Session) → CanInterrupt s → Silenced s (on_speech_start now s)
barge_in_silences now s h =
    subst (Silenced s) (sym (on_speech_start_lem now s h)) (stopped-Silenced now s)

-- A session in which nobody won and nobody can win.
abbrev pub IsClosed : Session → Type 0
IsClosed s = (s.arbiter.started ≡ false) × (s.arbiter.winner ≡ [])

decide_closed :
    (id : Text) (a : Arbiter)
    → a.started ≡ false
    → a.winner ≡ []
    → decide id a ≡ (a, record { winner = []; is_new = false })
unfolding decide
decide_closed id a h w = ground (arith, h, w)

settle_closed :
    (id : Text) (a : Arbiter) → a.started ≡ false → a.winner ≡ [] → settle id a ≡ (a, [])
unfolding settle
settle_closed id a h w = ground (arith, decide_closed id a h w, w)

-- Only the sentence buffer differs.
abbrev OnlyBuffer : Session → Session → Type 0
OnlyBuffer s t = (b : SentenceBuffer) × (t ≡ record s { buffer = b })

take_sentences-OnlyBuffer :
    (id : Text) (ts : List Text) (s : Session)
    → id ≢ []
    → IsClosed s
    → OnlyBuffer s (take_sentences id ts s)
unfolding take_sentences speak_sentences reset_buffer
take_sentences-OnlyBuffer id [] s h c = (s.buffer, refl)
take_sentences-OnlyBuffer id (t ∷ ts) s h c =
    (record { buffer = []; emitted = 0 }, ground (arith, h, decide_closed id s.arbiter c.0 c.1))

module _ (f : Text → Option (List Text)) where
  message-OnlyBuffer :
      (id : Text) (m : AgentMessage) (s : Session)
      → id ≢ []
      → IsClosed s
      → (b : SentenceBuffer) × (on_agent_message f id m s ≡ some (record s { buffer = b }))
  unfolding on_agent_message handle_delta handle_done handle_complete reset_buffer
  message-OnlyBuffer id (response_delta d) s h c =
      let (grown, out, e) = add-some f d s.buffer in
      let (b, same) = take_sentences-OnlyBuffer id out (record s { buffer = grown }) h c in
      (if d == [] then s.buffer else b, ground (arith, e, same))
  message-OnlyBuffer id (response t) s h c =
      (s.buffer, ground (arith, h, decide_closed id s.arbiter c.0 c.1))
  message-OnlyBuffer id response_done s h c =
      (record { buffer = []; emitted = 0 }, ground (arith, h, settle_closed id s.arbiter c.0 c.1))

  -- As long as no arbitration runs and nobody has won, as after a start of speech that interrupts and
  -- until the next transcript, whatever messages arrive from agents whose ids are not empty: no handler
  -- panics, nothing is enqueued or synthesised, nothing is sent, and nobody wins; at most the sentence
  -- buffer changes.
  pub closed_unheard :
      (ms : List (Text × AgentMessage)) (s : Session)
      → All (λ m. m.0 ≢ []) ms
      → IsClosed s
      → (b : SentenceBuffer) × (on_agent_messages f ms s ≡ some (record s { buffer = b }))
  unfolding on_agent_messages
  closed_unheard [] s h c = (s.buffer, refl)
  closed_unheard (m ∷ ms) s h c =
      let (b, e) = message-OnlyBuffer m.0 m.1 s h.0 c in
      let (b2, e2) = closed_unheard ms (record s { buffer = b }) h.1 c in
      (b2, ground (arith, e, e2))

-- An interruption closes the session.
on_speech_start-IsClosed :
    (now : ℕ) (s : Session) → CanInterrupt s → IsClosed (on_speech_start now s)
unfolding Arb.reset
on_speech_start-IsClosed now s h =
    let e = (barge_in_silences now s h).arbiter in
    (ap (λ (a : Arbiter). a.started) e, ap (λ (a : Arbiter). a.winner) e)

-- After a start of speech that interrupts the session, whatever late messages arrive from agents whose
-- ids are not empty, no handler panics, and the session is as the interruption left it, with its queue and
-- its effects, except for the sentence buffer. A late piece that is left in the buffer is not excluded from
-- what is spoken later.
pub barge_in-late_messages :
    (f : Text → Option (List Text)) (ms : List (Text × AgentMessage)) (now : ℕ) (s : Session)
    → All (λ m. m.0 ≢ []) ms
    → CanInterrupt s
    → (b : SentenceBuffer) × (on_agent_messages f ms (on_speech_start now s)
        ≡ some (record (on_speech_start now s) { buffer = b }))
barge_in-late_messages f ms now s h c =
    closed_unheard f ms (on_speech_start now s) h (on_speech_start-IsClosed now s c)
