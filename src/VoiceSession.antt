-- ===== src/VoiceSession.antt =====
-- internal/voicesession/session.go: the handlers of a session, over the components of the package.
-- A handler is one step, and what it does to the outside is appended to `effects` in the order of
-- the calls; an error of a call to the outside is only logged, so it has no branch. The connection
-- is that of internal/realtime/connection.go, which controls its output, so the type assertions
-- succeed; of it the two flags are kept that decide in `SendAudio` whether audio goes out. The outer
-- `none` is a panic. `time.Now` and the result of the vision analyser are arguments; the start of an analysis
-- in `onSpeechStart` is in VisionAnalyzer. The messages of agents are in the child Messages.
pub mod Messages
pub mod Speaking
pub mod Answer
pub mod Silence
pub mod Audible
pub mod Mixing
pub mod Utterance
mod Tests
use voice_backend.Common.{
  ℕ, ◌+◌, Text, Bool, true, false, not, ◌||◌, ◌&&◌, List, [], ◌∷◌, ◌++◌, Option, none, some, ◌==◌,
  map, if◌then◌else◌,
}
use voice_backend.Speech.{
  Action, ActionType, stop_tts, cancel_agent, pause_output, resume_output, end_utterance, Reason,
  barge_in, speech_end, backpressure, BargeInPolicy, SpeechController, new_speech_controller,
  on_tts_audio_start, on_tts_audio_end, on_user_speech_start, on_user_speech_end,
}
use voice_backend.Arbiter.{Arbiter, Decision, new_arbiter, start, decide, losers}
use voice_backend.Arbiter as Arb
use voice_backend.SentenceBuffer.{SentenceBuffer, new_sentence_buffer, add, flush}
use voice_backend.TtsQueue.{System, new_tts_queue, enqueue, clear}
use voice_backend.Router.{SmartRouter, route, ids_of, is_nil}
use voice_backend.Scopes.{
  AgentInfo, UserContext, UtterancePayload, VisionContext, group_by_scopes, build_payload,
  parse_scope_key,
}

-- Why an agent is cancelled.
pub data CancelReason : Type 0 where
  acted : Reason → CancelReason
  lost_arbitration : CancelReason

pub data SessionEvent : Type 0 where
  speech_started speech_ended tts_started tts_ended failed : SessionEvent
  partial_transcript : Text → SessionEvent
  agent_cancelled : Text → CancelReason → SessionEvent

-- What a session does to the outside: events for the client, messages for the agents, and calls of
-- the synthesiser and of the connection.
pub data Effect : Type 0 where
  event : SessionEvent → Effect
  cancellation : Text → CancelReason → Effect
  utterance : UtterancePayload → Effect
  to_agents : List Text → UtterancePayload → Effect
  synthesis : Text → ℕ → Effect
  flushed : Effect

-- The flags of `realtime.Conn`.
pub record Output : Type 0 where
  pub paused : Bool
  pub tts_stopped : Bool

-- A cancel channel is numbered; `closed_channels` are those that were closed.
pub record Session : Type 0 where
  pub router : SmartRouter
  pub arbiter : Arbiter
  pub buffer : SentenceBuffer
  pub tts : System
  pub active_agents : List Text
  pub tts_cancel_ch : Option ℕ
  pub channels : ℕ
  pub closed_channels : List ℕ
  pub output : Output
  pub effects : List Effect

unfoldable pub new_session : BargeInPolicy → SmartRouter → Session
unfolding new_arbiter new_sentence_buffer new_tts_queue new_speech_controller
new_session policy r = record {
  router = r;
  arbiter = new_arbiter;
  buffer = new_sentence_buffer;
  tts = new_tts_queue (new_speech_controller policy);
  active_agents = [];
  tts_cancel_ch = some 0;
  channels = 1;
  closed_channels = [];
  output = record { paused = false; tts_stopped = false };
  effects = [];
}

unfoldable pub send_event : SessionEvent → Session → Session
send_event e s = record s { effects = s.effects ++ event e ∷ [] }

abbrev pub put : Effect → Session → Session
put e s = record s { effects = s.effects ++ e ∷ [] }

abbrev pub with_speech : SpeechController → Session → Session
with_speech c s = record s { tts = record s.tts { speech = c } }

-- `SendAudio` hands audio on, on a connection that is connected.
abbrev pub is_audible : Session → Bool
is_audible s = not (s.output.paused || s.output.tts_stopped)

-- The loop of `cancelActiveAgents` and of `cancelLosers`.
unfoldable pub cancel_agents : CancelReason → List Text → Session → Session
unfolding send_event
cancel_agents reason [] s = s
cancel_agents reason (id ∷ ids) s =
    cancel_agents reason ids
      (send_event (agent_cancelled id reason) (put (cancellation id reason) s))

unfoldable pub cancel_active_agents : Reason → Session → Session
unfolding cancel_agents
cancel_active_agents reason s =
    let told = cancel_agents (acted reason) s.active_agents (record s { active_agents = [] }) in
    record told { arbiter = Arb.reset told.arbiter }

unfoldable pub cancel_losers : Session → Session
unfolding cancel_agents
cancel_losers s = cancel_agents lost_arbitration (losers s.arbiter) s

abbrev close_channel : Option ℕ → List ℕ → List ℕ
close_channel none closed = closed
close_channel (some c) closed = c ∷ closed

-- `Clear` with the call of `onEnd` behind its critical section, as its caller runs it.
unfoldable pub clear_queue : System → System
unfolding clear on_tts_audio_end
clear_queue q =
    let ended : System = record (clear q) {
      workers = q.workers;
      speech = on_tts_audio_end q.speech;
    } in
    if q.started then ended else clear q

-- `FlushAudioQueue` empties the queue of the connection, which the model does not hold.
unfoldable pub stop_speaking : Session → Session
unfolding clear_queue
stop_speaking s = record s {
  tts = clear_queue s.tts;
  buffer = record { buffer = []; emitted = 0 };
  tts_cancel_ch = none;
  closed_channels = close_channel s.tts_cancel_ch s.closed_channels;
  output = record s.output { tts_stopped = true };
  effects = s.effects ++ flushed ∷ [];
}

-- The `switch` of `executeActions`.
unfoldable pub execute : ActionType → Reason → Session → Session
unfolding stop_speaking cancel_active_agents
execute stop_tts reason s = stop_speaking s
execute cancel_agent reason s = cancel_active_agents reason s
execute pause_output reason s = record s { output = record s.output { paused = true } }
execute resume_output reason s = record s {
  output = record { paused = false; tts_stopped = false };
}
execute end_utterance reason s = s

unfoldable pub execute_actions : List Action → Session → Session
unfolding execute
execute_actions [] s = s
execute_actions (a ∷ actions) s = execute_actions actions (execute a.type a.reason s)

-- The actions of the controller, executed.
abbrev pub act_on : SpeechController × List Action → Session → Session
unfolding execute_actions
act_on (c, actions) s = execute_actions actions (with_speech c s)

unfoldable pub on_speech_start : ℕ → Session → Session
unfolding on_user_speech_start execute_actions send_event
on_speech_start now s =
    let told = send_event speech_started s in act_on (on_user_speech_start told.tts.speech now) told

unfoldable pub on_speech_end : ℕ → Session → Session
unfolding on_user_speech_end execute_actions send_event
on_speech_end now s =
    let told = send_event speech_ended s in act_on (on_user_speech_end told.tts.speech now) told

module _ (agents : List AgentInfo) (user_ctx : Option UserContext) where
  -- The loop of `onTranscript` over the groups.
  unfoldable pub publish_groups : UtterancePayload → List (Text × List Text) → Session → Session
  unfolding build_payload parse_scope_key
  publish_groups base [] s = s
  publish_groups base ((key, ids) ∷ groups) s =
      publish_groups base groups
        (put (to_agents ids (build_payload user_ctx base (parse_scope_key key))) s)

  abbrev pub or_all : List Text → List Text
  or_all [] = ids_of agents
  or_all (id ∷ ids) = id ∷ ids

  -- `onTranscript` on a text that is final and not empty, and what the camera saw.
  unfoldable pub on_final : Text → Option VisionContext → Session → Session
  unfolding route start group_by_scopes publish_groups
  on_final t vision s =
      let base : UtterancePayload = record {
        text = t;
        is_final = true;
        user = none;
        vision = vision;
      } in
      let (routed, found) = route t agents s.router in
      let targets = or_all found in
      let asked = record s {
        router = routed;
        active_agents = targets;
        arbiter = start targets s.arbiter;
      } in
      if is_nil agents
      then put (utterance base) s
      else publish_groups base (group_by_scopes agents targets) asked

  -- The result of the vision analyser is read behind the two early returns.
  unfoldable pub on_transcript : Bool → Text → Option VisionContext → Session → Session
  unfolding on_final send_event
  on_transcript is_partial t vision s =
      if is_partial
      then send_event (partial_transcript t) s
      else if t == []
      then s
      else on_final t vision s

-- `synthesizeResponse`: its start, and how the call of the synthesiser ends.
unfoldable pub synthesis_starts : Session → Session
unfolding on_tts_audio_start send_event
synthesis_starts s = send_event tts_started (with_speech (on_tts_audio_start s.tts.speech) s)

unfoldable pub synthesis_done : Session → Session
unfolding on_tts_audio_end send_event
synthesis_done s =
    let told = send_event tts_ended (with_speech (on_tts_audio_end s.tts.speech) s) in
    record told { arbiter = Arb.reset told.arbiter }

unfoldable pub synthesis_fails : Session → Session
unfolding on_tts_audio_end send_event
synthesis_fails s = send_event failed (with_speech (on_tts_audio_end s.tts.speech) s)
