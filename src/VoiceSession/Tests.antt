-- ===== src/VoiceSession/Tests.antt =====
-- A session with two agents, what its handlers do, and the theorems at it.
use voice_backend.Common.{
  ◌≡◌, ◌≢◌, refl, Text, text, Text-discrete, true, false, List, [], ◌∷◌, ◌++◌, none, some, map,
}
use voice_backend.Common.Map.{lookup, insert}
use voice_backend.Arbiter as Arb
use voice_backend.SentenceBuffer.Points.{points}
use voice_backend.SentenceBuffer.{
  complete_count, segment, ends_with_terminator, trim_space, join, new_sentence_buffer,
  SentenceBuffer,
}
use voice_backend.SentenceBuffer.Coverage.{sentences, IsStable}
use voice_backend.TtsQueue.{enqueued, run}
use voice_backend.Scopes.{AgentInfo, scope_vision}
use voice_backend.Router.{new_smart_router}
use voice_backend.VoiceSession.{
  Session, new_session, on_transcript, on_speech_start, on_speech_end, is_audible, synthesis_starts,
}
use voice_backend.VoiceSession.Messages.{on_agent_messages, response, response_done}
use voice_backend.VoiceSession.Answer.{deltas, joined, answer_spoken}
use voice_backend.VoiceSession.Speaking.{MaySpeak}
use voice_backend.VoiceSession.Silence.{Silenced, barge_in_silences, barge_in-late_messages}
use voice_backend.VoiceSession.Audible.{barge_in-audible_iff}
use voice_backend.VoiceSession.Utterance.{Asked, base_of, on_transcript-Asked}

abbrev agent : Text → List Text → AgentInfo
agent id scopes = record {
  id = id;
  model = [];
  name = [];
  description = id;
  keywords = [];
  capabilities = [];
  examples = [];
  granted_scopes = scopes;
}

abbrev agents : List AgentInfo
agents = agent (text "chef") (scope_vision ∷ []) ∷ agent (text "pilot") [] ∷ []

abbrev fresh : Session
fresh =
    new_session
      (record {
        allow_while_speaking = true;
        min_partial_chars = 0;
        min_silence_for_end = 0;
        debounce_min = 0;
        debounce_max = 0;
      })
      new_smart_router

-- Nobody matches, so both are asked.
abbrev asked : Session
asked = on_transcript agents none false (text "dinner?") none fresh

on_transcript-Asked_example :
    Asked agents none (base_of agents none (text "dinner?") none) fresh asked
on_transcript-Asked_example =
    on_transcript-Asked agents none (text "dinner?") none fresh (λ e. cc) refl

-- The chef alone may answer.
abbrev ready : Session
ready = record fresh { arbiter = Arb.start (text "chef" ∷ []) fresh.arbiter }

chef-MaySpeak : MaySpeak (text "chef") ready.arbiter
unfolding Arb.start Arb.mark_all lookup insert Text-discrete new_session
chef-MaySpeak = record { running = refl; asked = refl; open_to = refl }

some_chef : text "chef" ≢ []
some_chef e = cc

-- The answer "ok. so" in two pieces: three points are let out by the first, two by the second, and the
-- last one is the rest.
abbrev pieces : List Text
pieces = text "Okay. S" ∷ text "o be it. Bye" ∷ []

pieces-IsStable : IsStable points [] pieces
unfolding segment complete_count ends_with_terminator Text-discrete
pieces-IsStable = ((refl, refl), (refl, tt))

answer_run :
    elim (on_agent_messages points
      (deltas (text "chef") pieces ++ (text "chef", response_done) ∷ [])
      ready) [ none ↦ [] | some t ↦ t.tts.queue ]
    ≡ text "Okay." ∷ text "So be it." ∷ text "Bye" ∷ []
unfolding on_agent_messages lookup Text-discrete Arb.start Arb.mark_all insert new_session
    complete_count Arb.losers trim_space join
answer_run = refl

answer_spoken_example :
    (t : Session) × (outs pending : List Text) × (on_agent_messages points
        (deltas (text "chef") pieces ++ (text "chef", response_done) ∷ [])
        ready
      ≡ some t)
    × (t.tts ≡ run ready.tts (map enqueued (outs ++ joined pending)))
    × (outs ++ pending ≡ sentences points (text "Okay. So be it. Bye"))
    × (t.buffer ≡ new_sentence_buffer)
    × (t.arbiter ≡ Arb.reset ready.arbiter)
unfolding new_session
answer_spoken_example =
    answer_spoken points (text "chef") some_chef pieces ready pieces-IsStable
      ((λ e. cc), ((λ e. cc), tt)) (λ e. cc) refl chef-MaySpeak

-- The session speaks a complete answer.
abbrev talking : Session
talking = synthesis_starts ready

barge_in_silences_example : Silenced talking (on_speech_start 5 talking)
unfolding synthesis_starts new_session
barge_in_silences_example = barge_in_silences 5 talking (refl, refl)

barge_in-late_messages_example :
    (b : SentenceBuffer) × (on_agent_messages points
        ((text "chef", response (text "late")) ∷ [])
        (on_speech_start 5 talking)
      ≡ some (record (on_speech_start 5 talking) { buffer = b }))
unfolding synthesis_starts new_session
barge_in-late_messages_example =
    barge_in-late_messages points ((text "chef", response (text "late")) ∷ []) 5 talking
      ((λ e. cc), tt) (refl, refl)

barge_in-audible_iff_example : is_audible (on_speech_end 9 (on_speech_start 5 talking)) ≡ false
unfolding synthesis_starts new_session
barge_in-audible_iff_example = barge_in-audible_iff 5 9 talking (refl, refl)
