-- ===== src/VoiceSession/Messages.antt =====
-- internal/voicesession/session.go: the handlers of what agents send, over those of the parent module.
use voice_backend.Common.{
  ◌+◌, Text, not, List, [], ◌∷◌, ◌++◌, Option, none, some, ◌==◌, if◌then◌else◌,
}
use voice_backend.Arbiter.{Arbiter, Decision, new_arbiter, start, decide, losers}
use voice_backend.SentenceBuffer.{add, flush}
use voice_backend.TtsQueue.{enqueue}
use voice_backend.Arbiter as Arb
use voice_backend.VoiceSession.{Session, send_event, cancel_losers, tts_started, synthesis}

-- The sentences of an answer, handed to the queue.
unfoldable pub enqueue_all : List Text → Session → Session
unfolding enqueue
enqueue_all [] s = s
enqueue_all (t ∷ ts) s = enqueue_all ts (record s { tts = enqueue t s.tts })

unfoldable pub reset_buffer : Session → Session
reset_buffer s = record s { buffer = record { buffer = []; emitted = 0 } }

-- `handleResponseDelta` behind `Decide`, with the decision.
unfoldable pub speak_sentences : Text → List Text → Decision → Session → Session
unfolding reset_buffer cancel_losers send_event enqueue_all
speak_sentences id sentences d s =
    if not (d.winner == id)
    then reset_buffer s
    else enqueue_all sentences (if d.is_new then send_event tts_started (cancel_losers s) else s)

-- The sentences that `Add` lets out, by whether there are any.
unfoldable pub take_sentences : Text → List Text → Session → Session
unfolding decide speak_sentences
take_sentences id [] s = s
take_sentences id (t ∷ ts) s =
    let (a, d) = decide id s.arbiter in speak_sentences id (t ∷ ts) d (record s { arbiter = a })

-- `handleResponseDone` behind the arbitration, with the rest that `Flush` gives.
unfoldable pub speak_rest : Text → Session → Session
unfolding enqueue
speak_rest remaining s =
    let spoken = if remaining == [] then s else record s { tts = enqueue remaining s.tts } in
    record spoken { arbiter = Arb.reset spoken.arbiter }

-- The arbitration of `handleResponseDone`.
unfoldable pub settle : Text → Arbiter → Arbiter × Text
unfolding decide
settle id a = let (b, d) = decide id a in if a.winner == [] then (b, d.winner) else (a, a.winner)

unfoldable pub handle_complete : Text → Text → Session → Session
unfolding decide cancel_losers
handle_complete id t s =
    let (a, d) = decide id s.arbiter in
    let decided = record s { arbiter = a } in
    let told = if d.is_new then cancel_losers decided else decided in
    if t == [] then s else if not (d.winner == id) then decided else record told {
      tts_cancel_ch = some told.channels;
      channels = told.channels + 1;
      effects = told.effects ++ synthesis t told.channels ∷ [];
    }

-- What an agent sends, with the text of its payload; a request for frames is that of Frames.
pub data AgentMessage : Type 0 where
  response_delta response : Text → AgentMessage
  response_done : AgentMessage

module _ (sentences_of : Text → Option (List Text)) where
  unfoldable pub handle_delta : Text → Text → Session → Option Session
  unfolding add take_sentences
  handle_delta id delta s = if delta == [] then some s else elim (add sentences_of delta s.buffer) [
    | none ↦ none
    | some (b, sentences) ↦ some (take_sentences id sentences (record s { buffer = b }))
  ]

  unfoldable pub handle_done : Text → Session → Option Session
  unfolding settle reset_buffer flush speak_rest
  handle_done id s =
      let (a, winner) = settle id s.arbiter in
      let settled = record s { arbiter = a } in
      if not (winner == id)
      then some (reset_buffer settled)
      else elim (flush sentences_of s.buffer) [
        | none ↦ none
        | some (b, remaining) ↦ some (speak_rest remaining (record settled { buffer = b }))
      ]

  -- The `switch` of `onAgentResponse`.
  unfoldable pub on_agent_message : Text → AgentMessage → Session → Option Session
  unfolding handle_delta handle_done handle_complete
  on_agent_message id (response_delta d) s = handle_delta id d s
  on_agent_message id (response t) s = some (handle_complete id t s)
  on_agent_message id response_done s = handle_done id s

  -- The messages of agents in the order in which they arrive.
  unfoldable pub on_agent_messages : List (Text × AgentMessage) → Session → Option Session
  unfolding on_agent_message
  on_agent_messages [] s = some s
  on_agent_messages (m ∷ ms) s = elim (on_agent_message m.0 m.1 s) [
    | none ↦ none
    | some t ↦ on_agent_messages ms t
  ]
