-- ===== src/VoiceSession/Mixing.antt =====
-- All agents of a session share one sentence buffer, and `handleResponseDelta` asks the arbiter only
-- once a sentence is complete.
use voice_backend.Common.{
  ◌≡◌, ◌≢◌, ap, Text, List, [], ◌∷◌, ◌++◌, Option, some, arith, append_assoc,
}
use voice_backend.SentenceBuffer.{SentenceBuffer, add, emit, segment}
use voice_backend.SentenceBuffer.Laws.{add_cases, length-slice, complete_count-le, count, seg}
use voice_backend.VoiceSession.{Session}
use voice_backend.VoiceSession.Messages.{
  handle_delta, take_sentences, on_agent_messages, on_agent_message, response_delta,
}

module _ (f : Text → Option (List Text)) where
  -- A piece that lets no sentence out is only appended.
  quiet-add :
      (e : Text) (sb b : SentenceBuffer)
      → add f e sb ≡ some (b, [])
      → b ≡ record sb { buffer = sb.buffer ++ e }
  quiet-add e sb b h = ground (
    arith,
    h,
    add_cases f e sb,
    length-slice sb.emitted (count f e sb) (seg f e sb).0,
    complete_count-le f (seg f e sb),
  )

  add-append :
      (e d : Text) (sb : SentenceBuffer)
      → add f d (record sb { buffer = sb.buffer ++ e }) ≡ add f (e ++ d) sb
  unfolding add
  add-append e d sb =
      ap (λ (t : Text). emit f (record sb { buffer = t }) (segment f t))
        (append_assoc sb.buffer e d)

  -- Whoever sends it, whether it was asked, lost or was cancelled: a piece that completes no sentence
  -- stays in the buffer, and the session then goes on exactly as if the next agent had sent it in
  -- front of its own piece.
  mixed_delta :
      (other id e d : Text) (s : Session) (b : SentenceBuffer)
      → e ≢ []
      → d ≢ []
      → add f e s.buffer ≡ some (b, [])
      → on_agent_messages f ((other, response_delta e) ∷ (id, response_delta d) ∷ []) s
        ≡ on_agent_message f id (response_delta (e ++ d)) s
  unfolding on_agent_messages on_agent_message handle_delta take_sentences
  mixed_delta other id e d s b some_e some_d h =
      ground (arith, h, some_e, some_d, quiet-add e s.buffer b h, add-append e d s.buffer)
