-- ===== src/VoiceSession/Answer.antt =====
-- An answer that streams in from one asked agent is spoken whole: what the handlers of its pieces
-- and of its end hand to the queue.
use voice_backend.Common.{
  ◌≡◌, ◌≢◌, inl, inr, refl, sym, ap, ◌∙◌, Text, List, [], ◌∷◌, ◌++◌, Option, some, All,
  Option-cases, ◌==◌, if◌then◌else◌, arith, text, map,
}
use voice_backend.Arbiter.{Arbiter, Decision, flag, decide, losers}
use voice_backend.Arbiter as Arb
use voice_backend.SentenceBuffer.{
  SentenceBuffer, new_sentence_buffer, add, add_all, flush, trim_space, join,
}
use voice_backend.SentenceBuffer.Laws.{add_cases}
use voice_backend.SentenceBuffer.Coverage.{sentences, IsStable, whole, add_all-flush}
use voice_backend.TtsQueue.{System, enqueued, run, step}
use voice_backend.VoiceSession.{Session}
use voice_backend.VoiceSession.Messages.{
  take_sentences, speak_rest, settle, handle_delta, handle_done, on_agent_message,
  on_agent_messages, AgentMessage, response_delta, response_done,
}
use voice_backend.VoiceSession.Speaking.{
  MaySpeak, decide-MaySpeak, enqueued_all, Spoke, take_sentences-Spoke,
}

-- The messages of one answer that streams in.
abbrev pub deltas : Text → List Text → List (Text × AgentMessage)
deltas id [] = []
deltas id (d ∷ ds) = (id, response_delta d) ∷ deltas id ds

module _ (f : Text → Option (List Text)) (id : Text) where
  delta-Spoke :
      (d : Text) (s : Session) (b : SentenceBuffer) (out : List Text)
      → d ≢ []
      → id ≢ []
      → MaySpeak id s.arbiter
      → add f d s.buffer ≡ some (b, out)
      → (t : Session) × (on_agent_message f id (response_delta d) s ≡ some t) × Spoke id out b s t
  unfolding on_agent_message handle_delta
  delta-Spoke d s b out some_text h m e = (
    take_sentences id out (record s { buffer = b }),
    ground (arith, some_text, e),
    take_sentences-Spoke id out (record s { buffer = b }) h m,
  )

  done-Spoke :
      (s : Session) (b : SentenceBuffer) (rest : Text)
      → id ≢ []
      → MaySpeak id s.arbiter
      → flush f s.buffer ≡ some (b, rest)
      → (t : Session) × (on_agent_message f id response_done s ≡ some t)
        × (t.tts ≡ enqueued_all (if rest == [] then [] else rest ∷ []) s.tts)
        × (t.buffer ≡ b)
        × (t.arbiter ≡ Arb.reset s.arbiter)
  unfolding on_agent_message handle_done settle speak_rest run step Arb.reset
  done-Spoke s b rest h m e =
      let settled : Session = record s { arbiter = (settle id s.arbiter).0; buffer = b } in
      (
        speak_rest rest settled,
        ground (arith, e, decide-MaySpeak id s.arbiter h m, m.open_to),
        ground arith,
        ground arith,
        ground arith,
      )

enqueued_all-append :
    (xs ys : List Text) (q : System)
    → enqueued_all (xs ++ ys) q ≡ enqueued_all ys (enqueued_all xs q)
unfolding run
enqueued_all-append [] ys q = refl
enqueued_all-append (x ∷ xs) ys q = enqueued_all-append xs ys (step q (enqueued x))

-- The rest of an answer as it is enqueued: nothing, or one text.
abbrev pub joined : List Text → List Text
joined pending =
    let rest = trim_space (join (text " ") pending) in if rest == [] then [] else rest ∷ []

pub add-some :
    (f : Text → Option (List Text)) (d : Text) (sb : SentenceBuffer)
    → (b : SentenceBuffer) × (out : List Text) × (add f d sb ≡ some (b, out))
add-some f d sb = (_, _, add_cases f d sb)

module _ (f : Text → Option (List Text)) (id : Text) (some_id : id ≢ []) where
  -- The handlers of the pieces do to the queue what `Add` does to the buffer.
  deltas-Spoke :
      (ds : List Text) (s : Session) (b : SentenceBuffer) (outs : List Text)
      → All (λ d. d ≢ []) ds
      → MaySpeak id s.arbiter
      → add_all f ds s.buffer ≡ some (b, outs)
      → (t : Session) × (on_agent_messages f (deltas id ds) s ≡ some t) × Spoke id outs b s t
  unfolding on_agent_messages add_all run
  deltas-Spoke [] s b outs n m e = (s, refl, (ground (arith, e), ground (arith, e), m))
  deltas-Spoke (d ∷ ds) s b outs n m e =
      let (b1, out, first) = add-some f d s.buffer in
      let (t, sent, (q, kept, may)) = delta-Spoke f id d s b1 out n.0 some_id m first in
      elim (Option-cases (add_all f ds t.buffer)) [
        | inl none_e ↦ absurd (ground (arith, e, first, ap (add_all f ds) (sym kept) ∙ none_e))
        | inr ((b2, more), e2) ↦
            let (u, sent2, (q2, kept2, may2)) = deltas-Spoke ds t b2 more n.1 may e2 in
            let e3 : add_all f ds b1 ≡ some (b2, more) = ap (add_all f ds) (sym kept) ∙ e2 in
            let same_outs : outs ≡ out ++ more = ground (arith, e, first, e3) in
            (
              u,
              ground (arith, sent, sent2),
              (
                q2
                    ∙ ap (enqueued_all more) q
                    ∙ sym (enqueued_all-append out more s.tts)
                    ∙ ap (λ ts. enqueued_all ts s.tts) (sym same_outs),
                ground (arith, e, first, e3, kept2),
                may2,
              ),
            )
      ]

  messages-append :
      (xs ys : List (Text × AgentMessage)) (s t : Session)
      → on_agent_messages f xs s ≡ some t
      → on_agent_messages f (xs ++ ys) s ≡ on_agent_messages f ys t
  unfolding on_agent_messages
  messages-append [] ys s t e = ground (arith, e)
  messages-append (x ∷ xs) ys s t e = elim (Option-cases (on_agent_message f x.0 x.1 s)) [
    | inl n ↦ absurd (ground (arith, e, n))
    | inr (u, e2) ↦ ground (arith, e, e2, messages-append xs ys u t)
  ]

  -- An agent that was asked, while nobody else has won and the buffer is empty, streams its answer in
  -- pieces that are not empty and ends it, and while it grows by them, the segmenter revises no sentence
  -- that was complete at the end of a piece. Then no handler panics, and together they do to the queue exactly one `Enqueue` for each sentence that `Add` let
  -- out and one for the joined rest: these sentences, in order, are all sentences of the answer. The
  -- buffer is empty again and the arbitration is over.
  pub answer_spoken :
      (ds : List Text) (s : Session)
      → IsStable f [] ds
      → All (λ d. d ≢ []) ds
      → whole ds ≢ []
      → s.buffer ≡ new_sentence_buffer
      → MaySpeak id s.arbiter
      → (t : Session) × (outs pending : List Text) × (on_agent_messages f
            (deltas id ds ++ (id, response_done) ∷ [])
            s
          ≡ some t)
        × (t.tts ≡ run s.tts (map enqueued (outs ++ joined pending)))
        × (outs ++ pending ≡ sentences f (whole ds))
        × (t.buffer ≡ new_sentence_buffer)
        × (t.arbiter ≡ Arb.reset s.arbiter)
  unfolding on_agent_messages Arb.reset
  answer_spoken ds s stable n w e m =
      let (b, outs, pending, added, flushed, all) = add_all-flush f ds stable w in
      let (t, sent, (q, kept, may)) = deltas-Spoke ds s b outs n m (ap (add_all f ds) e ∙ added) in
      let (u, ended, q2, kept2, over) =
        done-Spoke f id t new_sentence_buffer _ some_id may (ap (flush f) kept ∙ flushed) in
      (
        u,
        outs,
        pending,
        messages-append (deltas id ds) ((id, response_done) ∷ []) s t sent ∙ ground (arith, ended),
        q2
            ∙ ap (enqueued_all (joined pending)) q
            ∙ sym (enqueued_all-append outs (joined pending) s.tts),
        all,
        kept2,
        over,
      )
