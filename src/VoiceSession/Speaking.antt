-- ===== src/VoiceSession/Speaking.antt =====
-- What one handler does for an agent that may speak: it enqueues sentences, and keeps the agent able to speak.
use voice_backend.Common.{
  ◌≡◌, ◌≢◌, refl, sym, ap, subst, ◌∙◌, Text, Bool, true, false, ◌||◌, List, [], ◌∷◌, ◌==◌,
  if◌then◌else◌, arith, map,
}
use voice_backend.Common.Map.{lookup}
use voice_backend.Arbiter.{Arbiter, Decision, flag, decide, losers}
use voice_backend.SentenceBuffer.{SentenceBuffer}
use voice_backend.TtsQueue.{System, enqueued, run, step}
use voice_backend.VoiceSession.{
  Session, CancelReason, cancel_agents, cancel_losers, send_event, tts_started,
}
use voice_backend.VoiceSession.Messages.{enqueue_all, speak_sentences, take_sentences}

-- An agent that may speak: it was asked, and nobody else has won.
pub record MaySpeak (id : Text) (a : Arbiter) : Type 0 where
  pub running : a.started ≡ true
  pub asked : flag (lookup id a.active) ≡ true
  pub open_to : a.winner == [] || a.winner == id ≡ true

pub decide-MaySpeak :
    (id : Text) (a : Arbiter)
    → id ≢ []
    → MaySpeak id a
    → ((decide id a).1.winner ≡ id) × MaySpeak id (decide id a).0
unfolding decide
decide-MaySpeak id a h m = (
  ground (arith, m.running, m.asked, m.open_to),
  record {
    running = ground (arith, m.running, m.asked, m.open_to);
    asked = ground (arith, m.running, m.asked, m.open_to);
    open_to = ground (arith, m.running, m.asked, m.open_to);
  },
)

-- Two sessions that agree in all that the answer of an agent depends on.
pub record Alike (s t : Session) : Type 0 where
  pub arbiter : t.arbiter ≡ s.arbiter
  pub buffer : t.buffer ≡ s.buffer
  pub tts : t.tts ≡ s.tts

pub cancel_agents-Alike :
    (r : CancelReason) (ids : List Text) (s : Session) → Alike s (cancel_agents r ids s)
unfolding cancel_agents send_event
cancel_agents-Alike r [] s = record { arbiter = refl; buffer = refl; tts = refl }
cancel_agents-Alike r (id ∷ ids) s =
    let a = cancel_agents-Alike r ids _ in
    record { arbiter = a.arbiter; buffer = a.buffer; tts = a.tts }

announced-Alike :
    (b : Bool) (s : Session) → Alike s (if b then send_event tts_started (cancel_losers s) else s)
unfolding cancel_losers send_event
announced-Alike true s =
    let a = cancel_agents-Alike _ (losers s.arbiter) s in
    record { arbiter = a.arbiter; buffer = a.buffer; tts = a.tts }
announced-Alike false s = record { arbiter = refl; buffer = refl; tts = refl }

-- The queue once these sentences were enqueued, in order.
abbrev pub enqueued_all : List Text → System → System
enqueued_all ts q = run q (map enqueued ts)

pub enqueue_all_lem :
    (ts : List Text) (s : Session)
    → ((enqueue_all ts s).tts ≡ enqueued_all ts s.tts)
      × ((enqueue_all ts s).arbiter ≡ s.arbiter)
      × ((enqueue_all ts s).buffer ≡ s.buffer)
unfolding enqueue_all run step
enqueue_all_lem [] s = (refl, refl, refl)
enqueue_all_lem (t ∷ ts) s = enqueue_all_lem ts _

-- What a handler did for an agent: it put these sentences into the queue, and left this buffer.
abbrev pub Spoke : Text → List Text → SentenceBuffer → Session → Session → Type 0
Spoke id ts b s t = (t.tts ≡ enqueued_all ts s.tts) × (t.buffer ≡ b) × MaySpeak id t.arbiter

speak_sentences-Spoke :
    (id : Text) (ts : List Text) (d : Decision) (s : Session)
    → d.winner ≡ id
    → MaySpeak id s.arbiter
    → Spoke id ts s.buffer s (speak_sentences id ts d s)
unfolding speak_sentences
speak_sentences-Spoke id ts d s h m =
    let told : Session = if d.is_new then send_event tts_started (cancel_losers s) else s in
    let same : Alike s told = announced-Alike d.is_new s in
    let (q, a, b) = enqueue_all_lem ts told in
    let taken : speak_sentences id ts d s ≡ enqueue_all ts told = ground (arith, h) in
    subst (Spoke id ts s.buffer s) (sym taken) (
      q ∙ ap (enqueued_all ts) same.tts,
      b ∙ same.buffer,
      subst (MaySpeak id) (sym (a ∙ same.arbiter)) m,
    )

pub take_sentences-Spoke :
    (id : Text) (ts : List Text) (s : Session)
    → id ≢ []
    → MaySpeak id s.arbiter
    → Spoke id ts s.buffer s (take_sentences id ts s)
unfolding take_sentences run
take_sentences-Spoke id [] s h m = (refl, refl, m)
take_sentences-Spoke id (t ∷ ts) s h m =
    let (won, may) = decide-MaySpeak id s.arbiter h m in
    speak_sentences-Spoke id (t ∷ ts) (decide id s.arbiter).1
      (record s { arbiter = (decide id s.arbiter).0 }) won may
