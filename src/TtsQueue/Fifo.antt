-- ===== src/TtsQueue/Fifo.antt =====
-- While the queue is not cleared, one goroutine serves it, and it serves it in order.
use voice_backend.Common.{
  ℕ, zero, suc, ◌+◌, ◌≤◌, ◌≡◌, refl, Text, Bool, true, false, List, [], ◌∷◌, ◌++◌, Option, none,
  some, arith, append_assoc, append-nil, All, sym, subst,
}
use voice_backend.Speech.{SpeechController}
use voice_backend.TtsQueue.{
  Worker, spawned, starting, looping, waiting, ending, returned, System, Event, enqueued, cleared,
  advanced, Signal, done, ctx_done, new_tts_queue, get_elem?, set, member, enqueue, take_next,
  advance, step, run, is_playing,
}

-- Whether a goroutine still serves the queue.
abbrev serves : Worker → ℕ
serves ending = 0
serves returned = 0
serves _ = 1

abbrev pub serving : List Worker → ℕ
serving [] = 0
serving (w ∷ ws) = serves w + serving ws

pub serving-set :
    (ws : List Worker) (i : ℕ) (v w : Worker)
    → get_elem? ws i ≡ some w
    → serving (set ws i v) + serves w ≡ serving ws + serves v
serving-set [] i v w h = cc
serving-set (x ∷ ws) zero v w h = ground arith
serving-set (x ∷ ws) (suc i) v w h = omega (arith, serving-set ws i v w h)

pub serving-get_elem? :
    (ws : List Worker) (i : ℕ) (w : Worker) → get_elem? ws i ≡ some w → serves w ≤ serving ws
serving-get_elem? [] i w h = cc
serving-get_elem? (x ∷ ws) zero w h = ground arith
serving-get_elem? (x ∷ ws) (suc i) w h = omega (arith, serving-get_elem? ws i w h)

pub serving-append :
    (ws : List Worker) (w : Worker) → serving (ws ++ w ∷ []) ≡ serving ws + serves w
serving-append [] w = omega arith
serving-append (x ∷ ws) w = omega (arith, serving-append ws w)

abbrev to_ℕ : Bool → ℕ
to_ℕ true = 1
to_ℕ false = 0

abbrev pub sentence_of : Event → List Text
sentence_of (enqueued t) = t ∷ []
sentence_of _ = []

-- The sentences of a history, in order.
abbrev pub sentences_of : List Event → List Text
sentences_of [] = []
sentences_of (e ∷ es) = sentence_of e ++ sentences_of es

-- One goroutine serves the queue exactly while there is something to play.
pub record Served (s : System) (said : List Text) : Type 0 where
  pub in_order : s.streams ++ s.queue ≡ said
  pub one_server : serving s.workers ≡ to_ℕ (is_playing s)
  pub never_cancelled : s.cancelled ≡ []

-- A history without `Clear`.
abbrev pub IsUncleared : Event → Type 0
IsUncleared cleared = ⊥
IsUncleared _ = Unit {0}

enqueue-Served :
    (s : System) (said : List Text) (t : Text)
    → Served s said
    → Served (enqueue t s) (said ++ t ∷ [])
unfolding enqueue is_playing
enqueue-Served s said t v =
    ground (arith, serving-append s.workers spawned, append_assoc s.streams s.queue (t ∷ []))

-- A step that leaves the server one keeps the rest.
serving-move :
    (s : System) (i : ℕ) (v w : Worker)
    → get_elem? s.workers i ≡ some w
    → serves v ≡ serves w
    → serving (set s.workers i v) ≡ serving s.workers
serving-move s i v w h e = omega (arith, serving-set s.workers i v w h)

take_next-Served :
    (i : ℕ) (queue : List Text) (s : System) (said : List Text)
    → s.queue ≡ queue
    → get_elem? s.workers i ≡ some looping
    → Served s said
    → Served (take_next i queue s) said
unfolding take_next is_playing
take_next-Served i [] s said e h v =
    ground
      (arith, serving-set s.workers i ending looping h, serving-get_elem? s.workers i looping h)
take_next-Served i (t ∷ queue) s said e h v = ground (
  arith,
  serving-move s i (waiting s.ctx) looping h,
  serving-get_elem? s.workers i looping h,
  append_assoc s.streams (t ∷ []) queue,
)

no_member : (c : Option ℕ) → member c [] ≡ false
no_member none = refl
no_member (some c) = refl

advance-Served :
    (i : ℕ) (sig : Signal) (w : Worker) (s : System) (said : List Text)
    → get_elem? s.workers i ≡ some w
    → Served s said
    → Served (advance i sig (some w) s) said
unfolding advance is_playing
advance-Served i sig spawned s said h v = ground (arith, serving-move s i starting spawned h)
advance-Served i sig starting s said h v = ground (arith, serving-move s i looping starting h)
advance-Served i sig looping s said h v = take_next-Served i s.queue s said refl h v
advance-Served i done (waiting c) s said h v =
    ground (arith, serving-move s i looping (waiting c) h)
advance-Served i ctx_done (waiting c) s said h v = ground (arith, no_member c)
advance-Served i sig ending s said h v = ground (arith, serving-move s i returned ending h)
advance-Served i sig returned s said h v = v

step-Served :
    (s : System) (said : List Text) (e : Event)
    → IsUncleared e
    → Served s said
    → Served (step s e) (said ++ sentence_of e)
unfolding step
step-Served s said (enqueued t) u v = enqueue-Served s said t v
step-Served s said cleared u v = absurd u
step-Served s said (advanced i sig) u v =
    subst (Served (step s (advanced i sig))) (sym (append-nil said))
      (go (get_elem? s.workers i) refl)
  where
    go : (w : Option Worker) → get_elem? s.workers i ≡ w → Served (advance i sig w s) said
    go none h = unfold advance in v
    go (some w) h = advance-Served i sig w s said h v

run-Served :
    (s : System) (said : List Text) (es : List Event)
    → All IsUncleared es
    → Served s said
    → Served (run s es) (said ++ sentences_of es)
unfolding run
run-Served s said [] u v = subst (Served s) (sym (append-nil said)) v
run-Served s said (e ∷ es) u v =
    subst (Served (run (step s e) es)) (append_assoc said (sentence_of e) (sentences_of es))
      (run-Served (step s e) (said ++ sentence_of e) es u.1 (step-Served s said e u.0 v))

-- In every interleaving of calls of `Enqueue` and of the goroutines that holds no call of `Clear`,
-- starting from a new queue, the texts handed to the bridge are, in order, the sentences that were
-- enqueued without those still in the queue, and there is exactly one goroutine to serve the queue
-- while `IsPlaying` and none otherwise.
pub run-new_tts_queue-Served :
    (c : SpeechController) (es : List Event)
    → All IsUncleared es
    → Served (run (new_tts_queue c) es) (sentences_of es)
run-new_tts_queue-Served c es u =
    run-Served (new_tts_queue c) [] es u (unfold new_tts_queue is_playing in ground arith)
