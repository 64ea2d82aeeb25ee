-- ===== src/TtsQueue/Race.antt =====
-- What `Clear` can do to the answer that follows it: the goroutine of the old answer does not know
-- that the queue has gone on without it.
use voice_backend.Common.{ℕ, ◌+◌, ◌≤◌, ◌≡◌, Text, true, List, [], ◌∷◌, ◌++◌, some, arith}
use voice_backend.TtsQueue.{
  Worker, spawned, looping, waiting, ending, System, enqueued, cleared, advanced, done, ctx_done,
  get_elem?, member, step, run,
}
use voice_backend.TtsQueue.Fifo.{serving, serving-set, serving-append, serving-get_elem?}

get_elem?-append :
    (ws vs : List Worker) (i : ℕ) (w : Worker)
    → get_elem? ws i ≡ some w
    → get_elem? (ws ++ vs) i ≡ some w
get_elem?-append [] vs i w h = cc
get_elem?-append (x ∷ ws) vs ℕ.zero w h = h
get_elem?-append (x ∷ ws) vs (ℕ.suc i) w h = get_elem?-append ws vs i w h

module _ (s : System) (i c : ℕ) (t : Text) (waits : get_elem? s.workers i ≡ some (waiting (some c)))
    (owns : s.cancel ≡ some c) where
  -- The queue is cleared, and the next sentence comes in.
  abbrev refilled : System
  refilled = run s (cleared ∷ enqueued t ∷ [])

  waits_still : get_elem? refilled.workers i ≡ some (waiting (some c))
  unfolding run step
  waits_still = ground (
    arith,
    get_elem?-append s.workers (spawned ∷ []) i (waiting (some c)),
    get_elem?-append s.workers (ending ∷ []) i (waiting (some c)),
    get_elem?-append (s.workers ++ ending ∷ []) (spawned ∷ []) i (waiting (some c)),
  )

  refilled_queue :
      (refilled.queue ≡ t ∷ [])
      × (refilled.streams ≡ s.streams)
      × (member (some c) refilled.cancelled ≡ true)
  unfolding run step
  refilled_queue = ground arith

  -- Whenever a goroutine waits on the current context, and `Clear` and then `Enqueue` of a sentence
  -- take the mutex before that goroutine does, it may see its context cancelled next: then the
  -- queue is empty again, and the texts handed to the bridge are those from before, without it.
  clear_loses_sentence :
      let u = step refilled (advanced i ctx_done) in (u.queue ≡ []) × (u.streams ≡ s.streams)
  unfolding step
  clear_loses_sentence = ground (arith, waits_still, refilled_queue)

  serving-refilled : serving refilled.workers ≡ serving s.workers + 1
  unfolding run step
  serving-refilled = ground (
    arith,
    serving-append s.workers spawned,
    serving-append s.workers ending,
    serving-append (s.workers ++ ending ∷ []) spawned,
  )

  -- In the same case the goroutine may see the end of its stream next, by which `Clear` stops it:
  -- then it goes on, and at least two goroutines serve the queue at once.
  clear_two_servers : 2 ≤ serving (step refilled (advanced i done)).workers
  unfolding step
  clear_two_servers = ground (
    arith,
    waits_still,
    serving-refilled,
    serving-set refilled.workers i looping (waiting (some c)),
    serving-get_elem? s.workers i (waiting (some c)),
  )
