-- ===== src/OutputWorker/Drain.antt =====
-- When `WaitForDrain` returns.
use voice_backend.Common.{
  ℕ, ◌+◌, ◌≡◌, ◌↔◌, refl, ap, subst, Text, true, List, [], ◌∷◌, length, Option, none, some, ◌&&◌,
  not, ◌=ℕ◌, if◌then◌else◌, arith, length-append,
}
use voice_backend.OutputWorker.{
  OutputWorker, new_output_worker, send, count_frame, decrement_pending, take_frame, take_with,
  write_frame, write_with, finish_frame, drain_frame, drain_from, drop_frame, is_drained, Event,
  sent, counted, taken, written_out, finished, drained, dropped, paused_output, resumed, step, run,
}

abbrev pub held : Option Text → ℕ
held none = 0
held (some frame) = 1

-- The frames that were sent and are not done with: those in the queue, the one that the output goroutine has received, and those
-- that were written or dropped and not counted off.
abbrev pub unplayed : OutputWorker → ℕ
unplayed w = length w.queue + (held w.taken_frame + (w.releasing + w.draining))

-- A decrement that finds the counter at 0, which stays there.
abbrev pub loses : OutputWorker → Event → ℕ
loses w finished = if not (w.releasing =ℕ 0) && (w.pending =ℕ 0) then 1 else 0
loses w dropped = if not (w.draining =ℕ 0) && (w.pending =ℕ 0) then 1 else 0
loses w _ = 0

-- How many decrements did, over a run.
abbrev pub lost : OutputWorker → List Event → ℕ
lost w [] = 0
lost w (e ∷ es) = loses w e + lost (step w e) es

abbrev pub Balanced : ℕ → OutputWorker → Type 0
Balanced k w = w.pending + w.uncounted ≡ unplayed w + k

take_with-Balanced :
    (k : ℕ) (f : Option Text) (q : List Text) (w : OutputWorker)
    → w.taken_frame ≡ f
    → w.queue ≡ q
    → Balanced k w
    → Balanced k (take_with f w)
unfolding take_with
take_with-Balanced k (some frame) q w g e h = h
take_with-Balanced k none [] w g e h = ground (arith, h, e)
take_with-Balanced k none (frame ∷ rest) w g e h = ground (arith, h, e, ap length e, ap held g)

write_with-Balanced :
    (k : ℕ) (f : Option Text) (w : OutputWorker)
    → w.taken_frame ≡ f
    → Balanced k w
    → Balanced k (write_with f w)
unfolding write_with
write_with-Balanced k none w g h = h
write_with-Balanced k (some frame) w g h = ground (arith, h, ap held g)

drain_from-Balanced :
    (k : ℕ) (q : List Text) (w : OutputWorker)
    → w.queue ≡ q
    → Balanced k w
    → Balanced k (drain_from q w)
unfolding drain_from
drain_from-Balanced k [] w e h = h
drain_from-Balanced k (frame ∷ rest) w e h = omega (arith, h, ap length e)

step-Balanced :
    (k : ℕ) (e : Event) (w : OutputWorker) → Balanced k w → Balanced (loses w e + k) (step w e)
unfolding step send count_frame take_frame write_frame finish_frame drain_frame drop_frame
    decrement_pending
step-Balanced k (sent frame) w h = ground (arith, h, length-append w.queue (frame ∷ []))
step-Balanced k counted w h = ground (arith, h)
step-Balanced k taken w h = omega (arith, take_with-Balanced k w.taken_frame w.queue w refl refl h)
step-Balanced k written_out w h = omega (arith, write_with-Balanced k w.taken_frame w refl h)
step-Balanced k finished w h = ground (arith, h)
step-Balanced k drained w h = omega (arith, drain_from-Balanced k w.queue w refl h)
step-Balanced k dropped w h = ground (arith, h)
step-Balanced k paused_output w h = omega (arith, h)
step-Balanced k resumed w h = omega (arith, h)

run-Balanced :
    (k : ℕ) (es : List Event) (w : OutputWorker)
    → Balanced k w
    → Balanced (lost w es + k) (run w es)
unfolding run
run-Balanced k [] w h = omega (arith, h)
run-Balanced k (e ∷ es) w h =
    subst (λ (n : ℕ). Balanced n (run (step w e) es)) (omega arith)
      (run-Balanced (loses w e + k) es (step w e) (step-Balanced k e w h))

-- Whatever calls of `Enqueue` send and increment, whatever the output goroutine writes or drops while paused, and whatever drains receive, with
-- the steps of all of them in any order: the counter and the increments that are still missing add up to the
-- frames not done with and the decrements that found the counter at 0. So `WaitForDrain` may return
-- exactly while the frames not done with and those decrements together are as many as the missing increments: with none
-- missing, exactly if every frame is done with and no decrement ever found the counter at 0.
pub run-is_drained :
    (size : ℕ) (es : List Event)
    → let w = run (new_output_worker size) es in
      let k = lost (new_output_worker size) es in
      (w.pending + w.uncounted ≡ unplayed w + k)
      × ((is_drained w ≡ true) ↔ (unplayed w + k ≡ w.uncounted))
unfolding is_drained new_output_worker
run-is_drained size es =
    let start : OutputWorker = new_output_worker size in
    let h = run-Balanced 0 es start refl in
    let exact : (run start es).pending + (run start es).uncounted
        ≡ unplayed (run start es) + lost start es =
      omega (arith, h) in
    (exact, (λ d. ground (arith, exact, d), λ e. ground (arith, exact, e)))
