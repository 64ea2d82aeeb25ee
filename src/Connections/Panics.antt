-- ===== src/Connections/Panics.antt =====
-- When a send panics.
use voice_backend.Common.{
  ℕ, ◌≡◌, refl, Text, Bool, true, false, not, ◌&&◌, ◌||◌, List, [], ◌∷◌, arith,
}
use voice_backend.Connections.{
  Pipe, new_pipe, send_case, done_case, default_case, context_case, Event, sent, received,
  marked_done, channel_closed, select_send, is_ready, can_send, take_case, put, receive_from,
  close_channel, step, run,
}

-- The flags `done` and `closed` after an event: the channel is closed once `done` is.
abbrev flags_after : Bool → Bool → Event → Bool × Bool
flags_after done shut marked_done = (true, shut)
flags_after done shut channel_closed = (done, shut || done)
flags_after done shut _ = (done, shut)

abbrev sends_now : Bool → Event → Bool
sends_now shut (sent send_case m) = shut
sends_now shut _ = false

-- Whether a send is chosen once the channel has been closed.
abbrev pub sends_after_close : Bool → Bool → List Event → Bool
sends_after_close done shut [] = false
sends_after_close done shut (e ∷ es) =
    sends_now shut e || sends_after_close (flags_after done shut e).0 (flags_after done shut e).1 es

step-flags :
    (d : Bool) (e : Event) (p : Pipe)
    → ((step d p e).done ≡ (flags_after p.done p.closed e).0)
      × ((step d p e).closed ≡ (flags_after p.done p.closed e).1)
      × ((step d p e).crashed ≡ p.crashed || sends_now p.closed e)
unfolding step select_send is_ready can_send take_case put receive_from close_channel
step-flags d (sent send_case m) p = ground arith
step-flags d (sent done_case m) p = ground arith
step-flags d (sent default_case m) p = ground arith
step-flags d (sent context_case m) p = ground arith
step-flags d received p = ground arith
step-flags d marked_done p = ground arith
step-flags d channel_closed p = ground arith

run-crashed_from :
    (d : Bool) (es : List Event) (p : Pipe)
    → (run d p es).crashed ≡ p.crashed || sends_after_close p.done p.closed es
unfolding run
run-crashed_from d [] p = ground arith
run-crashed_from d (e ∷ es) p = ground (arith, step-flags d e p, run-crashed_from d es (step d p e))

flags_ordered :
    (done shut : Bool) (e : Event)
    → (shut && not done) ≡ false
    → ((flags_after done shut e).1 && not (flags_after done shut e).0) ≡ false
flags_ordered done shut (sent c m) h = h
flags_ordered done shut received h = h
flags_ordered done shut marked_done h = ground arith
flags_ordered done shut channel_closed h = ground (arith, h)

run-ordered :
    (d : Bool) (es : List Event) (p : Pipe)
    → (p.closed && not p.done) ≡ false
    → ((run d p es).closed && not (run d p es).done) ≡ false
unfolding run
run-ordered d [] p h = h
run-ordered d (e ∷ es) p h =
    run-ordered d es (step d p e)
      (ground (arith, step-flags d e p, flags_ordered p.done p.closed e h))

-- Whatever is sent, received and closed, from a new channel: a send has panicked exactly if the case of the send was
-- chosen after the channel was closed.
run-crashed :
    (has_default : Bool) (size : ℕ) (es : List Event)
    → (run has_default (new_pipe size) es).crashed ≡ sends_after_close false false es
unfolding new_pipe
run-crashed d size es = run-crashed_from d es (new_pipe size)

-- Whatever has been sent, received and closed: once the channel is closed, the case of a send is ready and panics, for every
-- message, while the case of `done`, which leaves the channel alone, is ready too, and the choice is random.
closed-may_panic :
    (has_default : Bool) (size : ℕ) (es : List Event) (m : Text)
    → (run has_default (new_pipe size) es).closed ≡ true
    → let p = run has_default (new_pipe size) es in
      (is_ready has_default send_case p ≡ true)
      × ((select_send has_default send_case m p).crashed ≡ true)
      × (is_ready has_default done_case p ≡ true)
      × (select_send has_default done_case m p ≡ p)
unfolding new_pipe select_send is_ready can_send take_case put
closed-may_panic d size es m shut =
    let p = run d (new_pipe size) es in
    let ordered = run-ordered d es (new_pipe size) refl in
    (ground (arith, shut), ground (arith, shut), ground (arith, shut, ordered), ground arith)
