-- ===== src/OutputWorker.antt =====
-- internal/realtime/output.go: frames wait in a channel, and a goroutine writes them to the peer one by one;
-- `pending` counts the frames for `WaitForDrain`. An event is one atomic step of one goroutine: the send of an
-- `Enqueue`, and its increment under the mutex; a receive of the output goroutine, the look at `paused` with the
-- write that may follow it, and the decrement behind; a receive of a drain, by a `Flush` or by the output
-- goroutine after one, and the decrement behind. Steps of other calls may stand between any two. An event that
-- cannot happen in a state leaves it as it is. `Stop`, which closes the queue, and the sleep behind a frame
-- are left out.
pub mod Drain
mod Tests
use voice_backend.Common.{
  ℕ, zero, suc, ◌+◌, ◌-◌, Text, Bool, true, false, not, ◌&&◌, List, [], ◌∷◌, ◌++◌, leb, ltb, length,
  if◌then◌else◌, Option, none, some,
}

pub record OutputWorker : Type 0 where
  pub capacity : ℕ
  pub queue : List Text
  pub paused : Bool
  pub uncounted : ℕ  -- calls of `Enqueue` between the send and the increment
  pub taken_frame : Option Text  -- the frame that the output goroutine has received, and not yet looked at `paused` for
  pub releasing : ℕ  -- frames that were written, or dropped by a pause, before the decrement for them
  pub draining : ℕ  -- frames that a drain has received, before the decrement for them
  pub pending : ℕ
  pub written : List Text  -- what the peer got, in order
  pub overflows : ℕ  -- how often the callback for backpressure was called

unfoldable pub new_output_worker : ℕ → OutputWorker
new_output_worker size = record {
  capacity = if leb size 0 then 4096 else size;
  queue = [];
  paused = false;
  uncounted = 0;
  taken_frame = none;
  releasing = 0;
  draining = 0;
  pending = 0;
  written = [];
  overflows = 0;
}

-- The `select` of `Enqueue`.
unfoldable pub send : Text → OutputWorker → OutputWorker
send frame w =
    if ltb (length w.queue) w.capacity
    then record w { queue = w.queue ++ frame ∷ []; uncounted = w.uncounted + 1 }
    else record w { overflows = w.overflows + 1 }

-- The increment of one call that has sent its frame.
unfoldable pub count_frame : OutputWorker → OutputWorker
count_frame w =
    if leb w.uncounted 0
    then w
    else record w { uncounted = w.uncounted - 1; pending = w.pending + 1 }

-- A counter that falls to 0 or below is set to 0.
unfoldable pub decrement_pending : OutputWorker → OutputWorker
decrement_pending w = record w { pending = w.pending - 1 }

abbrev take_from : List Text → OutputWorker → OutputWorker
take_from [] w = w
take_from (frame ∷ rest) w = record w { queue = rest; taken_frame = some frame }

abbrev take_with : Option Text → OutputWorker → OutputWorker
take_with none w = if leb w.releasing 0 then take_from w.queue w else w
take_with (some frame) w = w

-- A receive of the output goroutine, while it is not busy with the frame before.
unfoldable pub take_frame : OutputWorker → OutputWorker
unfolding take_with
take_frame w = take_with w.taken_frame w

abbrev write_with : Option Text → OutputWorker → OutputWorker
write_with none w = w
write_with (some frame) w =
    if w.paused then record w { taken_frame = none; releasing = w.releasing + 1 } else record w {
      taken_frame = none;
      releasing = w.releasing + 1;
      written = w.written ++ frame ∷ [];
    }

-- The look at `paused`, and the write where it is not set.
unfoldable pub write_frame : OutputWorker → OutputWorker
unfolding write_with
write_frame w = write_with w.taken_frame w

-- The decrement behind a frame that was written or dropped by a pause.
unfoldable pub finish_frame : OutputWorker → OutputWorker
unfolding decrement_pending
finish_frame w =
    if leb w.releasing 0 then w else decrement_pending (record w { releasing = w.releasing - 1 })

abbrev drain_from : List Text → OutputWorker → OutputWorker
drain_from [] w = w
drain_from (frame ∷ rest) w = record w { queue = rest; draining = w.draining + 1 }

-- A receive of the loop of `drain`.
unfoldable pub drain_frame : OutputWorker → OutputWorker
unfolding drain_from
drain_frame w = drain_from w.queue w

-- The decrement behind it.
unfoldable pub drop_frame : OutputWorker → OutputWorker
unfolding decrement_pending
drop_frame w =
    if leb w.draining 0 then w else decrement_pending (record w { draining = w.draining - 1 })

-- `WaitForDrain` may return.
unfoldable pub is_drained : OutputWorker → Bool
is_drained w = leb w.pending 0

pub data Event : Type 0 where
  sent : Text → Event
  counted taken written_out finished drained dropped paused_output resumed : Event

unfoldable pub step : OutputWorker → Event → OutputWorker
unfolding send count_frame take_frame write_frame finish_frame drain_frame drop_frame
step w (sent frame) = send frame w
step w counted = count_frame w
step w taken = take_frame w
step w written_out = write_frame w
step w finished = finish_frame w
step w drained = drain_frame w
step w dropped = drop_frame w
step w paused_output = record w { paused = true }
step w resumed = record w { paused = false }

unfoldable pub run : OutputWorker → List Event → OutputWorker
unfolding step
run w [] = w
run w (e ∷ es) = run (step w e) es
