-- ===== src/TtsBridge.antt =====
-- internal/voicesession/tts_bridge.go: the streams that speak. A stream is numbered. It speaks until it is cancelled or notifies
-- its end; a cancelled stream notifies later, when `Synthesize` has returned to its goroutine. A method, and
-- the critical section of `notify`, hold the mutex, so each is one step.
pub mod Streams
mod Tests
use voice_backend.Common.{
  ℕ, ◌+◌, Bool, true, false, not, ◌||◌, ◌&&◌, List, [], ◌∷◌, ◌++◌, Option, none, some, ◌=ℕ◌,
  if◌then◌else◌,
}

abbrev pub contains_id : List ℕ → ℕ → Bool
contains_id [] i = false
contains_id (x ∷ xs) i = x =ℕ i || contains_id xs i

abbrev pub remove_id : List ℕ → ℕ → List ℕ
remove_id [] i = []
remove_id (x ∷ xs) i = let rest = remove_id xs i in if x =ℕ i then rest else x ∷ rest

pub record TtsBridge : Type 0 where
  pub in_flight : Bool
  pub cancel : Option ℕ  -- the stream that `cancel` cancels
  pub speaking : List ℕ  -- started, not cancelled, not notified
  pub ending : List ℕ  -- cancelled, not notified
  pub streams : ℕ  -- how many were started

unfoldable pub new_tts_bridge : TtsBridge
new_tts_bridge = record {
  in_flight = false;
  cancel = none;
  speaking = [];
  ending = [];
  streams = 0;
}

-- A call of a cancel function, which does nothing to a stream that has ended.
unfoldable pub cancel_stream : Option ℕ → TtsBridge → TtsBridge
cancel_stream none b = b
cancel_stream (some i) b =
    if contains_id b.speaking i
    then record b { speaking = remove_id b.speaking i; ending = b.ending ++ i ∷ [] }
    else b

unfoldable pub start_stream : TtsBridge → TtsBridge
unfolding cancel_stream
start_stream b =
    let stopped = if b.in_flight then cancel_stream b.cancel b else b in
    record stopped {
      in_flight = true;
      cancel = some b.streams;
      speaking = stopped.speaking ++ b.streams ∷ [];
      streams = b.streams + 1;
    }

-- `notify`, which runs once for a stream.
unfoldable pub notify : ℕ → TtsBridge → TtsBridge
notify i b =
    if contains_id b.speaking i || contains_id b.ending i
    then record b {
      in_flight = false;
      speaking = remove_id b.speaking i;
      ending = remove_id b.ending i;
    }
    else b

unfoldable pub stop : TtsBridge → TtsBridge
unfolding cancel_stream
stop b = record (cancel_stream b.cancel b) { cancel = none; in_flight = false }

unfoldable pub is_active : TtsBridge → Bool
is_active b = b.in_flight

pub data Event : Type 0 where
  started stopped : Event
  notified : ℕ → Event

unfoldable pub step : TtsBridge → Event → TtsBridge
unfolding start_stream stop notify
step b started = start_stream b
step b stopped = stop b
step b (notified i) = notify i b

unfoldable pub run : TtsBridge → List Event → TtsBridge
unfolding step
run b [] = b
run b (e ∷ es) = run (step b e) es
