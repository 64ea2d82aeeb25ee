-- ===== src/Connections.antt =====
-- The channels behind the connections, and what happens to them at the end of a connection:
-- internal/gateway/sse_conn.go and ws_conn.go (messages to an agent), internal/realtime/session.go (ICE candidates)
-- and internal/realtime/connection.go (audio and messages of a client). All of them close a channel `done` and
-- then the channel itself; what differs is the `select` that sends. A channel of the source that nobody
-- reads after the close is read by nobody here either. The sockets are third-party code.
pub mod Delivery
pub mod Panics
pub mod Ws
mod Tests
use voice_backend.Common.{
  ℕ, Text, Bool, true, false, not, ◌&&◌, ◌||◌, List, [], ◌∷◌, ◌++◌, ltb, leb, length, if◌then◌else◌,
}

-- A buffered channel with its `done`. `crashed` tells that a send panicked, which ends the process.
pub record Pipe : Type 0 where
  pub capacity : ℕ
  pub items : List Text
  pub done : Bool
  pub closed : Bool
  pub delivered : List Text  -- what the receiver has taken, in order
  pub crashed : Bool

unfoldable pub new_pipe : ℕ → Pipe
new_pipe size = record {
  capacity = size;
  items = [];
  done = false;
  closed = false;
  delivered = [];
  crashed = false;
}

-- `NewSSEAgentConn`.
unfoldable pub new_sse_conn : Pipe
unfolding new_pipe
new_sse_conn = new_pipe 128

-- `NewSession`, by the size of the buffer for ICE candidates.
unfoldable pub new_ice_pipe : ℕ → Pipe
unfolding new_pipe
new_ice_pipe size = new_pipe (if leb size 0 then 128 else size)

-- The buffers of `NewConn` for audio and for messages.
unfoldable pub new_audio_pipe : ℕ → Pipe
unfolding new_pipe
new_audio_pipe size = new_pipe (if leb size 0 then 4096 else size)

unfoldable pub new_message_pipe : ℕ → Pipe
unfolding new_pipe
new_message_pipe size = new_pipe (if leb size 0 then 64 else size)

-- The case that a `select` takes.
pub data Case : Type 0 where
  send_case done_case default_case context_case : Case

-- A send into a closed channel is ready: it panics.
unfoldable pub can_send : Pipe → Bool
can_send p = p.closed || ltb (length p.items) p.capacity

-- Whether a `select` may take a case, with or without a default. The end of a context comes from outside.
unfoldable pub is_ready : Bool → Case → Pipe → Bool
unfolding can_send
is_ready has_default send_case p = can_send p
is_ready has_default done_case p = p.done
is_ready has_default default_case p = has_default && not (can_send p) && not p.done
is_ready has_default context_case p = not has_default

unfoldable pub put : Text → Pipe → Pipe
put m p = if p.closed then record p { crashed = true } else record p { items = p.items ++ m ∷ [] }

-- All cases but the send drop the message.
unfoldable pub take_case : Case → Text → Pipe → Pipe
unfolding put
take_case send_case m p = put m p
take_case _ m p = p

unfoldable pub select_send : Bool → Case → Text → Pipe → Pipe
unfolding is_ready take_case
select_send has_default c m p = if is_ready has_default c p then take_case c m p else p

-- `SSEAgentConn.Send`.
unfoldable pub sse_send : Case → Text → Pipe → Pipe
unfolding select_send
sse_send = select_send false

-- `Session.SendICE`.
unfoldable pub send_ice : Case → Text → Pipe → Pipe
unfolding select_send
send_ice = select_send true

-- The callback for audio that `NewConn` sets.
unfoldable pub on_audio : Case → Text → Pipe → Pipe
unfolding select_send
on_audio = select_send true

-- The send of `Conn.handleMessage`, which has no context.
unfoldable pub forward_message : Case → Text → Pipe → Pipe
unfolding select_send
forward_message = select_send false

-- The receiver takes one item.
unfoldable pub receive_from : List Text → Pipe → Pipe
receive_from [] p = p
receive_from (m ∷ rest) p = record p { items = rest; delivered = p.delivered ++ m ∷ [] }

-- The second half of a close, which runs once.
unfoldable pub close_channel : Pipe → Pipe
close_channel p = if p.done then record p { closed = true } else p

pub data Event : Type 0 where
  sent : Case → Text → Event
  received marked_done channel_closed : Event

unfoldable pub step : Bool → Pipe → Event → Pipe
unfolding select_send receive_from close_channel
step d p (sent c m) = select_send d c m p
step d p received = receive_from p.items p
step d p marked_done = record p { done = true }
step d p channel_closed = close_channel p

unfoldable pub run : Bool → Pipe → List Event → Pipe
unfolding step
run d p [] = p
run d p (e ∷ es) = run d (step d p e) es
