-- ===== src/Connections/Ws.antt =====
-- internal/gateway/ws_conn.go: `Send` looks at `closed` under the mutex, and sends after it has let go of it, while
-- `Close` sets `closed` under the mutex and closes the channel after it. A call of `Send` that stands between
-- its two steps is pending.
use voice_backend.Common.{
  ℕ, zero, suc, ◌≡◌, refl, ◌∙◌, Text, Bool, true, false, List, [], ◌∷◌, ◌++◌, Option, none, some,
  length, arith, if◌then◌else◌,
}
use voice_backend.Connections.{
  Pipe, new_pipe, send_case, select_send, is_ready, can_send, take_case, put, receive_from,
}

pub record WsAgentConnection : Type 0 where
  pub pipe : Pipe
  pub closed : Bool
  pub pending : List Text
  pub socket_open : Bool

unfoldable pub new_ws_agent_connection : WsAgentConnection
unfolding new_pipe
new_ws_agent_connection = record {
  pipe = new_pipe 128;
  closed = false;
  pending = [];
  socket_open = true;
}

-- The first step of `Send`.
unfoldable pub check_open : Text → WsAgentConnection → WsAgentConnection
check_open m c = if c.closed then c else record c { pending = c.pending ++ m ∷ [] }

abbrev pub get_elem? : List Text → ℕ → Option Text
get_elem? [] i = none
get_elem? (x ∷ xs) zero = some x
get_elem? (x ∷ xs) (suc i) = get_elem? xs i

abbrev pub erase_idx : List Text → ℕ → List Text
erase_idx [] i = []
erase_idx (x ∷ xs) zero = xs
erase_idx (x ∷ xs) (suc i) = x ∷ erase_idx xs i

-- The `select` of `Send`, whose default drops the message if the channel is full.
unfoldable pub put_pending : Option Text → ℕ → WsAgentConnection → WsAgentConnection
unfolding select_send
put_pending none i c = c
put_pending (some m) i c = record c {
  pipe = select_send true send_case m c.pipe;
  pending = erase_idx c.pending i;
}

unfoldable pub finish_send : ℕ → WsAgentConnection → WsAgentConnection
unfolding put_pending
finish_send i c = put_pending (get_elem? c.pending i) i c

-- The first half of `Close`, under the mutex.
unfoldable pub mark_closed : WsAgentConnection → WsAgentConnection
mark_closed c =
    if c.closed then c else record c { closed = true; pipe = record c.pipe { done = true } }

-- The second half.
unfoldable pub close_send : WsAgentConnection → WsAgentConnection
close_send c =
    if c.closed then record c { pipe = record c.pipe { closed = true }; socket_open = false } else c

-- `writePump` takes a message and writes it.
unfoldable pub pump : WsAgentConnection → WsAgentConnection
unfolding receive_from
pump c = record c { pipe = receive_from c.pipe.items c.pipe }

pub data WsEvent : Type 0 where
  checked : Text → WsEvent
  finished : ℕ → WsEvent
  marked channel_closed pumped : WsEvent

unfoldable pub ws_step : WsAgentConnection → WsEvent → WsAgentConnection
unfolding check_open finish_send mark_closed close_send pump
ws_step c (checked m) = check_open m c
ws_step c (finished i) = finish_send i c
ws_step c marked = mark_closed c
ws_step c channel_closed = close_send c
ws_step c pumped = pump c

unfoldable pub ws_run : WsAgentConnection → List WsEvent → WsAgentConnection
unfolding ws_step
ws_run c [] = c
ws_run c (e ∷ es) = ws_run (ws_step c e) es

get_elem?-append_last : (xs : List Text) (m : Text) → get_elem? (xs ++ m ∷ []) (length xs) ≡ some m
get_elem?-append_last [] m = refl
get_elem?-append_last (x ∷ xs) m = get_elem?-append_last xs m

-- A call of `Send` checks, `Close` runs, and the call goes on.
abbrev pub closed_between : Text → WsAgentConnection → WsAgentConnection
closed_between m c =
    let checked_once = check_open m c in
    finish_send (length c.pending) (close_send (mark_closed checked_once))

preempted :
    (m : Text) (c : WsAgentConnection) → c.closed ≡ false → (closed_between m c).pipe.crashed ≡ true
unfolding check_open mark_closed close_send finish_send put_pending select_send is_ready can_send
    take_case put
preempted m c h = ground (arith, h, get_elem?-append_last c.pending m)

pump_quiet : (q : List Text) (p : Pipe) → (receive_from q p).crashed ≡ p.crashed
unfolding receive_from
pump_quiet [] p = refl
pump_quiet (m ∷ q) p = refl

quiet_step :
    (e : WsEvent) (c : WsAgentConnection)
    → c.pending ≡ []
    → c.closed ≡ true
    → ((ws_step c e).pending ≡ [])
      × ((ws_step c e).closed ≡ true)
      × ((ws_step c e).pipe.crashed ≡ c.pipe.crashed)
unfolding ws_step check_open mark_closed close_send finish_send put_pending pump
quiet_step (checked m) c p h = ground (arith, p, h)
quiet_step (finished i) c p h = ground (arith, p, h)
quiet_step marked c p h = ground (arith, p, h)
quiet_step channel_closed c p h = ground (arith, p, h)
quiet_step pumped c p h = (p, h, pump_quiet c.pipe.items c.pipe)

quiet :
    (es : List WsEvent) (c : WsAgentConnection)
    → c.pending ≡ []
    → c.closed ≡ true
    → (ws_run c es).pipe.crashed ≡ c.pipe.crashed
unfolding ws_run
quiet [] c p h = refl
quiet (e ∷ es) c p h = let s = quiet_step e c p h in quiet es (ws_step c e) s.0 s.1 ∙ s.2

calm_close :
    (c : WsAgentConnection) (es : List WsEvent)
    → c.closed ≡ false
    → c.pending ≡ []
    → (ws_run (close_send (mark_closed c)) es).pipe.crashed ≡ c.pipe.crashed
unfolding close_send mark_closed
calm_close c es h p =
    quiet es (close_send (mark_closed c)) (ground (arith, h, p)) (ground (arith, h))
    ∙ ground (arith, h)

-- In any state of a connection that is not closed and in which no call of `Send` stands between its two steps: if `Close` runs
-- now, then whatever is sent, written and closed later, no call panics; but if a call checks before and
-- goes on after `Close`, it panics.
pub close-crashes :
    (c : WsAgentConnection) (m : Text) (es : List WsEvent)
    → c.closed ≡ false
    → c.pending ≡ []
    → ((ws_run (close_send (mark_closed c)) es).pipe.crashed ≡ c.pipe.crashed)
      × ((closed_between m c).pipe.crashed ≡ true)
close-crashes c m es h p = (calm_close c es h p, preempted m c h)
