-- ===== src/Connections/Tests.antt =====
-- Small buffers that fill up and close, and the theorems at them.
use voice_backend.Common.{◌≡◌, refl, text, true, false, List, [], ◌∷◌}
use voice_backend.Connections.{
  Event, sent, received, marked_done, channel_closed, send_case, default_case,
}
use voice_backend.Connections.Delivery.{accepted}
use voice_backend.Connections.Ws.{
  new_ws_agent_connection, ws_run, checked, finished, marked, pumped, closed_between, close_send,
  mark_closed, WsEvent, close-crashes,
}

abbrev events : List Event
events =
    sent send_case (text "a")
    ∷ sent send_case (text "b")
    ∷ sent default_case (text "c")
    ∷ received
    ∷ sent send_case (text "d")
    ∷ marked_done
    ∷ channel_closed
    ∷ received
    ∷ []

only_two : accepted 1 0 false false events ≡ text "a" ∷ text "d" ∷ []
only_two = refl

abbrev later_events : List WsEvent
later_events = checked (text "b") ∷ finished 0 ∷ pumped ∷ marked ∷ []

close-crashes_example :
    let c = ws_run new_ws_agent_connection (checked (text "a") ∷ finished 0 ∷ []) in
    ((ws_run (close_send (mark_closed c)) later_events).pipe.crashed ≡ c.pipe.crashed)
    × ((closed_between (text "b") c).pipe.crashed ≡ true)
unfolding ws_run new_ws_agent_connection
close-crashes_example =
    close-crashes (ws_run new_ws_agent_connection (checked (text "a") ∷ finished 0 ∷ [])) (text "b")
      later_events refl refl
