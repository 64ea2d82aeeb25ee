-- ===== src/TtsBridge/Tests.antt =====
-- Two streams in turn, and the theorems at them.
use voice_backend.Common.{◌+◌, ◌≡◌, refl, true, false, List, [], ◌∷◌, if◌then◌else◌}
use voice_backend.TtsBridge.{
  contains_id, new_tts_bridge, start_stream, stop, notify, is_active, Event, started, stopped,
  notified, run,
}
use voice_backend.TtsBridge.Streams.{to_list, Calm, run-speaking, late_notification}

abbrev in_turn : List Event
in_turn = started ∷ notified 0 ∷ started ∷ stopped ∷ started ∷ []

in_turn-Calm : Calm new_tts_bridge in_turn
unfolding new_tts_bridge run
in_turn-Calm = (refl, tt)

run-speaking_example :
    let b = run new_tts_bridge in_turn in
    b.speaking ≡ (if is_active b then to_list b.cancel else [])
run-speaking_example = run-speaking in_turn in_turn-Calm

third_speaks : (run new_tts_bridge in_turn).speaking ≡ 2 ∷ []
unfolding run new_tts_bridge
third_speaks = refl

late_notification_example :
    let b = run new_tts_bridge in_turn in
    let late = notify b.streams (start_stream (stop (start_stream b))) in
    (is_active late ≡ false)
    × (contains_id late.speaking (b.streams + 1) ≡ true)
    × (contains_id (start_stream late).speaking (b.streams + 1) ≡ true)
    × (contains_id (start_stream late).speaking (b.streams + 2) ≡ true)
late_notification_example = late_notification in_turn
