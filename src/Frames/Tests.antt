-- ===== src/Frames/Tests.antt =====
-- Frames of two sessions, a request of an agent, and the theorem at it.
use voice_backend.Common.{◌≡◌, refl, Text, text, Text-discrete, true, Option, some, List, [], ◌∷◌}
use voice_backend.Common.Int.{pos}
use voice_backend.Common.Map.{lookup}
use voice_backend.Scopes.{AgentInfo, scope_vision}
use voice_backend.Frames.{
  FrameData, FrameRequest, FramePayload, fields, number, boolean, read_request, with_defaults,
  FrameResponse, FrameEvent, stored, cleaned_up, apply_events, frames_key, handle_frame_request,
}
use voice_backend.Frames.Privacy.{Shows, IsShown, handle_frame_request-Shows}
use voice_backend.Frames.Memory.{memory, score_of}

abbrev agents : List AgentInfo
agents =
    record {
      id = text "a";
      model = [];
      name = [];
      description = [];
      keywords = [];
      capabilities = [];
      examples = [];
      granted_scopes = scope_vision ∷ [];
    }
    ∷ []

abbrev events : List FrameEvent
events =
    stored (text "s") (pos 10) (text "old")
    ∷ cleaned_up (text "s")
    ∷ stored (text "t") (pos 20) (text "other")
    ∷ stored (text "s") (pos 30) (text "new")
    ∷ []

abbrev payload : FramePayload
payload = fields ((text "end_time", number (pos 40)) ∷ (text "raw_base64", boolean true) ∷ [])

abbrev request : FrameRequest
request = record { start_time = pos 0; end_time = pos 40; limit = pos 0; raw_base64 = true }

abbrev describe : FrameData → Option Text
describe f = some f.base64

abbrev answer : FrameResponse
answer =
    handle_frame_request memory describe agents true (text "s") 50 (text "a") payload
      (apply_events memory events [])

shown_frame : answer.frames ≡ record { timestamp = pos 30; base64 = text "new" } ∷ []
unfolding handle_frame_request apply_events memory Text-discrete lookup frames_key
shown_frame = refl

handle_frame_request-Shows_example :
    Shows (IsShown agents (text "a") (text "s") events (with_defaults 50 request)) describe answer
unfolding score_of memory read_request Text-discrete lookup
handle_frame_request-Shows_example =
    handle_frame_request-Shows memory describe agents true (text "s") 50 (text "a") payload request
      events [] (λ m. refl) refl
