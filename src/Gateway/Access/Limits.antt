-- ===== src/Gateway/Access/Limits.antt =====
-- The limiters of different callers are independent, and the two ways in agree.
use voice_backend.Common.{
  ℕ, Text, text, Text-discrete, ◌≡◌, refl, Bool, false, List, [], ◌∷◌, Option, none, some, ◌==◌,
  ==→eq, if◌then◌else◌, arith, Bool-cases, inl, inr,
}
use voice_backend.Common.Map.{lookup, insert, lookup-insert}
use voice_backend.ApiKey.{ApiKey}
use voice_backend.Gateway.Access.{
  Message, object, string_value, response_type, response_delta_type, response_done_type, published,
  text_field, event_delta, event_done, handle_event, read_message, limit, or_fresh, LimiterEvent,
  requested, cleaned_up, answers,
}

module _ {L : Type 0} (fresh : L) (allow : ℕ → L → L × Bool) where
  -- A caller with one limiter of its own, which is new after each cleanup.
  abbrev pub alone : Text → Option L → List (LimiterEvent fresh allow) → List Bool
  alone k l [] = []
  alone k l (cleaned_up ∷ es) = alone k none es
  alone k l (requested now j ∷ es) =
      let after = allow now (or_fresh fresh allow l) in
      let own = after.1 ∷ alone k (some after.0) es in
      let other = alone k l es in if j == k then own else other

  answers-alone_from :
      (k : Text) (es : List (LimiterEvent fresh allow)) (limiters : List (Text × L))
      → answers fresh allow k limiters es ≡ alone k (lookup k limiters) es
  unfolding answers limit lookup
  answers-alone_from k [] limiters = refl
  answers-alone_from k (cleaned_up ∷ es) limiters = answers-alone_from k es []
  answers-alone_from k (requested now j ∷ es) limiters =
      let l = (allow now (or_fresh fresh allow (lookup j limiters))).0 in
      let next = answers-alone_from k es (insert j l limiters) in
      elim (Bool-cases (j == k)) [
        | inl same ↦ ground (arith, same, ==→eq j k same, next, lookup-insert j k l limiters)
        | inr other ↦ ground (arith, other, next, lookup-insert j k l limiters)
      ]

  -- Whatever requests come under whatever keys, between whatever cleanups: the answers that the requests under one key get
  -- are those of a limiter of their own, which sees only these requests and is new after each cleanup.
  pub answers-alone :
      (k : Text) (es : List (LimiterEvent fresh allow))
      → answers fresh allow k [] es ≡ alone k none es
  unfolding lookup
  answers-alone k es = answers-alone_from k es []

-- An event with a text in one field, as both ways in carry it.
abbrev pub text_event : Text → Text → Text → Text → Text → Message
text_event kind field session_id agent_id t = record {
  message_type = kind;
  session_id = session_id;
  agent_id = agent_id;
  payload = object ((field, string_value t) ∷ []);
}

-- A delta that is not empty and an end of a response give the same published message, or none, whether they are posted or
-- read off a WebSocket. A complete response does not: posted, it is answered with 202 and dropped, while
-- off a WebSocket it is published, if it names a session.
ways_in_agree :
    (key : ApiKey) (session_id claimed t : Text)
    → (t == []) ≡ false
    → let delta = text_event response_delta_type (text "delta") session_id claimed t in
      let done = text_event response_done_type (text "text") session_id claimed t in
      let response = text_event response_type (text "text") session_id claimed t in
      ((handle_event key (some delta)).1 ≡ read_message key.owner_id (some delta))
      × ((handle_event key (some done)).1 ≡ read_message key.owner_id (some done))
      × (handle_event key (some response) ≡ (202, none))
      × (read_message key.owner_id (some response)
          ≡ (if session_id == [] then none else some (record response { agent_id = key.owner_id })))
unfolding handle_event read_message event_delta event_done published text_field lookup Text-discrete
ways_in_agree key session_id claimed t h = (ground (arith, h), ground (arith, h), refl, refl)
