-- ===== src/Metrics/Tests.antt =====
-- A few counts of two agents in one hour, and the theorem at them.
use voice_backend.Common.{
  ℕ, ◌+◌, ◌/◌, ◌%◌, ◌≡◌, refl, Text, text, Text-discrete, false, arith, List, [], ◌∷◌, some,
}
use voice_backend.Common.Map.{lookup, insert}
use voice_backend.Metrics.{
  Op, increment_sessions, increment_errors, track_unique_user, record_latency, metrics_redis_key,
  apply_all, get_hour, Metrics,
}
use voice_backend.Metrics.Hours.{has_colon, report, get_hour-report}
use voice_backend.Metrics.Memory.{Memory, memory}

-- An hour is 1000 nanoseconds here.
abbrev date : ℕ → Text
date t = text "2024-05-17"

abbrev hour : ℕ → Text
hour t = ((t / 1000) % 10 + 48) ∷ []

hour_plain : (t : ℕ) → has_colon (hour t) ≡ false
hour_plain t = ground arith

abbrev calls : List Op
calls =
    increment_sessions (text "a") 5
    ∷ track_unique_user (text "a") (text "u") 6
    ∷ increment_sessions (text "b") 7
    ∷ track_unique_user (text "a") (text "u") 8
    ∷ record_latency (text "a") 10 9
    ∷ record_latency (text "a") 25 10
    ∷ increment_errors (text "a") 1005
    ∷ []

abbrev empty : Memory
empty = record { hashes = []; members = [] }

get_hour-report_example :
    get_hour date hour memory (text "a") 500 (apply_all date hour memory calls empty)
    ≡ report date hour (text "a") 500 calls (
        memory.hget_all
          (metrics_redis_key date hour (text "a") 500)
          (apply_all date hour memory calls empty))
unfolding memory lookup
get_hour-report_example =
    get_hour-report date hour (λ t. refl) hour_plain memory (text "a") 500 calls empty (λ k. refl)
      (λ k u. refl)

abbrev first_hour : Metrics
first_hour = record {
  agent_id = text "a";
  date = text "2024-05-17";
  hour = 48 ∷ [];
  sessions = 1;
  utterances = 0;
  responses = 0;
  unique_users = 1;
  avg_latency_ms = 17;
  error_count = 0;
  new_installs = 0;
  uninstalls = 0;
}

get_hour-run :
    get_hour date hour memory (text "a") 500 (apply_all date hour memory calls empty)
    ≡ some first_hour
unfolding get_hour apply_all memory lookup insert Text-discrete
get_hour-run = refl
