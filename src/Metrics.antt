-- ===== src/Metrics.antt =====
-- internal/session/store.go and model.go: what is counted for an agent, by the hour. Redis is third-party code: the interface
-- `Redis` has the commands that the store uses on hashes of numbers and on sets, with their documented
-- behaviour as laws. A pipeline is one step and does not fail. No key expires: a key lives for seven days
-- after it was written last, and the store reads the last seven days. `date` and `hour` format an instant
-- in UTC; what the theorems need of a format is a hypothesis. A latency is not negative. The session records are left out.
pub mod Tally
pub mod Hours
pub mod Memory
mod Tests
use voice_backend.Common.{
  ℕ, zero, suc, ◌+◌, ◌-◌, ◌*◌, ◌/◌, Text, text, ◌≡◌, Bool, true, false, not, ◌&&◌, ◌||◌, List, [],
  ◌∷◌, ◌++◌, Option, none, some, ◌==◌, leb, if◌then◌else◌,
}
use voice_backend.Common.Map.{lookup}

abbrev pub or_zero : Option ℕ → ℕ
or_zero none = 0
or_zero (some n) = n

-- A field of a hash, 0 if it is missing.
unfoldable pub field : Text → List (Text × ℕ) → ℕ
field f h = or_zero (lookup f h)

pub record Redis (R : Type 0) : Type 0 where
  pub hincr_by : Text → Text → ℕ → R → R
  pub hget_all : Text → R → List (Text × ℕ)
  pub sadd : Text → Text → R → R × Bool  -- whether the member is new
  pub is_member : Text → Text → R → Bool
  pub hget_all-hincr_by :
      (k f : Text) (n : ℕ) (r : R) (k' f' : Text)
      → field f' (hget_all k' (hincr_by k f n r))
        ≡ field f' (hget_all k' r) + (if (k == k') && (f == f') then n else 0)
  pub hget_all-sadd : (k m : Text) (r : R) (k' : Text) → hget_all k' (sadd k m r).0 ≡ hget_all k' r
  pub sadd-new : (k m : Text) (r : R) → (sadd k m r).1 ≡ not (is_member k m r)
  pub is_member-sadd :
      (k m : Text) (r : R) (k' m' : Text)
      → is_member k' m' (sadd k m r).0 ≡ ((k == k') && (m == m')) || is_member k' m' r
  pub is_member-hincr_by :
      (k f : Text) (n : ℕ) (r : R) (k' m' : Text)
      → is_member k' m' (hincr_by k f n r) ≡ is_member k' m' r

-- The fields of internal/session/store.go.
abbrev pub sessions_field : Text
sessions_field = text "sessions"

abbrev pub responses_field : Text
responses_field = text "responses"

abbrev pub utterances_field : Text
utterances_field = text "utterances"

abbrev pub error_count_field : Text
error_count_field = text "error_count"

abbrev pub unique_users_field : Text
unique_users_field = text "unique_users"

abbrev pub total_latency_field : Text
total_latency_field = text "total_latency_ms"

abbrev pub latency_count_field : Text
latency_count_field = text "latency_count"

pub record Metrics : Type 0 where
  pub agent_id : Text
  pub date : Text
  pub hour : Text
  pub sessions : ℕ
  pub utterances : ℕ
  pub responses : ℕ
  pub unique_users : ℕ
  pub avg_latency_ms : ℕ
  pub error_count : ℕ
  pub new_installs : ℕ
  pub uninstalls : ℕ

-- The average that GetMetrics divides out.
unfoldable pub average : ℕ → ℕ → ℕ
average total count = if leb count 0 then 0 else total / count

pub data Op : Type 0 where
  increment_sessions increment_responses increment_utterances increment_errors : Text → ℕ → Op
  track_unique_user : Text → Text → ℕ → Op
  record_latency : Text → ℕ → ℕ → Op

module _ (date hour : ℕ → Text) where
  unfoldable pub metrics_redis_key : Text → ℕ → Text
  metrics_redis_key agent now =
      text "agent:" ++ (agent ++ (text ":metrics:" ++ (date now ++ (text ":" ++ hour now))))

  unfoldable pub users_key : Text → ℕ → Text
  users_key agent now =
      text "agent:" ++ (agent ++ (text ":users:" ++ (date now ++ (text ":" ++ hour now))))

  module _ {R : Type 0} (redis : Redis R) where
    unfoldable pub increment_metric : Text → Text → ℕ → ℕ → R → R
    unfolding metrics_redis_key
    increment_metric agent f n now r = redis.hincr_by (metrics_redis_key agent now) f n r

    -- The methods that count, at an instant.
    unfoldable pub apply : Op → R → R
    unfolding increment_metric users_key
    apply (increment_sessions agent now) r = increment_metric agent sessions_field 1 now r
    apply (increment_responses agent now) r = increment_metric agent responses_field 1 now r
    apply (increment_utterances agent now) r = increment_metric agent utterances_field 1 now r
    apply (increment_errors agent now) r = increment_metric agent error_count_field 1 now r
    apply (track_unique_user agent user now) r =
        let added = redis.sadd (users_key agent now) user r in
        if added.1 then increment_metric agent unique_users_field 1 now added.0 else added.0
    apply (record_latency agent ms now) r =
        increment_metric agent latency_count_field 1 now
          (increment_metric agent total_latency_field ms now r)

    unfoldable pub apply_all : List Op → R → R
    unfolding apply
    apply_all [] r = r
    apply_all (o ∷ os) r = apply_all os (apply o r)

    -- One round of the loop of GetMetrics; an hour without data is skipped.
    abbrev pub hour_of : Text → ℕ → List (Text × ℕ) → Option Metrics
    unfolding field average
    hour_of agent t [] = none
    hour_of agent t (e ∷ rest) =
        let h = e ∷ rest in
        some (record {
          agent_id = agent;
          date = date t;
          hour = hour t;
          sessions = field sessions_field h;
          utterances = field utterances_field h;
          responses = field responses_field h;
          unique_users = field unique_users_field h;
          avg_latency_ms = average (field total_latency_field h) (field latency_count_field h);
          error_count = field error_count_field h;
          new_installs = field (text "new_installs") h;
          uninstalls = field (text "uninstalls") h;
        })

    unfoldable pub get_hour : Text → ℕ → R → Option Metrics
    unfolding metrics_redis_key hour_of
    get_hour agent t r = hour_of agent t (redis.hget_all (metrics_redis_key agent t) r)

    abbrev pub add_hour : Option Metrics → List Metrics → List Metrics
    add_hour none ms = ms
    add_hour (some m) ms = m ∷ ms

    -- `n` hours from hour `i` before `now` on. An hour has 3,600,000,000,000 nanoseconds.
    unfoldable pub metrics_from : Text → ℕ → ℕ → ℕ → R → List Metrics
    unfolding get_hour
    metrics_from agent zero i now r = []
    metrics_from agent (suc n) i now r =
        add_hour (get_hour agent (now - i * 3600000000000) r) (metrics_from agent n (i + 1) now r)

    unfoldable pub get_metrics : Text → ℕ → ℕ → R → List Metrics
    unfolding metrics_from
    get_metrics agent hours now r = metrics_from agent hours 0 now r
