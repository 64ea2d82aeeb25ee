-- ===== src/Metrics/Tally.antt =====
-- What the counters come to, by the keys of Redis.
use voice_backend.Common.{
  ℕ, ◌+◌, ◌≡◌, refl, sym, ap, ◌∙◌, subst, Text, text, Bool, false, not, ◌||◌, ◌&&◌, List, [], ◌∷◌,
  Option, none, some, ◌==◌, if◌then◌else◌, arith, Bool-cases, inl, inr,
}
use voice_backend.Common.Map.{lookup}
use voice_backend.Metrics.{
  field, Redis, Metrics, average, Op, increment_sessions, increment_responses, increment_utterances,
  increment_errors, track_unique_user, record_latency, sessions_field, responses_field,
  utterances_field, error_count_field, unique_users_field, total_latency_field, latency_count_field,
  metrics_redis_key, users_key, increment_metric, apply, apply_all, get_hour, hour_of,
}

-- Who was seen, under which key.
abbrev pub was_seen : List (Text × Text) → Text → Text → Bool
was_seen [] k u = false
was_seen ((j, v) ∷ seen) k u = ((j == k) && (v == u)) || was_seen seen k u

module _ (date hour : ℕ → Text) where
  -- What a call adds to a field `f` of the hash `k`; a user counts once for a key.
  abbrev pub key_added : List (Text × Text) → Text → Text → Op → ℕ
  key_added seen k f (increment_sessions a now) =
      if (metrics_redis_key date hour a now == k) && (sessions_field == f) then 1 else 0
  key_added seen k f (increment_responses a now) =
      if (metrics_redis_key date hour a now == k) && (responses_field == f) then 1 else 0
  key_added seen k f (increment_utterances a now) =
      if (metrics_redis_key date hour a now == k) && (utterances_field == f) then 1 else 0
  key_added seen k f (increment_errors a now) =
      if (metrics_redis_key date hour a now == k) && (error_count_field == f) then 1 else 0
  key_added seen k f (track_unique_user a u now) =
      if was_seen seen (users_key date hour a now) u
      then 0
      else if (metrics_redis_key date hour a now == k) && (unique_users_field == f)
      then 1
      else 0
  key_added seen k f (record_latency a ms now) =
      (if (metrics_redis_key date hour a now == k) && (total_latency_field == f) then ms else 0)
      + (if (metrics_redis_key date hour a now == k) && (latency_count_field == f) then 1 else 0)

  abbrev pub seen_after : List (Text × Text) → Op → List (Text × Text)
  seen_after seen (track_unique_user a u now) = (users_key date hour a now, u) ∷ seen
  seen_after seen _ = seen

  abbrev pub key_tally : List (Text × Text) → Text → Text → List Op → ℕ
  key_tally seen k f [] = 0
  key_tally seen k f (o ∷ os) = key_added seen k f o + key_tally (seen_after seen o) k f os

  module _ {R : Type 0} (redis : Redis R) where
    -- The sets hold exactly the users that were seen.
    abbrev Knows : List (Text × Text) → R → Type 0
    Knows seen r = (k u : Text) → redis.is_member k u r ≡ was_seen seen k u

    increment-field :
        (a f : Text) (n now : ℕ) (r : R) (k g : Text)
        → field g (redis.hget_all k (increment_metric date hour redis a f n now r))
          ≡ field g (redis.hget_all k r)
            + (if (metrics_redis_key date hour a now == k) && (f == g) then n else 0)
    unfolding increment_metric
    increment-field a f n now r k g =
        redis.hget_all-hincr_by (metrics_redis_key date hour a now) f n r k g

    increment-Knows :
        (a f : Text) (n now : ℕ) (r : R) (seen : List (Text × Text))
        → Knows seen r
        → Knows seen (increment_metric date hour redis a f n now r)
    unfolding increment_metric
    increment-Knows a f n now r seen h k u =
        redis.is_member-hincr_by (metrics_redis_key date hour a now) f n r k u ∙ h k u

    abbrev Counts : List (Text × Text) → Op → R → Type 0
    Counts seen o r =
        ((k f : Text)
          → field f (redis.hget_all k (apply date hour redis o r))
            ≡ field f (redis.hget_all k r) + key_added seen k f o)
        × Knows (seen_after seen o) (apply date hour redis o r)

    apply-Counts : (o : Op) (seen : List (Text × Text)) (r : R) → Knows seen r → Counts seen o r
    unfolding apply
    apply-Counts (increment_sessions a now) seen r h =
        (increment-field a sessions_field 1 now r, increment-Knows a sessions_field 1 now r seen h)
    apply-Counts (increment_responses a now) seen r h = (
      increment-field a responses_field 1 now r,
      increment-Knows a responses_field 1 now r seen h,
    )
    apply-Counts (increment_utterances a now) seen r h = (
      increment-field a utterances_field 1 now r,
      increment-Knows a utterances_field 1 now r seen h,
    )
    apply-Counts (increment_errors a now) seen r h = (
      increment-field a error_count_field 1 now r,
      increment-Knows a error_count_field 1 now r seen h,
    )
    apply-Counts (track_unique_user a u now) seen r h =
        let uk = users_key date hour a now in
        let q = (redis.sadd uk u r).0 in
        let fresh : (redis.sadd uk u r).1 ≡ not (was_seen seen uk u) =
          redis.sadd-new uk u r ∙ ap not (h uk u) in
        let q-Knows : Knows ((uk, u) ∷ seen) q = λ k v.
          redis.is_member-sadd uk u r k v
          ∙ ap (λ (b : Bool). ((uk == k) && (u == v)) || b) (h k v) in
        elim (Bool-cases (was_seen seen uk u)) [
          | inl old ↦
              let same : apply date hour redis (track_unique_user a u now) r ≡ q =
                ground (arith, fresh, old) in
              (
                λ k f. ground (arith, same, old, ap (field f) (redis.hget_all-sadd uk u r k)),
                subst (Knows ((uk, u) ∷ seen)) (sym same) q-Knows,
              )
          | inr new ↦
              let next = increment_metric date hour redis a unique_users_field 1 now q in
              let same : apply date hour redis (track_unique_user a u now) r ≡ next =
                ground (arith, fresh, new) in
              (
                λ k f. ground (
                  arith,
                  same,
                  new,
                  ap (field f) (redis.hget_all-sadd uk u r k),
                  increment-field a unique_users_field 1 now q k f,
                ),
                subst (Knows ((uk, u) ∷ seen)) (sym same)
                    (increment-Knows a unique_users_field 1 now q ((uk, u) ∷ seen) q-Knows),
              )
        ]
    apply-Counts (record_latency a ms now) seen r h =
        let r' = increment_metric date hour redis a total_latency_field ms now r in
        (
          (λ k f. omega (
            arith,
            increment-field a latency_count_field 1 now r' k f,
            increment-field a total_latency_field ms now r k f,
          )),
          increment-Knows a latency_count_field 1 now r' seen
              (increment-Knows a total_latency_field ms now r seen h),
        )

    empty_field : (k f : Text) (r : R) → redis.hget_all k r ≡ [] → field f (redis.hget_all k r) ≡ 0
    unfolding field lookup
    empty_field k f r e = rw e refl

    tally_from :
        (os : List Op) (seen : List (Text × Text)) (r : R) (k f : Text)
        → Knows seen r
        → field f (redis.hget_all k (apply_all date hour redis os r))
          ≡ field f (redis.hget_all k r) + key_tally seen k f os
    unfolding apply_all
    tally_from [] seen r k f h = omega arith
    tally_from (o ∷ os) seen r k f h =
        let (counts, knows) = apply-Counts o seen r h in
        let next = apply date hour redis o r in
        omega (arith, counts k f, tally_from os (seen_after seen o) next k f knows)

    -- The record of an hour, by the calls; none if the hash is empty.
    abbrev pub key_report : Text → ℕ → List Op → List (Text × ℕ) → Option Metrics
    key_report agent t os [] = none
    key_report agent t os (e ∷ rest) =
        let count = λ (f : Text). key_tally [] (metrics_redis_key date hour agent t) f os in
        some (record {
          agent_id = agent;
          date = date t;
          hour = hour t;
          sessions = count sessions_field;
          utterances = count utterances_field;
          responses = count responses_field;
          unique_users = count unique_users_field;
          avg_latency_ms = average (count total_latency_field) (count latency_count_field);
          error_count = count error_count_field;
          new_installs = count (text "new_installs");
          uninstalls = count (text "uninstalls");
        })

    hour_of-key_report :
        (agent : Text) (t : ℕ) (os : List Op) (h : List (Text × ℕ))
        → ((f : Text) → field f h ≡ key_tally [] (metrics_redis_key date hour agent t) f os)
        → hour_of date hour redis agent t h ≡ key_report agent t os h
    unfolding hour_of
    hour_of-key_report agent t os [] same = refl
    hour_of-key_report agent t os (e ∷ rest) same = cc (
      same sessions_field,
      same utterances_field,
      same responses_field,
      same unique_users_field,
      same total_latency_field,
      same latency_count_field,
      same error_count_field,
      same (text "new_installs"),
      same (text "uninstalls"),
    )

    -- What the store reads of an agent for an hour is what the calls under the key of this agent and hour add up to, by the keys
    -- that the code makes.
    pub get_hour-key_report :
        (agent : Text) (t : ℕ) (os : List Op) (r : R)
        → ((k : Text) → redis.hget_all k r ≡ [])
        → ((k u : Text) → redis.is_member k u r ≡ false)
        → let after = apply_all date hour redis os r in
          get_hour date hour redis agent t after
          ≡ key_report agent t os (redis.hget_all (metrics_redis_key date hour agent t) after)
    unfolding get_hour
    get_hour-key_report agent t os r empty nobody =
        let k = metrics_redis_key date hour agent t in
        hour_of-key_report agent t os (redis.hget_all k (apply_all date hour redis os r))
          (λ f. ground (arith, tally_from os [] r k f nobody, empty_field k f r (empty k)))
