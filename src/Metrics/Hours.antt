-- ===== src/Metrics/Hours.antt =====
-- Which counts belong to an agent and an hour: the keys of Redis tell them apart.
use voice_backend.Common.{
  ℕ, ◌+◌, ◌≡◌, refl, sym, ap, ◌∙◌, append_assoc, Text, text, Bool, true, false, ◌||◌, ◌&&◌, List,
  [], ◌∷◌, ◌++◌, map, Option, none, some, ◌==◌, ◌=ℕ◌, if◌then◌else◌, arith, Bool-cases, inl, inr,
  length, length-append, drop, ==→eq, ==_refl,
}
use voice_backend.Metrics.{
  Redis, Metrics, average, Op, increment_sessions, increment_responses, increment_utterances,
  increment_errors, track_unique_user, record_latency, sessions_field, responses_field,
  utterances_field, error_count_field, unique_users_field, total_latency_field, latency_count_field,
  metrics_redis_key, users_key, apply_all, get_hour,
}
use voice_backend.Metrics.Tally.{
  was_seen, seen_after, key_added, key_tally, key_report, get_hour-key_report,
}

abbrev pub has_colon : Text → Bool
has_colon [] = false
has_colon (c ∷ cs) = (c =ℕ 58) || has_colon cs

has_colon-append : (xs ys : Text) → has_colon (xs ++ 58 ∷ ys) ≡ true
has_colon-append [] ys = refl
has_colon-append (x ∷ xs) ys = ground (arith, has_colon-append xs ys)

abbrev tail : Text → Text
tail t = drop 1 t

-- The last colon of a text is where it is.
last_colon :
    (xs ys h g : Text)
    → has_colon h ≡ false
    → has_colon g ≡ false
    → xs ++ 58 ∷ h ≡ ys ++ 58 ∷ g
    → (xs ≡ ys) × (h ≡ g)
last_colon [] [] h g p q e = (refl, ap tail e)
last_colon [] (y ∷ ys) h g p q e =
    let inside : h ≡ ys ++ 58 ∷ g = ap tail e in
    absurd (ground (arith, p, ap has_colon inside, has_colon-append ys g))
last_colon (x ∷ xs) [] h g p q e =
    let inside : xs ++ 58 ∷ h ≡ g = ap tail e in
    absurd (ground (arith, q, ap has_colon inside, has_colon-append xs h))
last_colon (x ∷ xs) (y ∷ ys) h g p q e =
    let rest = last_colon xs ys h g p q (ap tail e) in (ground (arith, e, rest.0), rest.1)

equal_suffix : (xs ys s t : Text) → length s ≡ length t → xs ++ s ≡ ys ++ t → (xs ≡ ys) × (s ≡ t)
equal_suffix [] [] s t l e = (refl, e)
equal_suffix [] (y ∷ ys) s t l e =
    absurd (omega (arith, l, ap (λ (z : Text). length z) e, length-append (y ∷ ys) t))
equal_suffix (x ∷ xs) [] s t l e =
    absurd (omega (arith, l, ap (λ (z : Text). length z) e, length-append (x ∷ xs) s))
equal_suffix (x ∷ xs) (y ∷ ys) s t l e =
    let rest = equal_suffix xs ys s t l (ap tail e) in (ground (arith, e, rest.0), rest.1)

module _ (date hour : ℕ → Text) where
  -- The same agent, date and hour of the day.
  abbrev pub same_hour : Text → ℕ → Text → ℕ → Bool
  same_hour a now agent t = (a == agent) && ((date now == date t) && (hour now == hour t))

  abbrev key : Text → Text → ℕ → Text
  key kind a now = text "agent:" ++ (a ++ (kind ++ (date now ++ (text ":" ++ hour now))))

  module _ (date_length : (t : ℕ) → length (date t) ≡ 10)
      (hour_plain : (t : ℕ) → has_colon (hour t) ≡ false) where
    key-parts :
        (kind a b : Text) (now t : ℕ)
        → key kind a now ≡ key kind b t
        → (a ≡ b) × (date now ≡ date t) × (hour now ≡ hour t)
    key-parts kind a b now t e =
        let split = λ (x : Text) (d h : Text).
          append_assoc x (kind ++ d) (58 ∷ h)
          ∙ ap (λ (z : Text). x ++ z) (append_assoc kind d (58 ∷ h)) in
        let (front, hours) =
          last_colon (a ++ (kind ++ date now)) (b ++ (kind ++ date t)) (hour now) (hour t)
            (hour_plain now) (hour_plain t)
            (split a (date now) (hour now)
              ∙ ap (λ (z : Text). drop 6 z) e
              ∙ sym (split b (date t) (hour t))) in
        let (agents, back) =
          equal_suffix a b (kind ++ date now) (kind ++ date t)
            (omega (
              arith,
              length-append kind (date now),
              length-append kind (date t),
              date_length now,
              date_length t,
            ))
            front in
        let (_, dates) =
          equal_suffix kind kind (date now) (date t) (date_length now ∙ sym (date_length t)) back in
        (agents, dates, hours)

    key-== : (kind a b : Text) (now t : ℕ) → (key kind a now == key kind b t) ≡ same_hour a now b t
    key-== kind a b now t = elim (Bool-cases (same_hour a now b t)) [
      | inl e ↦
          let agents : a ≡ b = ==→eq a b (ground (arith, e)) in
          let dates : date now ≡ date t = ==→eq (date now) (date t) (ground (arith, e)) in
          let hours : hour now ≡ hour t = ==→eq (hour now) (hour t) (ground (arith, e)) in
          let same : key kind a now ≡ key kind b t = cc in
          ap (λ (z : Text). z == key kind b t) same ∙ ==_refl (key kind b t) ∙ sym e
      | inr e ↦ elim (Bool-cases (key kind a now == key kind b t)) [
        | inl h ↦
            let (agents, dates, hours) =
              key-parts kind a b now t (==→eq (key kind a now) (key kind b t) h) in
            let yes : same_hour a now b t ≡ true =
              rw (agents, dates, hours)
                (ground (arith, ==_refl b, ==_refl (date t), ==_refl (hour t))) in
            absurd (ground (arith, e, yes))
        | inr h ↦ h ∙ sym e
      ]
    ]

  -- Who was seen for which agent, and when.
  abbrev pub seen_in_hour : List (Text × (ℕ × Text)) → Text → ℕ → Text → Bool
  seen_in_hour [] agent t u = false
  seen_in_hour ((a, (now, v)) ∷ seen) agent t u =
      (same_hour a now agent t && (v == u)) || seen_in_hour seen agent t u

  -- What a call adds to a count of an agent in the hour of `t`; a user counts once for each agent and hour.
  abbrev pub added : List (Text × (ℕ × Text)) → Text → ℕ → Text → Op → ℕ
  added seen agent t f (increment_sessions a now) =
      if same_hour a now agent t && (sessions_field == f) then 1 else 0
  added seen agent t f (increment_responses a now) =
      if same_hour a now agent t && (responses_field == f) then 1 else 0
  added seen agent t f (increment_utterances a now) =
      if same_hour a now agent t && (utterances_field == f) then 1 else 0
  added seen agent t f (increment_errors a now) =
      if same_hour a now agent t && (error_count_field == f) then 1 else 0
  added seen agent t f (track_unique_user a u now) =
      if seen_in_hour seen a now u
      then 0
      else if same_hour a now agent t && (unique_users_field == f)
      then 1
      else 0
  added seen agent t f (record_latency a ms now) =
      (if same_hour a now agent t && (total_latency_field == f) then ms else 0)
      + (if same_hour a now agent t && (latency_count_field == f) then 1 else 0)

  abbrev pub seen_next : List (Text × (ℕ × Text)) → Op → List (Text × (ℕ × Text))
  seen_next seen (track_unique_user a u now) = (a, (now, u)) ∷ seen
  seen_next seen _ = seen

  abbrev pub tally : List (Text × (ℕ × Text)) → Text → ℕ → Text → List Op → ℕ
  tally seen agent t f [] = 0
  tally seen agent t f (o ∷ os) = added seen agent t f o + tally (seen_next seen o) agent t f os

  -- The record of an hour, by the calls; none if the hash is empty.
  abbrev pub report : Text → ℕ → List Op → List (Text × ℕ) → Option Metrics
  report agent t os [] = none
  report agent t os (e ∷ rest) =
      let count = λ (f : Text). tally [] agent t f os in
      some (record {
        agent_id = agent;
        date = date t;
        hour = hour t;
        sessions = count sessions_field;
        utterances = count utterances_field;
        responses = count responses_field;
        unique_users = count unique_users_field;
        avg_latency_ms = average (count total_latency_field) (count latency_count_field);
        error_count = count error_count_field;
        new_installs = count (text "new_installs");
        uninstalls = count (text "uninstalls");
      })

  abbrev by_key : List (Text × (ℕ × Text)) → List (Text × Text)
  by_key seen = map (λ e. (users_key date hour e.0 e.1.0, e.1.1)) seen

  module _ (date_length : (t : ℕ) → length (date t) ≡ 10)
      (hour_plain : (t : ℕ) → has_colon (hour t) ≡ false) where
    metrics_redis_key-== :
        (a b : Text) (now t : ℕ)
        → (metrics_redis_key date hour a now == metrics_redis_key date hour b t)
          ≡ same_hour a now b t
    unfolding metrics_redis_key
    metrics_redis_key-== a b now t = key-== date_length hour_plain (text ":metrics:") a b now t

    users_key-== :
        (a b : Text) (now t : ℕ)
        → (users_key date hour a now == users_key date hour b t) ≡ same_hour a now b t
    unfolding users_key
    users_key-== a b now t = key-== date_length hour_plain (text ":users:") a b now t

    was_seen-by_key :
        (seen : List (Text × (ℕ × Text))) (a u : Text) (now : ℕ)
        → was_seen (by_key seen) (users_key date hour a now) u ≡ seen_in_hour seen a now u
    was_seen-by_key [] a u now = refl
    was_seen-by_key ((b, (t, v)) ∷ seen) a u now =
        ground (arith, users_key-== b a t now, was_seen-by_key seen a u now)

    key_added-added :
        (seen : List (Text × (ℕ × Text))) (agent : Text) (t : ℕ) (f : Text) (o : Op)
        → key_added date hour (by_key seen) (metrics_redis_key date hour agent t) f o
          ≡ added seen agent t f o
    key_added-added seen agent t f (increment_sessions a now) =
        rw (metrics_redis_key-== a agent now t) refl
    key_added-added seen agent t f (increment_responses a now) =
        rw (metrics_redis_key-== a agent now t) refl
    key_added-added seen agent t f (increment_utterances a now) =
        rw (metrics_redis_key-== a agent now t) refl
    key_added-added seen agent t f (increment_errors a now) =
        rw (metrics_redis_key-== a agent now t) refl
    key_added-added seen agent t f (track_unique_user a u now) =
        rw (metrics_redis_key-== a agent now t, was_seen-by_key seen a u now) refl
    key_added-added seen agent t f (record_latency a ms now) =
        rw (metrics_redis_key-== a agent now t) refl

    seen_after-by_key :
        (seen : List (Text × (ℕ × Text))) (o : Op)
        → seen_after date hour (by_key seen) o ≡ by_key (seen_next seen o)
    seen_after-by_key seen (increment_sessions a now) = refl
    seen_after-by_key seen (increment_responses a now) = refl
    seen_after-by_key seen (increment_utterances a now) = refl
    seen_after-by_key seen (increment_errors a now) = refl
    seen_after-by_key seen (track_unique_user a u now) = refl
    seen_after-by_key seen (record_latency a ms now) = refl

    key_tally-tally :
        (os : List Op) (seen : List (Text × (ℕ × Text))) (agent : Text) (t : ℕ) (f : Text)
        → key_tally date hour (by_key seen) (metrics_redis_key date hour agent t) f os
          ≡ tally seen agent t f os
    key_tally-tally [] seen agent t f = refl
    key_tally-tally (o ∷ os) seen agent t f =
        rw (key_added-added seen agent t f o, seen_after-by_key seen o)
          (ap (◌+◌ (added seen agent t f o)) (key_tally-tally os (seen_next seen o) agent t f))

    module _ {R : Type 0} (redis : Redis R) where
      key_report-report :
          (agent : Text) (t : ℕ) (os : List Op) (h : List (Text × ℕ))
          → key_report date hour redis agent t os h ≡ report agent t os h
      key_report-report agent t os [] = refl
      key_report-report agent t os (e ∷ rest) =
          let same = key_tally-tally os [] agent t in
          cc (
            same sessions_field,
            same utterances_field,
            same responses_field,
            same unique_users_field,
            same total_latency_field,
            same latency_count_field,
            same error_count_field,
            same (text "new_installs"),
            same (text "uninstalls"),
          )

      -- A date has ten characters, and no hour has a colon. From a Redis without data, whatever is counted for whatever agents and
      -- users at whatever instants: what the store reads of an agent for the hour of `t` is what the calls
      -- for this agent on this date and in this hour of the day add up to, each user counted once for the agent
      -- and the hour, and the average latency rounded down; or nothing if the hash of this hour has no
      -- field.
      pub get_hour-report :
          (agent : Text) (t : ℕ) (os : List Op) (r : R)
          → ((k : Text) → redis.hget_all k r ≡ [])
          → ((k u : Text) → redis.is_member k u r ≡ false)
          → let after = apply_all date hour redis os r in
            get_hour date hour redis agent t after
            ≡ report agent t os (redis.hget_all (metrics_redis_key date hour agent t) after)
      get_hour-report agent t os r empty nobody =
          get_hour-key_report date hour redis agent t os r empty nobody
          ∙ key_report-report agent t os _
