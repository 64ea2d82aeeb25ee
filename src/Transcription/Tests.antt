-- ===== src/Transcription/Tests.antt =====
-- A service that comes back at the third attempt, a stream with two ready messages, and the theorems at them.
use voice_backend.Common.{
  ℕ, ◌≤◌, ◌≡◌, refl, text, Text, true, false, List, [], ◌∷◌, ◌++◌, none, some, length, ltb,
  if◌then◌else◌, leb,
}
use voice_backend.Transcription.{
  BackoffConfig, normalize_backoff, Round, reconnect_loop, Transcript, ready, speech_started,
  transcript, Recv, received, end_of_file, Callbacks, read_loop, batch_receive, sidecar_error,
  receive_failed,
}
use voice_backend.Transcription.Reconnect.{
  delays_from, all_fail, is_gave_up, reconnect_loop-bounded,
}
use voice_backend.Transcription.Streams.{
  heard, ready_count, failure_call, calls_of, read_loop-calls, last_final, has_error, reaches_end,
  concluded, batch_receive-last,
}

abbrev zero_config : BackoffConfig
zero_config = record { initial = 0; max_attempts = 0; max_delay = 0 }

abbrev round : ℕ → Round
round i = record { ended_before = false; connects = leb 2 i; ended_waiting = false }

abbrev short : BackoffConfig
short = record { initial = 3; max_attempts = 6; max_delay = 10 }

back_again : (reconnect_loop short round).delays ≡ 3 ∷ 6 ∷ []
unfolding reconnect_loop
back_again = refl

normalized : (normalize_backoff zero_config).max_attempts ≡ 5
unfolding normalize_backoff
normalized = refl

reconnect_loop-bounded_example :
    let r = reconnect_loop short round in
    (r.attempts ≤ 6)
    × (length r.delays ≤ r.attempts)
    × (r.delays ≡ delays_from short 0 (length r.delays))
    × (is_gave_up r.outcome ≡ all_fail round 6 0)
    × ((if is_gave_up r.outcome then length r.delays else 6) ≡ 6)
reconnect_loop-bounded_example = reconnect_loop-bounded short round

abbrev callbacks : Callbacks
callbacks = record {
  ready_set = true;
  speech_start_set = true;
  speech_end_set = true;
  transcript_set = true;
  error_set = true;
}

abbrev two_ready : List Recv
two_ready = received ready ∷ received speech_started ∷ received ready ∷ end_of_file ∷ []

read_loop-calls_example : read_loop callbacks false two_ready ≡ (
    if ltb 1 (ready_count (heard two_ready))
    then none
    else some (calls_of callbacks (heard two_ready) ++ failure_call callbacks two_ready))
read_loop-calls_example = read_loop-calls callbacks two_ready

panics : read_loop callbacks false two_ready ≡ none
unfolding read_loop
panics = refl

abbrev said : Text → Transcript
said t = record {
  text = t;
  is_partial = false;
  start_ms = 0;
  end_ms = 0;
  audio_duration_ms = 0;
  processing_duration_ms = 0;
  model = [];
}

abbrev two_transcripts : List Recv
two_transcripts =
    received ready
    ∷ received (transcript (said (text "one")))
    ∷ received (transcript (said (text "two")))
    ∷ end_of_file
    ∷ []

batch_run : batch_receive none two_transcripts ≡ (some (said (text "two")), none)
unfolding batch_receive
batch_run = refl

batch_receive-last_example : batch_receive none two_transcripts ≡ (
    if has_error (heard two_transcripts)
    then (none, some sidecar_error)
    else if reaches_end two_transcripts
    then concluded (last_final none (heard two_transcripts))
    else (last_final none (heard two_transcripts), some receive_failed))
batch_receive-last_example = batch_receive-last two_transcripts
