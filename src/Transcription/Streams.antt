-- ===== src/Transcription/Streams.antt =====
-- What is read off the streams.
use voice_backend.Common.{
  ℕ, ◌+◌, ◌≡◌, refl, Bool, true, false, List, [], ◌∷◌, ◌++◌, append_assoc, Option, none, some, ltb,
  text, filter, if◌then◌else◌, arith,
}
use voice_backend.Transcription.{
  Transcript, ServerMessage, ready, speech_started, speech_stopped, other_message, transcript,
  error_message, Recv, received, end_of_file, failed, Callback, on_ready, on_speech_start,
  on_speech_end, on_transcript, Callbacks, on_error, when, callback_of, is_ready_message, read_loop,
  BatchError, receive_failed, sidecar_error, no_transcript, batch_receive,
}

-- The messages before the end of the stream.
abbrev pub heard : List Recv → List ServerMessage
heard [] = []
heard (received m ∷ rs) = m ∷ heard rs
heard (end_of_file ∷ rs) = []
heard (failed e ∷ rs) = []

abbrev pub ready_count : List ServerMessage → ℕ
ready_count [] = 0
ready_count (m ∷ ms) = (if is_ready_message m then 1 else 0) + ready_count ms

-- The callback for the failure of the stream, if it fails.
abbrev pub failure_call : Callbacks → List Recv → List Callback
failure_call cb [] = []
failure_call cb (received m ∷ rs) = failure_call cb rs
failure_call cb (end_of_file ∷ rs) = []
failure_call cb (failed e ∷ rs) = when cb.error_set (on_error e)

-- What the messages call for, if all callbacks are set.
abbrev pub called_for : List ServerMessage → List Callback
called_for [] = []
called_for (ready ∷ ms) = on_ready ∷ called_for ms
called_for (speech_started ∷ ms) = on_speech_start ∷ called_for ms
called_for (speech_stopped ∷ ms) = on_speech_end ∷ called_for ms
called_for (transcript t ∷ ms) = on_transcript t ∷ called_for ms
called_for (error_message m ∷ ms) = on_error (text "sidecar error: " ++ m) ∷ called_for ms
called_for (other_message ∷ ms) = called_for ms

abbrev pub is_set : Callbacks → Callback → Bool
is_set cb on_ready = cb.ready_set
is_set cb on_speech_start = cb.speech_start_set
is_set cb on_speech_end = cb.speech_end_set
is_set cb (on_transcript t) = cb.transcript_set
is_set cb (on_error m) = cb.error_set

-- Of these, the callbacks that are set.
abbrev pub calls_of : Callbacks → List ServerMessage → List Callback
calls_of cb ms = filter (is_set cb) (called_for ms)

calls_of-cons :
    (cb : Callbacks) (m : ServerMessage) (ms : List ServerMessage)
    → calls_of cb (m ∷ ms) ≡ callback_of cb m ++ calls_of cb ms
unfolding callback_of
calls_of-cons cb ready ms = ground arith
calls_of-cons cb speech_started ms = ground arith
calls_of-cons cb speech_stopped ms = ground arith
calls_of-cons cb (transcript t) ms = ground arith
calls_of-cons cb (error_message m) ms = ground arith
calls_of-cons cb other_message ms = refl

read_loop-calls_from :
    (cb : Callbacks) (is_closed : Bool) (rs : List Recv)
    → read_loop cb is_closed rs ≡ (
        if ltb 1 ((if is_closed then 1 else 0) + ready_count (heard rs))
        then none
        else some (calls_of cb (heard rs) ++ failure_call cb rs))
unfolding read_loop
read_loop-calls_from cb is_closed [] = ground arith
read_loop-calls_from cb is_closed (end_of_file ∷ rs) = ground arith
read_loop-calls_from cb is_closed (failed e ∷ rs) = ground arith
read_loop-calls_from cb is_closed (received m ∷ rs) = ground (
  arith,
  read_loop-calls_from cb is_closed rs,
  read_loop-calls_from cb true rs,
  append_assoc (callback_of cb m) (calls_of cb (heard rs)) (failure_call cb rs),
  calls_of-cons cb m (heard rs),
)

-- Whatever the stream gives: the read loop panics exactly if it receives two ready messages before the end; otherwise it
-- calls, in order, the callback for each message before the end and then the one for a failure, as far as they are set.
pub read_loop-calls :
    (cb : Callbacks) (rs : List Recv)
    → read_loop cb false rs ≡ (
        if ltb 1 (ready_count (heard rs))
        then none
        else some (calls_of cb (heard rs) ++ failure_call cb rs))
read_loop-calls cb rs = ground (arith, read_loop-calls_from cb false rs)

abbrev pub last_final : Option Transcript → List ServerMessage → Option Transcript
last_final result [] = result
last_final result (transcript t ∷ ms) = last_final (if t.is_partial then result else some t) ms
last_final result (_ ∷ ms) = last_final result ms

abbrev pub has_error : List ServerMessage → Bool
has_error [] = false
has_error (error_message e ∷ ms) = true
has_error (_ ∷ ms) = has_error ms

abbrev pub reaches_end : List Recv → Bool
reaches_end [] = false
reaches_end (received m ∷ rs) = reaches_end rs
reaches_end (end_of_file ∷ rs) = true
reaches_end (failed e ∷ rs) = false

-- What the messages of a stream come to.
abbrev pub concluded : Option Transcript → Option Transcript × Option BatchError
concluded none = (none, some no_transcript)
concluded (some t) = (some t, none)

batch_receive-last_from :
    (result : Option Transcript) (rs : List Recv)
    → batch_receive result rs ≡ (
        if has_error (heard rs)
        then (none, some sidecar_error)
        else if reaches_end rs
        then concluded (last_final result (heard rs))
        else (last_final result (heard rs), some receive_failed))
unfolding batch_receive
batch_receive-last_from none [] = refl
batch_receive-last_from (some t) [] = refl
batch_receive-last_from none (end_of_file ∷ rs) = refl
batch_receive-last_from (some t) (end_of_file ∷ rs) = refl
batch_receive-last_from none (failed e ∷ rs) = refl
batch_receive-last_from (some t) (failed e ∷ rs) = refl
batch_receive-last_from none (received (transcript t) ∷ rs) =
    batch_receive-last_from (if t.is_partial then none else some t) rs
batch_receive-last_from (some u) (received (transcript t) ∷ rs) =
    batch_receive-last_from (if t.is_partial then some u else some t) rs
batch_receive-last_from none (received (error_message m) ∷ rs) = refl
batch_receive-last_from (some u) (received (error_message m) ∷ rs) = refl
batch_receive-last_from none (received ready ∷ rs) = batch_receive-last_from none rs
batch_receive-last_from (some u) (received ready ∷ rs) = batch_receive-last_from (some u) rs
batch_receive-last_from none (received speech_started ∷ rs) = batch_receive-last_from none rs
batch_receive-last_from (some u) (received speech_started ∷ rs) =
    batch_receive-last_from (some u) rs
batch_receive-last_from none (received speech_stopped ∷ rs) = batch_receive-last_from none rs
batch_receive-last_from (some u) (received speech_stopped ∷ rs) =
    batch_receive-last_from (some u) rs
batch_receive-last_from none (received other_message ∷ rs) = batch_receive-last_from none rs
batch_receive-last_from (some u) (received other_message ∷ rs) = batch_receive-last_from (some u) rs

-- A batch transcription gives the last transcript that is not partial, if the stream ends with no error message and has one;
-- without one, or if the stream fails or an error message comes, it gives an error, in the last case with no
-- transcript.
pub batch_receive-last :
    (rs : List Recv)
    → batch_receive none rs ≡ (
        if has_error (heard rs)
        then (none, some sidecar_error)
        else if reaches_end rs
        then concluded (last_final none (heard rs))
        else (last_final none (heard rs), some receive_failed))
batch_receive-last rs = batch_receive-last_from none rs
