-- ===== src/Transcription.antt =====
-- internal/transcription/client.go and internal/audio/batch.go: the client of the speech-to-text service. The streams
-- of gRPC are third-party code: what an attempt to connect and what `Recv` give comes from outside. A delay is
-- in nanoseconds; a configured value of 0 stands for all values that are not positive; the doubled delay does
-- not wrap as long as the delays are below 2^62.
pub mod Reconnect
pub mod Streams
mod Tests
use voice_backend.Common.{
  ℕ, zero, suc, ◌+◌, ◌*◌, min, Text, text, Bool, true, false, not, ◌&&◌, List, [], ◌∷◌, ◌++◌,
  Option, none, some, ◌=ℕ◌, leb, ltb, if◌then◌else◌,
}

pub record BackoffConfig : Type 0 where
  pub initial : ℕ
  pub max_attempts : ℕ
  pub max_delay : ℕ

abbrev pub or_default : ℕ → ℕ → ℕ
or_default d n = if leb n 0 then d else n

unfoldable pub normalize_backoff : BackoffConfig → BackoffConfig
normalize_backoff cfg = record {
  initial = or_default 100000000 cfg.initial;
  max_attempts = or_default 5 cfg.max_attempts;
  max_delay = or_default 2000000000 cfg.max_delay;
}

unfoldable pub min_duration : ℕ → ℕ → ℕ
min_duration a b = if ltb a b then a else b

-- What one round of the loop meets: whether the client's context has ended at its start, whether `connectAndStart`
-- succeeds, and whether the context ends while the loop waits.
pub record Round : Type 0 where
  pub ended_before : Bool
  pub connects : Bool
  pub ended_waiting : Bool

pub data Outcome : Type 0 where
  reconnected context_ended gave_up : Outcome

-- What the loop has done: the attempts to connect, and the delays that it has waited to their end.
pub record Report : Type 0 where
  pub outcome : Outcome
  pub attempts : ℕ
  pub delays : List ℕ

abbrev pub one_more : ℕ → Report → Report
one_more delay r = record r { attempts = r.attempts + 1; delays = delay ∷ r.delays }

-- The loop with `left` rounds left, before round `i`.
unfoldable pub reconnect_rounds : ℕ → (ℕ → Round) → ℕ → ℕ → ℕ → Report
unfolding min_duration
reconnect_rounds max_delay world zero i backoff = record {
  outcome = gave_up;
  attempts = 0;
  delays = [];
}
reconnect_rounds max_delay world (suc left) i backoff =
    let rest =
      one_more backoff
        (reconnect_rounds max_delay world left (i + 1) (min_duration (backoff * 2) max_delay)) in
    if (world i).ended_before
    then record { outcome = context_ended; attempts = 0; delays = [] }
    else if (world i).connects
    then record { outcome = reconnected; attempts = 1; delays = [] }
    else if (world i).ended_waiting
    then record { outcome = context_ended; attempts = 1; delays = [] }
    else rest

unfoldable pub reconnect_loop : BackoffConfig → (ℕ → Round) → Report
unfolding reconnect_rounds
reconnect_loop cfg world = reconnect_rounds cfg.max_delay world cfg.max_attempts 0 cfg.initial

-- The fields that `Reconnect` and the loop share: the state, and the channel with room for one result.
pub record Client : Type 0 where
  pub backoff : BackoffConfig
  pub in_progress : Bool
  pub reconnect_ch : Option Outcome
  pub loops : ℕ  -- the goroutines `reconnectLoop`

unfoldable pub new_client : BackoffConfig → Client
unfolding normalize_backoff
new_client cfg = record {
  backoff = normalize_backoff cfg;
  in_progress = false;
  reconnect_ch = none;
  loops = 0;
}

unfoldable pub reconnect : Client → Client
reconnect c =
    if c.in_progress
    then c
    else record c { in_progress = true; reconnect_ch = none; loops = c.loops + 1 }

-- `notifyReconnect` drops a result if one is waiting.
abbrev pub or_keep : Option Outcome → Outcome → Option Outcome
or_keep none o = some o
or_keep (some old) o = some old

-- A loop notifies, and leaves.
unfoldable pub loop_ends : (ℕ → Round) → Client → Client
unfolding reconnect_loop
loop_ends world c = if c.loops =ℕ 0 then c else record c {
  reconnect_ch = or_keep c.reconnect_ch (reconnect_loop c.backoff world).outcome;
  in_progress = false;
  loops = 0;
}

-- `WaitReconnect`, if a result is there: it takes it.
unfoldable pub wait_reconnect : Client → Client × Option Outcome
wait_reconnect c = (record c { reconnect_ch = none }, c.reconnect_ch)

-- A call of the client, or the end of its loop, with what the loop has met.
pub data Call : Type 0 where
  reconnects waits : Call
  ends : (ℕ → Round) → Call

unfoldable pub serve : Client → Call → Client
unfolding reconnect loop_ends wait_reconnect
serve c reconnects = reconnect c
serve c waits = (wait_reconnect c).0
serve c (ends world) = loop_ends world c

unfoldable pub serve_all : Client → List Call → Client
unfolding serve
serve_all c [] = c
serve_all c (e ∷ es) = serve_all (serve c e) es

-- What `Recv` gives.
pub record Transcript : Type 0 where
  pub text : Text
  pub is_partial : Bool
  pub start_ms : ℕ
  pub end_ms : ℕ
  pub audio_duration_ms : ℕ
  pub processing_duration_ms : ℕ
  pub model : Text

pub data ServerMessage : Type 0 where
  ready speech_started speech_stopped other_message : ServerMessage
  transcript : Transcript → ServerMessage
  error_message : Text → ServerMessage

pub data Recv : Type 0 where
  received : ServerMessage → Recv
  end_of_file : Recv
  failed : Text → Recv

-- The callbacks that are called, in order.
pub data Callback : Type 0 where
  on_ready on_speech_start on_speech_end : Callback
  on_transcript : Transcript → Callback
  on_error : Text → Callback

-- Which callbacks are set.
pub record Callbacks : Type 0 where
  pub ready_set : Bool
  pub speech_start_set : Bool
  pub speech_end_set : Bool
  pub transcript_set : Bool
  pub error_set : Bool

abbrev pub when : Bool → Callback → List Callback
when true c = c ∷ []
when false c = []

unfoldable pub callback_of : Callbacks → ServerMessage → List Callback
callback_of cb ready = when cb.ready_set on_ready
callback_of cb speech_started = when cb.speech_start_set on_speech_start
callback_of cb speech_stopped = when cb.speech_end_set on_speech_end
callback_of cb (transcript t) = when cb.transcript_set (on_transcript t)
callback_of cb (error_message m) = when cb.error_set (on_error (text "sidecar error: " ++ m))
callback_of cb other_message = []

abbrev pub is_ready_message : ServerMessage → Bool
is_ready_message ready = true
is_ready_message _ = false

abbrev pub map_calls : List Callback → Option (List Callback) → Option (List Callback)
map_calls cs none = none
map_calls cs (some rest) = some (cs ++ rest)

-- `readLoop`: the callbacks, or `none` where it panics, since it closes `readyCh` a second time. `is_closed` is the
-- state of `readyCh`.
unfoldable pub read_loop : Callbacks → Bool → List Recv → Option (List Callback)
unfolding callback_of
read_loop cb is_closed [] = some []
read_loop cb is_closed (end_of_file ∷ rs) = some []
read_loop cb is_closed (failed e ∷ rs) = some (when cb.error_set (on_error e))
read_loop cb is_closed (received m ∷ rs) =
    let rest =
      map_calls (callback_of cb m)
        (read_loop cb (if is_ready_message m then true else is_closed) rs) in
    if is_ready_message m && is_closed then none else rest

-- The result of `BatchTranscribe`, and whether an error comes with it.
pub data BatchError : Type 0 where
  receive_failed sidecar_error no_transcript : BatchError

unfoldable pub batch_receive : Option Transcript → List Recv → Option Transcript × Option BatchError
batch_receive result [] = (result, some receive_failed)
batch_receive none (end_of_file ∷ rs) = (none, some no_transcript)
batch_receive (some t) (end_of_file ∷ rs) = (some t, none)
batch_receive result (failed e ∷ rs) = (result, some receive_failed)
batch_receive result (received (transcript t) ∷ rs) =
    batch_receive (if t.is_partial then result else some t) rs
batch_receive result (received (error_message m) ∷ rs) = (none, some sidecar_error)
batch_receive result (received ready ∷ rs) = batch_receive result rs
batch_receive result (received speech_started ∷ rs) = batch_receive result rs
batch_receive result (received speech_stopped ∷ rs) = batch_receive result rs
batch_receive result (received other_message ∷ rs) = batch_receive result rs
