-- ===== src/Speech.antt =====
-- internal/voicesession/speech.go: the controller that arbitrates between the user's speech and
-- the synthesised speech. A method that mutates the controller returns the new record; the mutex
-- makes each method one step. An instant is a number of nanoseconds, 0 being the zero `time.Time`;
-- a duration is not negative, as everything that fills a `BargeInPolicy` writes it.
pub mod Invariant
pub mod Actions
mod Tests
use voice_backend.Common.{ℕ, ◌+◌, Bool, true, false, ◌||◌, List, [], ◌∷◌, ◌=ℕ◌, leb, if◌then◌else◌}

pub data ActionType : Type 0 where
  stop_tts cancel_agent pause_output resume_output end_utterance : ActionType

-- The reasons are the string constants of the source.
pub data Reason : Type 0 where
  barge_in speech_end backpressure : Reason

pub record Action : Type 0 where
  pub type : ActionType
  pub reason : Reason

pub data SpeechState : Type 0 where
  idle listening speaking interrupted : SpeechState

pub record BargeInPolicy : Type 0 where
  pub allow_while_speaking : Bool
  pub min_partial_chars : ℕ
  pub min_silence_for_end : ℕ
  pub debounce_min : ℕ
  pub debounce_max : ℕ

pub record SpeechController : Type 0 where
  pub state : SpeechState
  pub policy : BargeInPolicy
  pub tts_active : Bool
  pub last_speech : ℕ

abbrev or_default : ℕ → ℕ → ℕ
or_default d n = if n =ℕ 0 then d else n

unfoldable pub new_speech_controller : BargeInPolicy → SpeechController
new_speech_controller p = record {
  state = idle;
  policy = record p {
    debounce_min = or_default 100_000_000 p.debounce_min;
    debounce_max = or_default 500_000_000 p.debounce_max;
    min_silence_for_end = or_default 400_000_000 p.min_silence_for_end;
  };
  tts_active = false;
  last_speech = 0;
}

unfoldable pub on_tts_audio_start : SpeechController → SpeechController
on_tts_audio_start c = record c { tts_active = true; state = speaking }

abbrev after_end : SpeechState → SpeechState
after_end speaking = idle
after_end interrupted = idle
after_end s = s

unfoldable pub on_tts_audio_end : SpeechController → SpeechController
on_tts_audio_end c = record c { tts_active = false; state = after_end c.state }

-- The three actions that silence the output.
abbrev pub silencing : Reason → List Action
silencing r =
    record { type = stop_tts; reason = r }
    ∷ record { type = cancel_agent; reason = r }
    ∷ record { type = pause_output; reason = r }
    ∷ []

-- The `switch` of `OnUserSpeechStart`, by the state at its entry.
speech_start_case : SpeechState → SpeechController → SpeechController × List Action
speech_start_case speaking c =
    if c.policy.allow_while_speaking
    then (record c { state = interrupted }, silencing barge_in)
    else (c, [])
speech_start_case idle c = (record c { state = listening }, [])
speech_start_case _ c = (c, [])

unfoldable pub on_user_speech_start : SpeechController → ℕ → SpeechController × List Action
unfolding speech_start_case
on_user_speech_start c now = speech_start_case c.state (record c { last_speech = now })

-- `c.state == StateInterrupted || c.state == StateSpeaking`.
abbrev pub is_output : SpeechState → Bool
is_output speaking = true
is_output interrupted = true
is_output _ = false

unfoldable pub on_user_speech_end : SpeechController → ℕ → SpeechController × List Action
on_user_speech_end c now = (
  record c { last_speech = now },
  if is_output c.state
      then []
      else record { type = end_utterance; reason = speech_end }
        ∷ record { type = resume_output; reason = speech_end }
        ∷ [],
)

unfoldable pub on_backpressure : SpeechController → SpeechController × List Action
on_backpressure c =
    if c.tts_active then (record c { state = interrupted }, silencing backpressure) else (c, [])

abbrev is_listening : SpeechState → Bool
is_listening listening = true
is_listening _ = false

-- `now.Sub(last) >= min` for a `min` that is not negative.
unfoldable pub should_end_by_silence : SpeechController → ℕ → SpeechController × Bool
should_end_by_silence c now =
    if c.last_speech =ℕ 0
    then (c, false)
    else if is_listening c.state
    then if leb (c.last_speech + c.policy.min_silence_for_end) now
      then (record c { last_speech = 0; state = idle }, true)
      else (c, false)
    else (c, false)

-- One call of a method, and a history of calls in the order in which they take the mutex.
pub data Call : Type 0 where
  tts_audio_start tts_audio_end : Call
  user_speech_start user_speech_end : ℕ → Call
  backpressured : Call
  silence_check : ℕ → Call

pub record Outcome : Type 0 where
  pub controller : SpeechController
  pub actions : List Action
  pub ended : Bool

abbrev with_actions : SpeechController × List Action → Outcome
with_actions (c, out) = record { controller = c; actions = out; ended = false }

unfoldable pub call : SpeechController → Call → Outcome
unfolding on_tts_audio_start on_tts_audio_end on_user_speech_start on_user_speech_end
    on_backpressure should_end_by_silence
call c tts_audio_start = with_actions (on_tts_audio_start c, [])
call c tts_audio_end = with_actions (on_tts_audio_end c, [])
call c (user_speech_start now) = with_actions (on_user_speech_start c now)
call c (user_speech_end now) = with_actions (on_user_speech_end c now)
call c backpressured = with_actions (on_backpressure c)
call c (silence_check now) =
    let (c', ended) = should_end_by_silence c now in
    record { controller = c'; actions = []; ended = ended }

unfoldable pub run : SpeechController → List Call → SpeechController
run c [] = c
run c (x ∷ xs) = run (call c x).controller xs
