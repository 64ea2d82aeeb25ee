-- ===== src/AudioApi.antt =====
-- internal/audio/handler.go: the keys of the audio endpoints and the one for speech, with the receiving loop of `Synthesize`
-- (internal/synthesis/client.go). What the speech service sends comes from outside. The
-- speed is a float32: its type is a parameter, with the test whether it is out of range and the value 1.0.
-- The segments and words of a verbose transcription are left out, as is the log.
pub mod Speech
pub mod Keys
pub mod Files
mod Tests
use voice_backend.Common.{
  ℕ, ◌+◌, ◌*◌, Text, text, Bool, true, false, not, ◌||◌, List, [], ◌∷◌, ◌++◌, Option, none, some,
  ◌==◌, ◌=ℕ◌, leb, ltb, length, contains, if◌then◌else◌,
}
use voice_backend.ApiKey.{ApiKey, Validation, valid, not_found, unauthorized, validate}
use voice_backend.Gateway.Access.{cut_prefix}
use voice_backend.Transcription.{Transcript, Recv, batch_receive, BatchError}

-- A refusal is a status and a code.
pub record Refusal : Type 0 where
  pub status : ℕ
  pub code : Text

abbrev pub refusal : ℕ → Text → Refusal
refusal status code = record { status = status; code = code }

abbrev pub of_validation : Validation → Option Refusal
of_validation (valid key) = none
of_validation not_found = some (refusal 401 (text "invalid_key"))
of_validation unauthorized = some (refusal 401 (text "invalid_key"))

-- `strings.TrimPrefix` on the header, which leaves it as it is without the prefix.
abbrev pub trimmed : Option Text → Text → Text
trimmed none s = s
trimmed (some t) s = t

-- `validateAPIKey`: the refusal, if any.
unfoldable pub validate_api_key : (Text → Text) → ℕ → List ApiKey → Text → Option Refusal
unfolding cut_prefix
validate_api_key hash now keys authorization =
    let token = trimmed (cut_prefix (text "Bearer ") authorization) authorization in
    if authorization == []
    then some (refusal 401 (text "missing_auth"))
    else if token == authorization
    then some (refusal 401 (text "invalid_auth"))
    else of_validation (validate hash now token keys)

-- The messages of the speech service.
pub data TtsMessage : Type 0 where
  tts_ready : ℕ → Text → TtsMessage
  tts_audio : Text → Text → ℕ → TtsMessage  -- the data, its format and the sample rate
  tts_done : TtsMessage
  tts_error : Text → TtsMessage

-- What the receiving loop meets: a message, the end of the stream, its failure, or the end of the context, which `Synthesize`
-- is taken to see before the goroutine ends.
pub data TtsRecv : Type 0 where
  tts_received : TtsMessage → TtsRecv
  tts_end tts_failed context_ended : TtsRecv

-- What the callbacks of HandleSpeech collect.
pub record SpeechBuffer : Type 0 where
  pub buf : Text
  pub sample_rate : ℕ
  pub format : Text
  pub too_large : Bool

unfoldable pub empty_buffer : SpeechBuffer
empty_buffer = record { buf = []; sample_rate = 0; format = []; too_large = false }

abbrev pub max_audio_data_size : ℕ
max_audio_data_size = 524288000

-- `OnAudio`.
unfoldable pub on_audio : Text → Text → ℕ → SpeechBuffer → SpeechBuffer
on_audio chunk f sr b =
    if ltb max_audio_data_size (length b.buf + length chunk)
    then record b { too_large = true }
    else record b {
      buf = b.buf ++ chunk;
      format = f;
      sample_rate = if b.sample_rate =ℕ 0 then sr else b.sample_rate;
    }

-- `Synthesize` on these callbacks: what is collected, and whether it returns an error.
unfoldable pub synthesize : List TtsRecv → SpeechBuffer → SpeechBuffer × Bool
unfolding on_audio
synthesize [] b = (b, true)
synthesize (tts_received (tts_ready sr voice) ∷ rs) b =
    synthesize rs (record b { sample_rate = sr })
synthesize (tts_received (tts_audio chunk f sr) ∷ rs) b = synthesize rs (on_audio chunk f sr b)
synthesize (tts_received tts_done ∷ rs) b = (b, false)
synthesize (tts_received (tts_error m) ∷ rs) b = (b, false)
synthesize (tts_end ∷ rs) b = (b, false)
synthesize (tts_failed ∷ rs) b = (b, true)
synthesize (context_ended ∷ rs) b = (b, true)

unfoldable pub content_type : Text → Text
content_type f =
    if f == text "opus"
    then text "audio/opus"
    else if f == text "wav"
    then text "audio/wav"
    else if f == text "pcm"
    then text "audio/pcm"
    else if f == text "flac"
    then text "audio/flac"
    else text "audio/mpeg"

pub data Reply : Type 0 where
  refused : Refusal → Reply
  blob : Text → Text → Reply  -- the content type and the bytes
  plain : Text → Reply
  verbose_json : Text → Transcript → Reply
  json_text : Text → Reply
  deleted : Reply
  voice : Text → Reply

abbrev pub max_input_length : ℕ
max_input_length = 4096

abbrev pub or_default : Text → Text → Text
or_default d t = if t == [] then d else t

-- What HandleSpeech answers once the service is done.
unfoldable pub spoken : SpeechBuffer × Bool → Reply
unfolding content_type
spoken (b, failed) =
    if failed || b.too_large || b.buf == []
    then refused (refusal 500 (text "synthesis_failed"))
    else blob (content_type b.format) b.buf

-- The reply to a refused key, or else.
abbrev pub unless {ℓ} : {A : Type ℓ} → (Refusal → A) → Option Refusal → A → A
unless f none a = a
unless f (some r) a = f r

module _ {F : Type 0} (out_of_range : F → Bool) (one : F) where
  pub record SpeechRequest : Type 0 where
    pub model : Text
    pub input : Text
    pub voice : Text
    pub response_format : Text
    pub speed : F

  -- The request with its defaults.
  unfoldable pub completed : SpeechRequest → SpeechRequest
  completed r = record r {
    voice = or_default (text "af_heart") r.voice;
    response_format = or_default (text "mp3") r.response_format;
    speed = if out_of_range r.speed then one else r.speed;
  }

  -- The body is what `Bind` reads, or `none`. `service` is what the service sends for a request.
  unfoldable pub speak : (SpeechRequest → List TtsRecv) → Option SpeechRequest → Reply
  unfolding completed synthesize empty_buffer spoken
  speak service none = refused (refusal 400 (text "invalid_body"))
  speak service (some r) =
      if r.input == []
      then refused (refusal 400 (text "missing_input"))
      else if ltb max_input_length (length r.input)
      then refused (refusal 400 (text "input_too_long"))
      else spoken (synthesize (service (completed r)) empty_buffer)

  unfoldable pub handle_speech :
      (Text → Text)
      → ℕ
      → List ApiKey
      → (SpeechRequest → List TtsRecv)
      → Text
      → Option SpeechRequest
      → Reply
  unfolding validate_api_key speak
  handle_speech hash now keys service authorization body =
      unless refused (validate_api_key hash now keys authorization) (speak service body)
