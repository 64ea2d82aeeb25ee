-- ===== src/AudioApi/Files.antt =====
-- internal/audio/handler.go: the endpoints that take a file to transcribe and that delete a voice.
use voice_backend.Common.{
  ℕ, Text, text, Bool, List, [], Option, none, some, ◌==◌, ltb, contains, if◌then◌else◌,
}
use voice_backend.ApiKey.{ApiKey}
use voice_backend.Transcription.{Transcript, Recv, batch_receive, BatchError}
use voice_backend.AudioApi.{
  refusal, validate_api_key, Reply, refused, plain, verbose_json, json_text, deleted, or_default,
  unless,
}

abbrev pub max_file_size : ℕ
max_file_size = 524288000

-- A form with its file: its size, and its content, if it can be read.
pub record AudioForm : Type 0 where
  pub file : Option (ℕ × Option Text)
  pub filename : Text
  pub model : Text
  pub language : Text
  pub response_format : Text
  pub timestamp_granularities : List Text

pub record BatchRequest : Type 0 where
  pub filename : Text
  pub audio_data : Text
  pub language : Text
  pub model_id : Text
  pub include_word_timestamps : Bool

-- The reply to a transcription, by the format that is asked for.
unfoldable pub transcribed : Text → Text → Option Transcript × Option BatchError → Reply
transcribed format language (result, some e) = refused (refusal 500 (text "transcription_failed"))
transcribed format language (none, none) = refused (refusal 500 (text "transcription_failed"))
transcribed format language (some t, none) =
    if format == text "text"
    then plain t.text
    else if format == text "verbose_json"
    then verbose_json language t
    else json_text t.text

unfoldable pub transcribe_file :
    (BatchRequest → List Recv) → AudioForm → Option (ℕ × Option Text) → Reply
unfolding transcribed batch_receive
transcribe_file service f none = refused (refusal 400 (text "missing_file"))
transcribe_file service f (some (size, none)) =
    if ltb max_file_size size
    then refused (refusal 413 (text "file_too_large"))
    else refused (refusal 500 (text "file_error"))
transcribe_file service f (some (size, some content)) =
    if ltb max_file_size size
    then refused (refusal 413 (text "file_too_large"))
    else transcribed (or_default (text "json") f.response_format) f.language (
        batch_receive none (
          service (record {
            filename = f.filename;
            audio_data = content;
            language = f.language;
            model_id = f.model;
            include_word_timestamps = contains f.timestamp_granularities (text "word");
          })))

unfoldable pub handle_transcriptions :
    (Text → Text) → ℕ → List ApiKey → (BatchRequest → List Recv) → Text → AudioForm → Reply
unfolding validate_api_key transcribe_file
handle_transcriptions hash now keys service authorization f =
    unless refused (validate_api_key hash now keys authorization) (transcribe_file service f f.file)

-- What the service answers to a deletion: nothing on an error, or whether it has deleted.
unfoldable pub deletion : Text → Option Bool → Reply
deletion voice_id answer =
    if voice_id == [] then refused (refusal 400 (text "missing_voice_id")) else elim answer [
      | none ↦ refused (refusal 500 (text "delete_failed"))
      | some success ↦ if success then deleted else refused (refusal 404 (text "not_found"))
    ]

unfoldable pub handle_delete_voice :
    (Text → Text) → ℕ → List ApiKey → Text → Text → Option Bool → Reply
unfolding validate_api_key deletion
handle_delete_voice hash now keys authorization voice_id answer =
    unless refused (validate_api_key hash now keys authorization) (deletion voice_id answer)
