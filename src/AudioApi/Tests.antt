-- ===== src/AudioApi/Tests.antt =====
-- One key, a service that breaks off, and the theorems at them.
use voice_backend.Common.{
  ℕ, ◌≡◌, ◌⊎◌, refl, Text, text, Text-discrete, Bool, true, List, [], ◌∷◌, none, some, leb, arith,
}
use voice_backend.Transcription.{Recv}
use voice_backend.AudioApi.{
  Refusal, tts_done, tts_error, TtsRecv, refused, blob, content_type, SpeechRequest, completed,
  speak, handle_speech,
}
use voice_backend.AudioApi.Files.{
  AudioForm, BatchRequest, handle_transcriptions, handle_delete_voice,
}
use voice_backend.AudioApi.Speech.{Chunk, joined, last_format, session, speak-joined}
use voice_backend.AudioApi.Keys.{HasKey, key_needed}

-- A speed is counted in hundredths.
abbrev out : ℕ → Bool
out n = leb n 24

abbrev request : SpeechRequest out 100
request = record {
  model = [];
  input = text "Hello";
  voice = [];
  response_format = text "opus";
  speed = 7;
}

defaults :
    ((completed out 100 request).voice ≡ text "af_heart")
    × ((completed out 100 request).speed ≡ 100)
unfolding completed Text-discrete
defaults = (refl, refl)

abbrev chunk : ℕ → Chunk
chunk n = record { bytes = n ∷ n ∷ []; format = text "opus"; rate = 48000 }

abbrev chunks : List Chunk
chunks = chunk 1 ∷ chunk 2 ∷ []

speak-joined_example :
    let whole = blob (content_type (last_format [] chunks)) (joined chunks) in
    (speak out 100 (λ _. session 48000 (text "v") chunks tts_done []) (some request) ≡ whole)
    × (speak out 100
          (λ _. session 48000 (text "v") chunks (tts_error (text "broken")) [])
          (some request)
        ≡ whole)
unfolding Text-discrete
speak-joined_example =
    speak-joined out 100 request 48000 (text "v") chunks [] (text "broken") refl (omega arith) refl
      (omega arith)

abbrev no_service : BatchRequest → List Recv
no_service r = []

abbrev no_speech : SpeechRequest out 100 → List TtsRecv
no_speech r = []

abbrev form : AudioForm
form = record {
  file = none;
  filename = [];
  model = [];
  language = [];
  response_format = [];
  timestamp_granularities = [];
}

abbrev same_text : Text → Text
same_text s = s

key_needed_example :
    HasKey same_text 5 [] (text "Bearer x")
    ⊎ ((r : Refusal) × (r.status ≡ 401)
        × (handle_speech out 100 same_text 5 [] no_speech (text "Bearer x") (some request)
            ≡ refused r)
        × (handle_transcriptions same_text 5 [] no_service (text "Bearer x") form ≡ refused r)
        × (handle_delete_voice same_text 5 [] (text "Bearer x") (text "v") (some true) ≡ refused r))
key_needed_example =
    key_needed out 100 same_text 5 [] (text "Bearer x") no_speech (some request) no_service form
      (text "v") (some true)
