-- ===== src/AudioApi/Speech.antt =====
-- What a request for speech gets.
use voice_backend.Common.{
  ℕ, ◌+◌, ◌≤◌, ◌≡◌, refl, sym, Text, Bool, false, List, [], ◌∷◌, ◌++◌, some, ◌==◌, length, ltb,
  append_assoc, append-nil, length-append, arith,
}
use voice_backend.AudioApi.{
  TtsMessage, tts_ready, tts_audio, tts_done, tts_error, TtsRecv, tts_received, SpeechBuffer,
  empty_buffer, max_audio_data_size, max_input_length, on_audio, synthesize, content_type, Reply,
  blob, spoken, SpeechRequest, speak,
}

pub record Chunk : Type 0 where
  pub bytes : Text
  pub format : Text
  pub rate : ℕ

abbrev pub then_chunks : List Chunk → List TtsRecv → List TtsRecv
then_chunks [] rest = rest
then_chunks (c ∷ cs) rest = tts_received (tts_audio c.bytes c.format c.rate) ∷ then_chunks cs rest

abbrev pub joined : List Chunk → Text
joined [] = []
joined (c ∷ cs) = c.bytes ++ joined cs

abbrev pub last_format : Text → List Chunk → Text
last_format f [] = f
last_format f (c ∷ cs) = last_format c.format cs

abbrev Collected : List Chunk → SpeechBuffer → SpeechBuffer → Type 0
Collected cs b b' =
    (b'.buf ≡ b.buf ++ joined cs)
    × (b'.format ≡ last_format b.format cs)
    × (b'.too_large ≡ b.too_large)

-- Chunks that fit are all collected.
synthesize-chunks :
    (cs : List Chunk) (rest : List TtsRecv) (b : SpeechBuffer)
    → length b.buf + length (joined cs) ≤ max_audio_data_size
    → (b' : SpeechBuffer) × Collected cs b b'
      × (synthesize (then_chunks cs rest) b ≡ synthesize rest b')
unfolding synthesize on_audio
synthesize-chunks [] rest b h = (b, (sym (append-nil b.buf), refl, refl), refl)
synthesize-chunks (c ∷ cs) rest b h =
    let fits : ltb max_audio_data_size (length b.buf + length c.bytes) ≡ false =
      ground (arith, h, length-append c.bytes (joined cs)) in
    let next = on_audio c.bytes c.format c.rate b in
    let (b', collected, same) =
      synthesize-chunks cs rest next
        (ground (arith, h, fits, length-append c.bytes (joined cs), length-append b.buf c.bytes)) in
    (b', ground (arith, fits, collected, append_assoc b.buf c.bytes (joined cs)), same)

-- What the service has sent when it stops, by its last message.
abbrev pub session : ℕ → Text → List Chunk → TtsMessage → List TtsRecv → List TtsRecv
session sr voice cs last rest =
    tts_received (tts_ready sr voice) ∷ then_chunks cs (tts_received last ∷ rest)

module _ {F : Type 0} (out_of_range : F → Bool) (one : F) (r : SpeechRequest out_of_range one) where
  abbrev Answers : (SpeechRequest out_of_range one → List TtsRecv) → Reply → Type 0
  Answers service reply = speak out_of_range one service (some r) ≡ reply

  collected_blob :
      (sr : ℕ) (voice : Text) (cs : List Chunk) (rest : List TtsRecv) (last : TtsMessage)
      → ((b : SpeechBuffer) → synthesize (tts_received last ∷ rest) b ≡ (b, false))
      → (r.input == []) ≡ false
      → length r.input ≤ max_input_length
      → (joined cs == []) ≡ false
      → length (joined cs) ≤ max_audio_data_size
      → Answers
          (λ _. session sr voice cs last rest)
          (blob (content_type (last_format [] cs)) (joined cs))
  unfolding speak synthesize empty_buffer spoken
  collected_blob sr voice cs rest last ends some_input short some_audio fits =
      let start : SpeechBuffer = record empty_buffer { sample_rate = sr } in
      let (b, (bytes, format, small), same) =
        synthesize-chunks cs (tts_received last ∷ rest) start (omega (arith, fits)) in
      ground (arith, some_input, short, some_audio, bytes, format, small, same, ends b)

  -- For a request with an input of 1 to 4096 bytes: if the service sends audio, not empty and of at most 500 MiB, and then says
  -- that it is done, the answer is all of the audio, in order, with the type of the last chunk. If it then sends
  -- an error instead, the answer is the same: what has come so far, as a success.
  pub speak-joined :
      (sr : ℕ) (voice : Text) (cs : List Chunk) (rest : List TtsRecv) (m : Text)
      → (r.input == []) ≡ false
      → length r.input ≤ max_input_length
      → (joined cs == []) ≡ false
      → length (joined cs) ≤ max_audio_data_size
      → let whole = blob (content_type (last_format [] cs)) (joined cs) in
        Answers (λ _. session sr voice cs tts_done rest) whole
        × Answers (λ _. session sr voice cs (tts_error m) rest) whole
  unfolding synthesize
  speak-joined sr voice cs rest m h i j k = (
    collected_blob sr voice cs rest tts_done (λ b. refl) h i j k,
    collected_blob sr voice cs rest (tts_error m) (λ b. refl) h i j k,
  )
