-- ===== src/AudioApi/Keys.antt =====
-- The endpoints do nothing without a key.
use voice_backend.Common.{
  ℕ, ◌≡◌, ◌⊎◌, inl, inr, refl, Text, text, Bool, true, false, List, [], Option, none, some, ◌==◌,
  if◌then◌else◌,
}
use voice_backend.ApiKey.{ApiKey, Validation, valid, not_found, unauthorized, validate}
use voice_backend.Gateway.Access.{cut_prefix}
use voice_backend.Transcription.{Recv}
use voice_backend.AudioApi.{
  Refusal, refusal, validate_api_key, of_validation, trimmed, TtsRecv, refused, SpeechRequest,
  handle_speech,
}
use voice_backend.AudioApi.Files.{
  AudioForm, BatchRequest, handle_transcriptions, handle_delete_voice,
}

-- The token is the valid secret of a key.
abbrev pub HasKey : (Text → Text) → ℕ → List ApiKey → Text → Type 0
HasKey hash now keys authorization =
    (key : ApiKey) × (validate hash now
        (trimmed (cut_prefix (text "Bearer ") authorization) authorization) keys
      ≡ valid key)

abbrev IsValid : Validation → Type 0
IsValid v = (key : ApiKey) × (v ≡ valid key)

-- The check gives a key or refuses with 401.
tests-cases :
    (a b : Bool) (v : Validation) (x y : Text)
    → let checked =
        if a then some (refusal 401 x) else if b then some (refusal 401 y) else of_validation v in
      ((checked ≡ none) × IsValid v) ⊎ ((r : Refusal) × (checked ≡ some r) × (r.status ≡ 401))
tests-cases true b v x y = inr (refusal 401 x, refl, refl)
tests-cases false true v x y = inr (refusal 401 y, refl, refl)
tests-cases false false (valid key) x y = inl (refl, (key, refl))
tests-cases false false not_found x y = inr (refusal 401 (text "invalid_key"), refl, refl)
tests-cases false false unauthorized x y = inr (refusal 401 (text "invalid_key"), refl, refl)

validate_api_key-cases :
    (hash : Text → Text) (now : ℕ) (keys : List ApiKey) (authorization : Text)
    → ((validate_api_key hash now keys authorization ≡ none) × HasKey hash now keys authorization)
      ⊎ ((r : Refusal) × (validate_api_key hash now keys authorization ≡ some r) × (r.status ≡ 401))
unfolding validate_api_key
validate_api_key-cases hash now keys authorization =
    let token = trimmed (cut_prefix (text "Bearer ") authorization) authorization in
    tests-cases (authorization == []) (token == authorization) (validate hash now token keys)
      (text "missing_auth") (text "invalid_auth")

module _ {F : Type 0} (out_of_range : F → Bool) (one : F) where
  -- Whatever header, body, form and id come, and whatever the services would answer: either the header carries the valid
  -- secret of a key, or the endpoints for speech, transcriptions and the deletion of a voice all refuse, with
  -- the same code and the status 401.
  pub key_needed :
      (hash : Text → Text) (now : ℕ) (keys : List ApiKey) (authorization : Text)
      (tts : SpeechRequest out_of_range one → List TtsRecv)
      (body : Option (SpeechRequest out_of_range one)) (stt : BatchRequest → List Recv)
      (f : AudioForm) (voice_id : Text) (answer : Option Bool)
      → HasKey hash now keys authorization
        ⊎ ((r : Refusal) × (r.status ≡ 401)
            × (handle_speech out_of_range one hash now keys tts authorization body ≡ refused r)
            × (handle_transcriptions hash now keys stt authorization f ≡ refused r)
            × (handle_delete_voice hash now keys authorization voice_id answer ≡ refused r))
  unfolding handle_speech handle_transcriptions handle_delete_voice
  key_needed hash now keys authorization tts body stt f voice_id answer =
      elim (validate_api_key-cases hash now keys authorization) [
        | inl (e, key) ↦ inl key
        | inr (r, e, s) ↦ inr (r, s, rw e refl, rw e refl, rw e refl)
      ]
