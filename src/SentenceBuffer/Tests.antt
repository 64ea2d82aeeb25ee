-- ===== src/SentenceBuffer/Tests.antt =====
-- The buffer with a segmenter that looks at points, and the theorem at it.
use voice_backend.Common.{Bool, ◌≡◌, refl, Text, Text-discrete, text, List, [], ◌∷◌, ◌++◌, some}
use voice_backend.SentenceBuffer.{
  SentenceBuffer, new_sentence_buffer, complete_count, add_all, flush, trim_space, join,
  ends_with_terminator, segment, reset,
}
use voice_backend.SentenceBuffer.Points.{points}
use voice_backend.SentenceBuffer.Coverage.{add_all-flush, sentences, IsStable}

abbrev pieces : List Text
pieces = text "Hel" ∷ text "lo. How" ∷ text " are you?" ∷ []

pieces_run :
    add_all points pieces new_sentence_buffer
    ≡ some (
      record { buffer = text "Hello. How are you?"; emitted = 2 },
      text "Hello." ∷ text "How are you?" ∷ [],
    )
unfolding add_all new_sentence_buffer complete_count Text-discrete
pieces_run = refl

pieces-IsStable : IsStable points [] pieces
unfolding segment complete_count ends_with_terminator Text-discrete
pieces-IsStable = ((refl, (refl, refl)), ((refl, refl), (refl, tt)))

add_all-flush_example :
    (sb : SentenceBuffer) × (outs pending : List Text) × (add_all points pieces new_sentence_buffer
      ≡ some (sb, outs))
    × (flush points sb ≡ some (new_sentence_buffer, trim_space (join (text " ") pending)))
    × (outs ++ pending ≡ sentences points (text "Hello. How are you?"))
add_all-flush_example = add_all-flush points pieces pieces-IsStable (λ e. cc)

-- A sentence that looks complete and goes on: its end is never let out.
abbrev revised : List Text
revised = text "It is 3." ∷ text "5 km." ∷ []

revised_run :
    (add_all points revised new_sentence_buffer
      ≡ some (record { buffer = text "It is 3.5 km."; emitted = 1 }, text "It is 3." ∷ []))
    × (flush points (record { buffer = text "It is 3.5 km."; emitted = 1 })
        ≡ some (new_sentence_buffer, []))
unfolding add_all flush new_sentence_buffer complete_count Text-discrete reset
revised_run = (refl, refl)

abbrev spaced : Text
spaced = text "  Hello. \n"

trim_space_run : trim_space spaced ≡ text "Hello."
unfolding trim_space
trim_space_run = refl

ends_with_terminator_run : ends_with_terminator spaced ≡ Bool.true
unfolding ends_with_terminator
ends_with_terminator_run = refl
