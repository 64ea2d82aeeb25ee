-- ===== src/SentenceBuffer/Points.antt =====
-- A segmenter that ends a sentence behind a point, an exclamation or a question mark, where a blank or
-- nothing follows, as an instance of the parameter.
use voice_backend.Common.{
  ℕ, Bool, ◌&&◌, ◌||◌, Text, List, [], ◌∷◌, ◌++◌, Option, some, ◌=ℕ◌, ◌==◌, if◌then◌else◌,
}
use voice_backend.SentenceBuffer.{is_blank}

abbrev ends_here : ℕ → Text → Bool
ends_here c [] = c =ℕ b'.' || c =ℕ b'!' || c =ℕ b'?'
ends_here c (d ∷ rest) = (c =ℕ b'.' || c =ℕ b'!' || c =ℕ b'?') && is_blank d

-- `part` is the sentence that has begun.
abbrev pub split_points : Text → Text → List Text
split_points [] [] = []
split_points (b ∷ part) [] = (b ∷ part) ∷ []
split_points part (c ∷ rest) =
    let ended = (part ++ c ∷ []) ∷ split_points [] rest in
    let skipped = split_points part rest in
    let on = split_points (part ++ c ∷ []) rest in
    if ends_here c rest then ended else if (part == []) && is_blank c then skipped else on

abbrev pub points : Text → Option (List Text)
points t = some (split_points [] t)
