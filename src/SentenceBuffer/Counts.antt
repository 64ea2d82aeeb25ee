-- ===== src/SentenceBuffer/Counts.antt =====
-- What leaves the buffer whatever the segmenter answers: how many sentences, and that no call panics.
use voice_backend.Common.{ℕ, Text, List, [], ◌∷◌, ◌++◌, Option, leb, if◌then◌else◌}
use voice_backend.SentenceBuffer.{SentenceBuffer}
use voice_backend.SentenceBuffer.Coverage.{complete}

module _ (f : Text → Option (List Text)) where
  -- The most sentences that were complete at the end of any of the pieces by which `t` grows, and `n` at least.
  abbrev pub most_complete : Text → ℕ → List Text → ℕ
  most_complete t n [] = n
  most_complete t n (d ∷ ds) =
      let u = t ++ d in most_complete u (if leb (complete f u) n then n else complete f u) ds

  abbrev larger : ℕ → Text → ℕ
  larger n u = if leb (complete f u) n then n else complete f u
