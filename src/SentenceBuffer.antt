-- ===== src/SentenceBuffer.antt =====
-- internal/voicesession/sentence_buffer.go: the text of an answer arrives in pieces, and leaves as
-- sentences. The segmenter is the package prose, so its answer on a text is a parameter: the
-- sentences, or `none` for its error. `strings.TrimSpace` is modelled on ASCII white space.
pub mod Laws
pub mod Coverage
pub mod Counts
pub mod Points
mod Tests
use voice_backend.Common.{
  ℕ, ◌-◌, ◌≤◌, Text, Bool, true, false, not, ◌||◌, ◌&&◌, List, [], ◌∷◌, ◌++◌, Option, none, some,
  ◌==◌, ◌=ℕ◌, leb, length, take, drop, if◌then◌else◌, text,
}

pub record SentenceBuffer : Type 0 where
  pub buffer : Text
  pub emitted : ℕ

unfoldable pub new_sentence_buffer : SentenceBuffer
new_sentence_buffer = record { buffer = []; emitted = 0 }

abbrev is_nil {ℓ} : {A : Type ℓ} → List A → Bool
is_nil [] = true
is_nil (x ∷ xs) = false

-- Drops the longest suffix of bytes that pass the test.
unfoldable pub trim_right : (ℕ → Bool) → Text → Text
trim_right p [] = []
trim_right p (c ∷ s) = let rest = trim_right p s in if is_nil rest && p c then [] else c ∷ rest

unfoldable pub trim_left : (ℕ → Bool) → Text → Text
trim_left p [] = []
trim_left p (c ∷ s) = let rest = trim_left p s in if p c then rest else c ∷ s

-- The cut set of `TrimRight`, and the white space of `TrimSpace`.
abbrev pub is_blank : ℕ → Bool
is_blank c = c =ℕ 32 || c =ℕ 9 || c =ℕ 10 || c =ℕ 13

abbrev pub is_space : ℕ → Bool
is_space c = is_blank c || c =ℕ 11 || c =ℕ 12

unfoldable pub trim_space : Text → Text
unfolding trim_right trim_left
trim_space s = trim_right is_space (trim_left is_space s)

-- `s[len(s)-1]`, on a text that is not empty.
abbrev last_byte : Text → Option ℕ
last_byte [] = none
last_byte (c ∷ []) = some c
last_byte (c ∷ d ∷ s) = last_byte (d ∷ s)

unfoldable pub ends_with_terminator : Text → Bool
unfolding trim_right
ends_with_terminator s = elim (last_byte (trim_right is_blank s)) [
  | none ↦ false
  | some c ↦ c =ℕ b'.' || c =ℕ b'!' || c =ℕ b'?'
]

-- `strings.Join`.
unfoldable pub join : Text → List Text → Text
join sep [] = []
join sep (s ∷ []) = s
join sep (s ∷ t ∷ rest) = s ++ (sep ++ join sep (t ∷ rest))

abbrev last_text : List Text → Text
last_text [] = []
last_text (s ∷ []) = s
last_text (s ∷ t ∷ rest) = last_text (t ∷ rest)

-- `xs[from:to]`, which panics unless `from <= to <= len(xs)`.
unfoldable pub slice {ℓ} : {A : Type ℓ} → ℕ → ℕ → List A → Option (List A)
slice from to xs = if leb from to && leb to (length xs) then some (drop from (take to xs)) else none

module _ (sentences_of : Text → Option (List Text)) where
  -- The sentences, and whether the last one may go on.
  unfoldable pub segment : Text → List Text × Bool
  unfolding ends_with_terminator
  segment t = elim (sentences_of t) [
    | none ↦ ([], false)
    | some [] ↦ ([], true)
    | some (s ∷ rest) ↦ (s ∷ rest, not (ends_with_terminator (last_text (s ∷ rest))))
  ]

  -- `completeCount`. It is read only where there is a sentence, so the subtraction is exact.
  unfoldable pub complete_count : List Text × Bool → ℕ
  complete_count (sentences, has_incomplete) =
      if has_incomplete then length sentences - 1 else length sentences

  -- The body of `Add` once the text is segmented; the outer `none` is a panic.
  pub emit : SentenceBuffer → List Text × Bool → Option (SentenceBuffer × List Text)
  unfolding slice
  emit sb seg =
      if leb (length seg.0) sb.emitted
      then some (sb, [])
      else if leb (complete_count seg) sb.emitted
      then some (sb, [])
      else elim (slice sb.emitted (complete_count seg) seg.0) [
        | none ↦ none
        | some new_complete ↦ some (record sb { emitted = complete_count seg }, new_complete)
      ]

  unfoldable pub add : Text → SentenceBuffer → Option (SentenceBuffer × List Text)
  unfolding emit segment
  add delta sb =
      let sb' = record sb { buffer = sb.buffer ++ delta } in emit sb' (segment sb'.buffer)

  unfoldable pub reset : SentenceBuffer → SentenceBuffer
  reset sb = record sb { buffer = []; emitted = 0 }

  -- The body of `Flush` once the text is segmented.
  take_rest : SentenceBuffer → List Text → Option (SentenceBuffer × Text)
  unfolding slice
  take_rest sb sentences =
      if leb (length sentences) sb.emitted
      then some (reset sb, [])
      else elim (slice sb.emitted (length sentences) sentences) [
        | none ↦ none
        | some remaining ↦ some (reset sb, trim_space (join (text " ") remaining))
      ]

  unfoldable pub flush : SentenceBuffer → Option (SentenceBuffer × Text)
  unfolding take_rest segment
  flush sb = if is_nil sb.buffer then some (sb, []) else take_rest sb (segment sb.buffer).0

  -- The pieces of one answer in turn, and all the sentences that they yield.
  unfoldable pub add_all : List Text → SentenceBuffer → Option (SentenceBuffer × List Text)
  unfolding add
  add_all [] sb = some (sb, [])
  add_all (d ∷ ds) sb = elim (add d sb) [
    | none ↦ none
    | some (sb', out) ↦ elim (add_all ds sb') [
      | none ↦ none
      | some (sb'', outs) ↦ some (sb'', out ++ outs)
    ]
  ]
