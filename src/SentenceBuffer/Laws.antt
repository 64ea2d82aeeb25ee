-- ===== src/SentenceBuffer/Laws.antt =====
-- One call of `Add`, for any segmenter.
use voice_backend.Common.{
  ℕ, ◌-◌, ◌≤◌, ◌≡◌, ◌≢◌, text, refl, Text, Bool, List, [], ◌∷◌, ◌++◌, Option, some, leb, length,
  take, drop, if◌then◌else◌, arith, ap, length-take, length-drop, zero, suc,
}
use voice_backend.SentenceBuffer.{
  trim_space, join, SentenceBuffer, segment, complete_count, emit, add, flush, take_rest, reset,
}

pub length-slice {ℓ} :
    {A : Type ℓ} (m n : ℕ) (xs : List A)
    → m ≤ n
    → n ≤ length xs
    → length (drop m (take n xs)) ≡ n - m
length-slice m n xs h k = omega (arith, length-drop m (take n xs), length-take n xs)

pub complete_count-le :
    (f : Text → Option (List Text)) (seg : List Text × Bool) → complete_count f seg ≤ length seg.0
unfolding complete_count
complete_count-le f seg = ground arith

pub drop-take_nil {ℓ} : {A : Type ℓ} (m n : ℕ) (xs : List A) → n ≤ m → drop m (take n xs) ≡ []
drop-take_nil zero zero xs h = refl
drop-take_nil zero (suc n) xs h = absurd (omega arith)
drop-take_nil (suc m) zero xs h = refl
drop-take_nil (suc m) (suc n) [] h = refl
drop-take_nil (suc m) (suc n) (x ∷ xs) h = drop-take_nil m n xs (omega arith)

emit_lem :
    (f : Text → Option (List Text)) (sb : SentenceBuffer) (seg : List Text × Bool)
    → emit f sb seg
      ≡ some (
        if leb (complete_count f seg) sb.emitted
            then sb
            else record sb { emitted = complete_count f seg },
        drop sb.emitted (take (complete_count f seg) seg.0),
      )
unfolding emit
emit_lem f sb seg =
    ground (arith, complete_count-le f seg, drop-take_nil sb.emitted (complete_count f seg) seg.0)

module _ (f : Text → Option (List Text)) (d : Text) (sb : SentenceBuffer) where
  -- The buffer after the piece, and what the segmenter says of it.
  abbrev pub grown : SentenceBuffer
  grown = record sb { buffer = sb.buffer ++ d }

  abbrev pub seg : List Text × Bool
  seg = segment f (sb.buffer ++ d)

  abbrev pub count : ℕ
  count = complete_count f seg

  -- `Add` never slices out of range, whatever the segmenter answers: it lets out the complete
  -- sentences behind those that were already let out, if there are such, and counts them.
  pub add_cases :
      add f d sb
      ≡ some (
        if leb count sb.emitted then grown else record grown { emitted = count },
        drop sb.emitted (take count seg.0),
      )
  unfolding add
  add_cases = emit_lem f grown seg

take-length {ℓ} : {A : Type ℓ} (xs : List A) → take (length xs) xs ≡ xs
take-length [] = refl
take-length (x ∷ xs) = ap (◌∷◌ x) (take-length xs)

drop_of_length-le {ℓ} : {A : Type ℓ} (n : ℕ) (xs : List A) → length xs ≤ n → drop n xs ≡ []
drop_of_length-le zero [] h = refl
drop_of_length-le zero (x ∷ xs) h = absurd (omega arith)
drop_of_length-le (suc n) [] h = refl
drop_of_length-le (suc n) (x ∷ xs) h = drop_of_length-le n xs (omega arith)

trim_space-join_nil : (sep : Text) → trim_space (join sep []) ≡ []
unfolding trim_space join
trim_space-join_nil sep = refl

take_rest_lem :
    (f : Text → Option (List Text)) (sb : SentenceBuffer) (ss : List Text)
    → take_rest f sb ss ≡ some (reset f sb, trim_space (join (text " ") (drop sb.emitted ss)))
unfolding take_rest
take_rest_lem f sb ss =
    ground (arith, take-length ss, drop_of_length-le sb.emitted ss, trim_space-join_nil (text " "))

-- `Flush` never slices out of range, and leaves the buffer empty. A buffer that holds text gives the
-- sentences that `Add` has not let out, joined and trimmed.
pub flush_cases :
    (f : Text → Option (List Text)) (sb : SentenceBuffer)
    → sb.buffer ≢ []
    → flush f sb
      ≡ some (reset f sb, trim_space (join (text " ") (drop sb.emitted (segment f sb.buffer).0)))
unfolding flush
flush_cases f sb h = ground (arith, take_rest_lem f sb (segment f sb.buffer).0)
