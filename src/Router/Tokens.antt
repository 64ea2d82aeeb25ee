-- ===== src/Router/Tokens.antt =====
-- What `tokenize` gives.
use voice_backend.Common.{
  ℕ, ◌≤◌, ◌≡◌, refl, sym, ap, ◌∙◌, Text, text, true, ◌||◌, ◌&&◌, List, [], ◌∷◌, ◌++◌, map, leb,
  length, arith, All, append_assoc, append-nil,
}
use voice_backend.SentenceBuffer.{join}
use voice_backend.Router.{to_lower, is_word, words_from, word_end, tokenize}

-- A letter in lower case, or a digit.
abbrev pub IsLower : ℕ → Type 0
IsLower c = (leb b'a' c && leb c b'z' || leb b'0' c && leb c b'9') ≡ true

abbrev pub IsToken : Text → Type 0
IsToken t = (2 ≤ length t) × All IsLower t

All-snoc : (s : Text) (c : ℕ) → All IsLower s → IsLower c → All IsLower (s ++ c ∷ [])
All-snoc [] c h k = (k, tt)
All-snoc (d ∷ s) c h k = (h.0, All-snoc s c h.1 k)

word_end-IsToken :
    (current : Text) (words : List Text)
    → All IsLower current
    → All IsToken words
    → All IsToken (word_end current words)
word_end-IsToken current words h k = ground arith

to_lower-IsLower : (c : ℕ) → is_word (to_lower c) ≡ true → IsLower (to_lower c)
unfolding to_lower
to_lower-IsLower c h = ground arith

words_from-IsToken :
    (current s : Text) → All IsLower current → All IsToken (words_from current (map to_lower s))
unfolding words_from
words_from-IsToken current [] h = word_end-IsToken current [] h tt
words_from-IsToken current (c ∷ s) h = ground (
  arith,
  to_lower-IsLower c,
  All-snoc current (to_lower c) h,
  words_from-IsToken (current ++ to_lower c ∷ []) s,
  word_end-IsToken current (words_from [] (map to_lower s)) h (words_from-IsToken [] s tt),
)

-- Every token has at least two bytes, all of them lower-case letters or digits.
tokenize-IsToken : (s : Text) → All IsToken (tokenize s)
unfolding tokenize
tokenize-IsToken s = words_from-IsToken [] s tt

lower_fixed : (c : ℕ) → IsLower c → (to_lower c ≡ c) × (is_word c ≡ true)
unfolding to_lower
lower_fixed c h = ground arith

words_from-append :
    (t current s : Text)
    → All IsLower t
    → words_from current (map to_lower (t ++ s)) ≡ words_from (current ++ t) (map to_lower s)
unfolding words_from
words_from-append [] current s h = rw (append-nil current) refl
words_from-append (c ∷ t) current s h =
    rw ((lower_fixed c h.0).0, (lower_fixed c h.0).1)
      (words_from-append t (current ++ c ∷ []) s h.1
        ∙ ap (λ (u : Text). words_from u (map to_lower s)) (append_assoc current (c ∷ []) t))

words_from-space :
    (t s : Text)
    → IsToken t
    → words_from [] (map to_lower (t ++ b' ' ∷ s)) ≡ t ∷ words_from [] (map to_lower s)
unfolding words_from to_lower
words_from-space t s h = words_from-append t [] (b' ' ∷ s) h.1 ∙ ground arith

words_from-join :
    (ts : List Text) → All IsToken ts → words_from [] (map to_lower (join (text " ") ts)) ≡ ts
unfolding words_from join
words_from-join [] h = ground arith
words_from-join (t ∷ []) h =
    ap (λ (u : Text). words_from [] (map to_lower u)) (sym (append-nil t))
    ∙ words_from-append t [] [] h.0.1
    ∙ ground arith
words_from-join (t ∷ u ∷ ts) h =
    words_from-space t (join (text " ") (u ∷ ts)) h.0 ∙ ap (◌∷◌ t) (words_from-join (u ∷ ts) h.1)

-- The tokens of a text, written with spaces between them, have the same tokens again.
tokenize-join : (s : Text) → tokenize (join (text " ") (tokenize s)) ≡ tokenize s
tokenize-join s = unfold tokenize in words_from-join (tokenize s) (tokenize-IsToken s)
