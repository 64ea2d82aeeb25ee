-- ===== src/Frames/Memory.antt =====
-- Sorted sets in memory, which meet the laws of the interface.
use voice_backend.Common.{
  ℕ, zero, suc, ◌≡◌, refl, ap, subst, Text, Bool, true, false, not, ◌&&◌, List, [], ◌∷◌, Option,
  none, some, ◌==◌, ◌=ℕ◌, take, All, if◌then◌else◌, arith, Bool-cases, inl, inr,
}
use voice_backend.Common.Int.{ℤ, pos, negsuc, less_ℤ}
use voice_backend.Frames.{Range, entries, range_error, FrameSets}

-- A member of a set, with its score; the entry that was added last counts.
pub record Entry : Type 0 where
  pub key : Text
  pub member : Text
  pub score : ℤ

unfoldable pub score_of : Text → Text → List Entry → Option ℤ
score_of k m [] = none
score_of k m (e ∷ es) = if (e.key == k) && (e.member == m) then some e.score else score_of k m es

unfoldable pub without : Text → List Entry → List Entry
without k [] = []
without k (e ∷ es) = let rest = without k es in if e.key == k then rest else e ∷ rest

abbrev pub same_ℤ : ℤ → ℤ → Bool
same_ℤ (pos a) (pos b) = a =ℕ b
same_ℤ (pos a) (negsuc b) = false
same_ℤ (negsuc a) (pos b) = false
same_ℤ (negsuc a) (negsuc b) = a =ℕ b

abbrev pub is_score : ℤ → Option ℤ → Bool
is_score s none = false
is_score s (some t) = same_ℤ t s

-- The entries of a set that count, between the bounds; `all` is the whole store.
unfoldable pub between : Text → ℤ → ℤ → List Entry → List Entry → List (ℤ × Text)
unfolding score_of
between k low high all [] = []
between k low high all (e ∷ es) =
    let rest = between k low high all es in
    if (e.key == k)
      && is_score e.score (score_of k e.member all)
      && not (less_ℤ e.score low)
      && not (less_ℤ high e.score)
    then (e.score, e.member) ∷ rest
    else rest

-- A count of 0, or below, asks for all.
abbrev pub at_most : ℤ → List (ℤ × Text) → List (ℤ × Text)
at_most (pos zero) xs = xs
at_most (pos (suc n)) xs = take (suc n) xs
at_most (negsuc n) xs = xs

score_of-without :
    (k : Text) (es : List Entry) (k' m' : Text)
    → score_of k' m' (without k es) ≡ (if k == k' then none else score_of k' m' es)
unfolding score_of without
score_of-without k [] k' m' = ground arith
score_of-without k (e ∷ es) k' m' = ground (arith, score_of-without k es k' m')

is_score-some : (s : ℤ) (found : Option ℤ) → is_score s found ≡ true → found ≡ some s
is_score-some s none h = ground (arith, h)
is_score-some (pos a) (some (pos b)) h = ground (arith, h)
is_score-some (pos a) (some (negsuc b)) h = ground (arith, h)
is_score-some (negsuc a) (some (pos b)) h = ground (arith, h)
is_score-some (negsuc a) (some (negsuc b)) h = ground (arith, h)

abbrev Counts : Text → ℤ → ℤ → List Entry → ℤ × Text → Type 0
Counts k low high all x =
    (score_of k x.1 all ≡ some x.0) × (less_ℤ x.0 low ≡ false) × (less_ℤ high x.0 ≡ false)

between-Counts :
    (k : Text) (low high : ℤ) (all es : List Entry)
    → All (Counts k low high all) (between k low high all es)
unfolding between
between-Counts k low high all [] = tt
between-Counts k low high all (e ∷ es) =
    let kept =
      (e.key == k)
      && is_score e.score (score_of k e.member all)
      && not (less_ℤ e.score low)
      && not (less_ℤ high e.score) in
    elim (Bool-cases kept) [
      | inl h ↦ rw h (
        (
          is_score-some e.score (score_of k e.member all) (ground (arith, h)),
          ground (arith, h),
          ground (arith, h),
        ),
        between-Counts k low high all es,
      )
      | inr h ↦ rw h (between-Counts k low high all es)
    ]

module _ (P : ℤ × Text → Type 0) where
  take-All : (n : ℕ) (xs : List (ℤ × Text)) → All P xs → All P (take n xs)
  take-All zero xs h = tt
  take-All (suc n) [] h = tt
  take-All (suc n) (x ∷ xs) h = (h.0, take-All n xs h.1)

  at_most-All : (n : ℤ) (xs : List (ℤ × Text)) → All P xs → All P (at_most n xs)
  at_most-All (pos zero) xs h = h
  at_most-All (pos (suc n)) xs h = take-All (suc n) xs h
  at_most-All (negsuc n) xs h = h

abbrev entries_of : Range → List (ℤ × Text)
entries_of (entries xs) = xs
entries_of (range_error e) = []

unfoldable pub range : Text → ℤ → ℤ → ℤ → List Entry → Range
unfolding between
range k low high n es = entries (at_most n (between k low high es es))

range-scores :
    (k : Text) (low high n : ℤ) (es : List Entry) (xs : List (ℤ × Text))
    → range k low high n es ≡ entries xs
    → All (Counts k low high es) xs
unfolding range
range-scores k low high n es xs e = subst (All (Counts k low high es)) (ap entries_of e) (
    at_most-All (Counts k low high es) n (between k low high es es)
      (between-Counts k low high es es))

score_of-cons :
    (k : Text) (s : ℤ) (m : Text) (es : List Entry) (k' m' : Text)
    → score_of k' m' (record { key = k; member = m; score = s } ∷ es)
      ≡ (if (k == k') && (m == m') then some s else score_of k' m' es)
unfolding score_of
score_of-cons k s m es k' m' = refl

unfoldable pub memory : FrameSets (List Entry)
unfolding score_of without range score_of-cons score_of-without range-scores at_most-All
    between-Counts take-All is_score-some
memory = record {
  zadd = λ k s m es. record { key = k; member = m; score = s } ∷ es;
  del = without;
  zscore = score_of;
  zrange_by_score = range;
  zscore-zadd = score_of-cons;
  zscore-del = score_of-without;
  zrange_by_score-scores = range-scores;
}
