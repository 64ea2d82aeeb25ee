-- ===== src/Scopes/Keys.antt =====
-- The scopes of an agent survive the way through the key of its group.
use voice_backend.Common.{
  Text, true, false, List, [], ◌∷◌, ◌++◌, ◌=ℕ◌, ◌≡◌, ◌≢◌, refl, ap, sym, subst, ◌⊎◌, inl, inr, ◌∙◌,
  contains, filter, All, arith, append_assoc, append-nil,
}
use voice_backend.Common.Sort.{sort, insert_sorted}
use voice_backend.Scopes.{
  scope_profile, scope_email, scope_location, scope_vision, relevant, relevant_scopes, key_rest,
  scope_key, split_key, parse_scope_key,
}

-- A text that is not empty and holds no comma.
abbrev IsPlain : Text → Type 0
IsPlain s = (s ≢ []) × All (λ c. (c =ℕ b',') ≡ false) s

split_key-append :
    (s part key : Text)
    → All (λ c. (c =ℕ b',') ≡ false) s
    → split_key part (s ++ key) ≡ split_key (part ++ s) key
unfolding split_key
split_key-append [] part key h = rw (append-nil part) refl
split_key-append (c ∷ s) part key h = rw h.0 (
    split_key-append s (part ++ c ∷ []) key h.1
    ∙ ap (λ (t : Text). split_key t key) (append_assoc part (c ∷ []) s))

split_key-key_rest :
    (scopes : List Text) (part : Text)
    → All IsPlain scopes
    → split_key part (key_rest scopes) ≡ part ∷ scopes
unfolding split_key key_rest
split_key-key_rest [] part h = refl
split_key-key_rest (s ∷ scopes) part h =
    ap (◌∷◌ part) (split_key-append s [] (key_rest scopes) h.0.1 ∙ split_key-key_rest scopes s h.1)

parse-nonempty : (s : Text) → s ≢ [] → parse_scope_key s ≡ split_key [] s
unfolding parse_scope_key
parse-nonempty [] h = absurd (h refl)
parse-nonempty (c ∷ s) h = refl

parse-scope_key_plain :
    (scopes : List Text) → All IsPlain scopes → parse_scope_key (scope_key scopes) ≡ scopes
unfolding scope_key
parse-scope_key_plain [] h = unfold parse_scope_key in refl
parse-scope_key_plain (s ∷ scopes) h =
    parse-nonempty (s ++ key_rest scopes) (nonempty s h.0.0)
    ∙ split_key-append s [] (key_rest scopes) h.0.1
    ∙ split_key-key_rest scopes s h.1
  where
    nonempty : (s : Text) → s ≢ [] → s ++ key_rest scopes ≢ []
    nonempty [] n e = n refl
    nonempty (c ∷ s) n e = cc

relevant-cases :
    (s : Text)
    → contains relevant s ≡ true
    → (s ≡ scope_profile) ⊎ ((s ≡ scope_email) ⊎ ((s ≡ scope_location) ⊎ (s ≡ scope_vision)))
relevant-cases s h = ground arith

relevant-IsPlain : (s : Text) → contains relevant s ≡ true → IsPlain s
relevant-IsPlain s h = elim (relevant-cases s h) [
  | inl e ↦ subst IsPlain (sym e) (λ e. cc, ground arith)
  | inr (inl e) ↦ subst IsPlain (sym e) (λ e. cc, ground arith)
  | inr (inr (inl e)) ↦ subst IsPlain (sym e) (λ e. cc, ground arith)
  | inr (inr (inr e)) ↦ subst IsPlain (sym e) (λ e. cc, ground arith)
]

filter-IsPlain : (scopes : List Text) → All IsPlain (filter (contains relevant) scopes)
filter-IsPlain [] = tt
filter-IsPlain (s ∷ scopes) = ground (arith, filter-IsPlain scopes, relevant-IsPlain s)

insert_sorted-IsPlain :
    (s : Text) (scopes : List Text)
    → IsPlain s
    → All IsPlain scopes
    → All IsPlain (insert_sorted s scopes)
unfolding insert_sorted
insert_sorted-IsPlain s [] p h = (p, tt)
insert_sorted-IsPlain s (t ∷ scopes) p h = ground (arith, insert_sorted-IsPlain s scopes p h.1)

sort-IsPlain : (scopes : List Text) → All IsPlain scopes → All IsPlain (sort scopes)
unfolding sort
sort-IsPlain [] h = tt
sort-IsPlain (s ∷ scopes) h = insert_sorted-IsPlain s (sort scopes) h.0 (sort-IsPlain scopes h.1)

-- Whatever scopes an agent was granted, the key made of its relevant scopes reads back as exactly
-- these scopes, in order.
pub parse-scope_key :
    (granted : List Text)
    → parse_scope_key (scope_key (sort (relevant_scopes granted))) ≡ sort (relevant_scopes granted)
unfolding relevant_scopes
parse-scope_key granted =
    parse-scope_key_plain (sort (filter (contains relevant) granted))
      (sort-IsPlain (filter (contains relevant) granted) (filter-IsPlain granted))
