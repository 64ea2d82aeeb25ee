-- ===== src/SentenceBuffer/Coverage.antt =====
-- Every sentence of an answer leaves the buffer once and in order, if the segmenter revises no complete
-- sentence while the answer grows.
use voice_backend.Common.{
  ℕ, ◌≤◌, ◌≡◌, ◌≢◌, sym, ap, subst, ◌∙◌, text, refl, Text, List, [], ◌∷◌, ◌++◌, Option, some, leb,
  take, drop, arith, append_assoc, append-nil, take-append-drop, zero, suc, Bool-cases, inl, inr,
  leb→le,
}
use voice_backend.SentenceBuffer.{
  SentenceBuffer, new_sentence_buffer, segment, complete_count, add, flush, add_all, reset,
  trim_space, join,
}
use voice_backend.SentenceBuffer.Laws.{add_cases, flush_cases, grown, drop-take_nil}

-- The pieces of an answer, one behind the other.
abbrev pub whole : List Text → Text
whole [] = []
whole (d ∷ ds) = d ++ whole ds

take-take_le {ℓ} : {A : Type ℓ} (m n : ℕ) (xs : List A) → m ≤ n → take m (take n xs) ≡ take m xs
take-take_le zero n xs h = refl
take-take_le (suc m) zero xs h = absurd (omega arith)
take-take_le (suc m) (suc n) [] h = refl
take-take_le (suc m) (suc n) (x ∷ xs) h = ap (◌∷◌ x) (take-take_le m n xs (omega arith))

take-append-drop-take {ℓ} :
    {A : Type ℓ} (m n : ℕ) (xs : List A) → m ≤ n → take m xs ++ drop m (take n xs) ≡ take n xs
take-append-drop-take m n xs h =
    ap (λ (l : List _). l ++ drop m (take n xs)) (sym (take-take_le m n xs h))
    ∙ take-append-drop m (take n xs)

module _ (f : Text → Option (List Text)) where
  abbrev pub sentences : Text → List Text
  sentences t = (segment f t).0

  abbrev pub complete : Text → ℕ
  complete t = complete_count f (segment f t)

  -- The segmenter keeps the complete sentences of `t` in `u`, and in what `u` grows to.
  abbrev pub Kept : Text → Text → List Text → Type 0
  Kept t u [] = take (complete t) (sentences u) ≡ take (complete t) (sentences t)
  Kept t u (d ∷ ds) =
      (take (complete t) (sentences u) ≡ take (complete t) (sentences t)) × Kept t (u ++ d) ds

  -- While `t` grows by these pieces, no sentence that was complete at the end of a piece is revised at the
  -- end of a later one.
  abbrev pub IsStable : Text → List Text → Type 0
  IsStable t [] = Unit {0}
  IsStable t (d ∷ ds) = Kept t (t ++ d) ds × IsStable (t ++ d) ds

  Kept-now :
      (t u : Text) (ds : List Text)
      → Kept t u ds
      → take (complete t) (sentences u) ≡ take (complete t) (sentences t)
  Kept-now t u [] k = k
  Kept-now t u (d ∷ ds) k = k.0

  Kept-self : (t : Text) (ds : List Text) → IsStable t ds → Kept t t ds
  Kept-self t [] h = refl
  Kept-self t (d ∷ ds) h = (refl, h.0)

  -- The sentences that were let out are the first `emitted` ones of some earlier text, which are kept.
  abbrev Covered : SentenceBuffer → List Text → List Text → Type 0
  Covered sb outs ds =
      (base : Text) × (sb.emitted ≤ complete base)
      × (outs ≡ take sb.emitted (sentences base))
      × Kept base sb.buffer ds

  -- So they are the first ones of the text that it has grown to.
  covers_longer :
      (n : ℕ) (base u : Text)
      → n ≤ complete base
      → take (complete base) (sentences u) ≡ take (complete base) (sentences base)
      → take n (sentences base) ≡ take n (sentences u)
  covers_longer n base u h kept =
      sym (take-take_le n (complete base) (sentences base) h)
      ∙ ap (take n) (sym kept)
      ∙ take-take_le n (complete base) (sentences u) h

  add-Covered :
      (sb : SentenceBuffer) (outs : List Text) (d : Text) (ds : List Text)
      → IsStable (sb.buffer ++ d) ds
      → Covered sb outs (d ∷ ds)
      → (sb' : SentenceBuffer) × (out : List Text) × (add f d sb ≡ some (sb', out))
        × (sb'.buffer ≡ sb.buffer ++ d)
        × Covered sb' (outs ++ out) ds
  add-Covered sb outs d ds stable (base, few, out_eq, (now, kept)) =
      let u : Text = sb.buffer ++ d in
      elim (Bool-cases (leb (complete u) sb.emitted)) [
        | inl quiet ↦ (
          grown f d sb,
          [],
          add_cases f d sb
              ∙ rw (quiet, drop-take_nil sb.emitted (complete u) (sentences u) (leb→le _ _ quiet))
                  refl,
          refl,
          (base, few, append-nil outs ∙ out_eq, kept),
        )
        | inr new ↦ (
          record sb { buffer = u; emitted = complete u },
          drop sb.emitted (take (complete u) (sentences u)),
          add_cases f d sb ∙ rw new refl,
          refl,
          (
            u,
            omega arith,
            ap (λ (l : List Text). l ++ drop sb.emitted (take (complete u) (sentences u)))
                  (out_eq ∙ covers_longer sb.emitted base u few (Kept-now base u ds kept))
                ∙ take-append-drop-take sb.emitted (complete u) (sentences u) (ground arith),
            Kept-self u ds stable,
          ),
        )
      ]

  add_all-Covered :
      (ds : List Text) (sb : SentenceBuffer) (outs : List Text)
      → IsStable sb.buffer ds
      → Covered sb outs ds
      → (sb' : SentenceBuffer) × (more : List Text) × (add_all f ds sb ≡ some (sb', more))
        × (sb'.buffer ≡ sb.buffer ++ whole ds)
        × Covered sb' (outs ++ more) []
  unfolding add_all
  add_all-Covered [] sb outs stable c = (
    sb,
    [],
    refl,
    sym (append-nil sb.buffer),
    subst (λ (l : List Text). Covered sb l []) (sym (append-nil outs)) c,
  )
  add_all-Covered (d ∷ ds) sb outs stable c =
      let (sb1, out, e, grows, c1) = add-Covered sb outs d ds stable.1 c in
      let (sb2, more, e2, grows2, c2) =
        add_all-Covered ds sb1 (outs ++ out)
          (subst (λ (t : Text). IsStable t ds) (sym grows) stable.1) c1 in
      (
        sb2,
        out ++ more,
        rw (e, e2, add_all) refl,
        grows2 ∙ ap (λ (t : Text). t ++ whole ds) grows ∙ append_assoc sb.buffer d (whole ds),
        subst (λ (l : List Text). Covered sb2 l []) (append_assoc outs out more) c2,
      )

  -- An answer arrives in pieces, not all of them empty, and while it grows by them, the segmenter revises no
  -- sentence that was complete at the end of a piece. Then it leaves a new buffer without a panic: what
  -- the calls of `Add` let out, followed by the sentences that `Flush` joins and trims, are the
  -- sentences of the whole answer, each once and in order, wherever it was cut; and the buffer is as
  -- new.
  pub add_all-flush :
      (ds : List Text)
      → IsStable [] ds
      → whole ds ≢ []
      → (sb : SentenceBuffer) × (outs pending : List Text) × (add_all f ds new_sentence_buffer
          ≡ some (sb, outs))
        × (flush f sb ≡ some (new_sentence_buffer, trim_space (join (text " ") pending)))
        × (outs ++ pending ≡ sentences (whole ds))
  unfolding new_sentence_buffer reset
  add_all-flush ds stable some_text =
      let (sb, outs, e, grows, (base, few, out_eq, kept)) =
        add_all-Covered ds new_sentence_buffer [] stable
          ([], omega arith, refl, Kept-self [] ds stable) in
      (
        sb,
        outs,
        drop sb.emitted (sentences sb.buffer),
        e,
        flush_cases f sb (λ h. some_text (sym grows ∙ h)),
        ap (λ (l : List Text). l ++ drop sb.emitted (sentences sb.buffer))
              (out_eq ∙ covers_longer sb.emitted base sb.buffer few kept)
            ∙ take-append-drop sb.emitted (sentences sb.buffer)
            ∙ ap sentences grows,
      )
