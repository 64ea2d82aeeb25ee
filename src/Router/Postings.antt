-- ===== src/Router/Postings.antt =====
-- The index: what a token is worth for an agent by its own texts, and the weights that the index holds for it.
use voice_backend.Common.{
  ℕ, ◌+◌, ◌*◌, ◌≡◌, refl, ◌∙◌, Text, List, [], ◌∷◌, ◌++◌, ◌==◌, if◌then◌else◌, arith, Bool-cases,
  inl, inr,
}
use voice_backend.Common.Map.{lookup, append_at, or_nil, lookup-append_at}
use voice_backend.Scopes.{AgentInfo}
use voice_backend.Router.{TokenWeight, tokenize, add_tokens, add_texts, add_agent, index_from}

-- How often a token occurs.
abbrev pub count : Text → List Text → ℕ
count t [] = 0
count t (u ∷ us) = let rest = count t us in if u == t then rest + 1 else rest

abbrev pub occurrences : Text → List Text → ℕ
occurrences t [] = 0
occurrences t (s ∷ ss) = count t (tokenize s) + occurrences t ss

-- What one token of a request is worth for an agent: 3 for a keyword, 2 for a capability, 1 in the
-- description and in the examples.
abbrev pub affinity : AgentInfo → Text → ℕ
affinity a t =
    3 * occurrences t a.keywords
    + 2 * occurrences t a.capabilities
    + occurrences t (a.description ∷ [])
    + occurrences t a.examples

-- Over the agents with an id.
abbrev pub affinity_of : Text → List AgentInfo → Text → ℕ
affinity_of id [] t = 0
affinity_of id (a ∷ agents) t =
    let rest = affinity_of id agents t in if a.id == id then affinity a t + rest else rest

-- Over the tokens of a request.
abbrev pub relevance : Text → List AgentInfo → List Text → ℕ
relevance id agents [] = 0
relevance id agents (t ∷ ts) = affinity_of id agents t + relevance id agents ts

abbrev pub weight_sum : Text → List TokenWeight → ℕ
weight_sum id [] = 0
weight_sum id (tw ∷ tws) =
    let rest = weight_sum id tws in if tw.agent_id == id then tw.weight + rest else rest

weight_sum-append :
    (id : Text) (xs : List TokenWeight) (tw : TokenWeight)
    → weight_sum id (xs ++ tw ∷ [])
      ≡ weight_sum id xs + (if tw.agent_id == id then tw.weight else 0)
weight_sum-append id [] tw = ground arith
weight_sum-append id (x ∷ xs) tw = ground (arith, weight_sum-append id xs tw)

-- The weight of an id under a token of the index.
abbrev pub entry : Text → Text → List (Text × List TokenWeight) → ℕ
entry id t m = weight_sum id (or_nil (lookup t m))

entry-append_at :
    (id t u : Text) (tw : TokenWeight) (m : List (Text × List TokenWeight))
    → entry id t (append_at u tw m) ≡ (
        if u == t
        then entry id t m + (if tw.agent_id == id then tw.weight else 0)
        else entry id t m)
entry-append_at id t u tw m = elim (Bool-cases (u == t)) [
  | inl hit ↦ rw (lookup-append_at u t tw m, hit) (weight_sum-append id (or_nil (lookup t m)) tw)
  | inr miss ↦ rw (lookup-append_at u t tw m, miss) refl
]

entry-add_tokens :
    (id t a : Text) (w : ℕ) (ts : List Text) (m : List (Text × List TokenWeight))
    → entry id t (add_tokens a w ts m) ≡ entry id t m + (if a == id then w * count t ts else 0)
unfolding add_tokens
entry-add_tokens id t a w [] m = ground arith
entry-add_tokens id t a w (u ∷ ts) m =
    let tw : TokenWeight = record { agent_id = a; weight = w } in
    let ih = entry-add_tokens id t a w ts (append_at u tw m) in
    elim (Bool-cases (u == t)) [
      | inl hit ↦ rw hit (ih ∙ rw (entry-append_at id t u tw m, hit) (ground arith))
      | inr miss ↦ rw miss (ih ∙ rw (entry-append_at id t u tw m, miss) refl)
    ]

entry-add_texts :
    (id t a : Text) (w : ℕ) (ss : List Text) (m : List (Text × List TokenWeight))
    → entry id t (add_texts a w ss m) ≡ entry id t m + (if a == id then w * occurrences t ss else 0)
unfolding add_texts
entry-add_texts id t a w [] m = ground arith
entry-add_texts id t a w (s ∷ ss) m = ground (
  arith,
  entry-add_texts id t a w ss (add_tokens a w (tokenize s) m),
  entry-add_tokens id t a w (tokenize s) m,
)

entry-add_agent :
    (id t : Text) (a : AgentInfo) (m : List (Text × List TokenWeight))
    → entry id t (add_agent a m) ≡ entry id t m + (if a.id == id then affinity a t else 0)
unfolding add_agent
entry-add_agent id t a m =
    let m1 = add_texts a.id 3 a.keywords m in
    let m2 = add_texts a.id 2 a.capabilities m1 in
    let m3 = add_texts a.id 1 (a.description ∷ []) m2 in
    ground (
      arith,
      entry-add_texts id t a.id 3 a.keywords m,
      entry-add_texts id t a.id 2 a.capabilities m1,
      entry-add_texts id t a.id 1 (a.description ∷ []) m2,
      entry-add_texts id t a.id 1 a.examples m3,
    )

pub entry-index_from :
    (id t : Text) (agents : List AgentInfo) (m : List (Text × List TokenWeight))
    → entry id t (index_from agents m) ≡ entry id t m + affinity_of id agents t
unfolding index_from
entry-index_from id t [] m = omega arith
entry-index_from id t (a ∷ agents) m =
    ground (arith, entry-index_from id t agents (add_agent a m), entry-add_agent id t a m)
