-- ===== src/Router/Health.antt =====
-- The agent that is asked when the request says nothing: the healthy one that answers fastest.
use voice_backend.Common.{
  ℕ, ◌≤◌, ◌≡◌, ◌≢◌, refl, sym, ap, ◌∙◌, Text, true, false, List, [], ◌∷◌, Option, none, some,
  contains, if◌then◌else◌, arith, All, Option-cases, ◌⊎◌, inl, inr,
}
use native.Mathlib.Decide.{dec_lt}
use voice_backend.Common.Map.{lookup}
use voice_backend.Common.Int.{ℤ, pos, negsuc, less_ℤ}
use voice_backend.Scopes.{AgentInfo}
use voice_backend.Router.{HealthMetrics, ids_of, best_from, select_best_by_health}

abbrev amount : ℤ → ℕ
amount (pos n) = n
amount (negsuc n) = 0

-- The latency of an agent that is known to be healthy.
abbrev pub latency : Option HealthMetrics → Option ℕ
latency none = none
latency (some h) = if h.healthy then some (amount h.latency_ms) else none

-- A latency that was measured is not negative.
abbrev pub IsMeasured : Option HealthMetrics → Type 0
IsMeasured none = Unit {0}
IsMeasured (some h) = less_ℤ h.latency_ms (pos 0) ≡ false

abbrev pub AtLeast : ℕ → Option ℕ → Type 0
AtLeast n none = Unit {0}
AtLeast n (some k) = n ≤ k

module _ (health : List (Text × HealthMetrics)) where
  abbrev pub latency_of : Text → Option ℕ
  latency_of id = latency (lookup id health)

  -- Agents have an id, and measured latencies.
  abbrev pub IsReported : AgentInfo → Type 0
  IsReported a = (a.id ≢ []) × IsMeasured (lookup a.id health)

  -- No agent of the list is faster.
  abbrev pub Fastest : ℕ → List AgentInfo → Type 0
  Fastest n = All (λ a. AtLeast n (latency_of a.id))

  AtLeast-mono : (m n : ℕ) (o : Option ℕ) → m ≤ n → AtLeast n o → AtLeast m o
  AtLeast-mono m n none h k = tt
  AtLeast-mono m n (some l) h k = omega arith

  -- The choice between an agent `b` with latency `n` and those of the list.
  abbrev Chosen : List AgentInfo → Text → ℕ → Text → Type 0
  Chosen agents b n r =
      (m : ℕ) × (m ≤ n)
      × (((r ≡ b) × (m ≡ n)) ⊎ ((contains (ids_of agents) r ≡ true) × (latency_of r ≡ some m)))
      × Fastest m agents

  -- One more agent, which is not chosen.
  Chosen-skip :
      (a : AgentInfo) (agents : List AgentInfo) (b : Text) (n : ℕ) (r : Text)
      → AtLeast n (latency_of a.id)
      → Chosen agents b n r
      → Chosen (a ∷ agents) b n r
  Chosen-skip a agents b n r h (m, le, who, rest) =
      (m, le, ground arith, (AtLeast-mono m n (latency_of a.id) le h, rest))

  taken :
      (a : AgentInfo) (agents : List AgentInfo) (b : Text) (n k m : ℕ) (r : Text)
      → latency_of a.id ≡ some k
      → ((r ≡ a.id) × (m ≡ k)) ⊎ ((contains (ids_of agents) r ≡ true) × (latency_of r ≡ some m))
      → ((r ≡ b) × (m ≡ n)) ⊎ ((contains (ids_of (a ∷ agents)) r ≡ true) × (latency_of r ≡ some m))
  taken a agents b n k m r e (inl (p, q)) =
      inr (ground arith, ap latency_of p ∙ e ∙ ap some (sym q))
  taken a agents b n k m r e (inr (p, q)) = inr (ground arith, q)

  -- One more agent, which takes the place of `b`.
  Chosen-take :
      (a : AgentInfo) (agents : List AgentInfo) (b : Text) (n k : ℕ) (r : Text)
      → latency_of a.id ≡ some k
      → k ≤ n
      → Chosen agents a.id k r
      → Chosen (a ∷ agents) b n r
  Chosen-take a agents b n k r e h (m, le, who, rest) =
      (m, omega arith, taken a agents b n k m r e who, (rw e le, rest))

  -- One round of the loop, by the latency of the agent.
  best_from-skip :
      (a : AgentInfo) (agents : List AgentInfo) (b : Text) (l : ℤ)
      → latency_of a.id ≡ none
      → best_from health (a ∷ agents) b l ≡ best_from health agents b l
  unfolding best_from
  best_from-skip a agents b l e = ground arith

  best_from-faster :
      (a : AgentInfo) (agents : List AgentInfo) (b : Text) (n k : ℕ)
      → latency_of a.id ≡ some k
      → IsMeasured (lookup a.id health)
      → k ≤ n
      → k ≢ n
      → best_from health (a ∷ agents) b (pos n) ≡ best_from health agents a.id (pos k)
  unfolding best_from
  best_from-faster a agents b n k e i h j = ground arith

  best_from-slower :
      (a : AgentInfo) (agents : List AgentInfo) (b : Text) (n k : ℕ)
      → latency_of a.id ≡ some k
      → IsMeasured (lookup a.id health)
      → b ≢ []
      → n ≤ k
      → best_from health (a ∷ agents) b (pos n) ≡ best_from health agents b (pos n)
  unfolding best_from
  best_from-slower a agents b n k e i nb h = ground arith

  best_from-first :
      (a : AgentInfo) (agents : List AgentInfo) (k : ℕ)
      → latency_of a.id ≡ some k
      → IsMeasured (lookup a.id health)
      → best_from health (a ∷ agents) [] (negsuc 0) ≡ best_from health agents a.id (pos k)
  unfolding best_from
  best_from-first a agents k e i = ground arith

  best_from-Chosen :
      (agents : List AgentInfo) (b : Text) (n : ℕ)
      → b ≢ []
      → All IsReported agents
      → Chosen agents b n (best_from health agents b (pos n))
  best_from-Chosen [] b n h r = unfold best_from in (n, omega arith, inl (refl, refl), tt)
  best_from-Chosen (a ∷ agents) b n h r =
      let on = best_from-Chosen agents b n h r.1 in
      let over = best_from-Chosen agents a.id in
      elim (Option-cases (latency_of a.id)) [
        | inl e ↦
            rw (best_from-skip a agents b (pos n) e)
              (Chosen-skip a agents b n (best_from health agents b (pos n)) (rw e tt) on)
        | inr (k, e) ↦ elim (dec_lt k n) [
          | yes p ↦ rw (best_from-faster a agents b n k e r.0.1 (omega arith) (omega arith)) (
              Chosen-take a agents b n k (best_from health agents a.id (pos k)) e (omega arith)
                (over k r.0.0 r.1))
          | no q ↦
              rw (best_from-slower a agents b n k e r.0.1 h (omega arith)) (
                Chosen-skip a agents b n (best_from health agents b (pos n)) (rw e (omega arith))
                  on)
        ]
      ]

  known_nonempty :
      (agents : List AgentInfo) (r : Text)
      → All IsReported agents
      → contains (ids_of agents) r ≡ true
      → r ≢ []
  known_nonempty [] r i h = λ e. cc
  known_nonempty (a ∷ agents) r i h = λ e. ground (arith, i.0.0, known_nonempty agents r i.1)

  -- What is promised of the choice.
  abbrev pub IsBest : List AgentInfo → Text → Type 0
  IsBest agents r =
      ((r ≡ []) × All (λ a. latency_of a.id ≡ none) agents)
      ⊎ ((n : ℕ) × (contains (ids_of agents) r ≡ true)
          × (r ≢ [])
          × (latency_of r ≡ some n)
          × Fastest n agents)

  IsBest-skip :
      (a : AgentInfo) (agents : List AgentInfo) (r : Text)
      → latency_of a.id ≡ none
      → IsBest agents r
      → IsBest (a ∷ agents) r
  IsBest-skip a agents r e (inl (p, q)) = inl (p, (e, q))
  IsBest-skip a agents r e (inr (n, p, q, l, h)) = inr (n, ground arith, q, l, (rw e tt, h))

  IsBest-first :
      (a : AgentInfo) (agents : List AgentInfo) (k : ℕ) (r : Text)
      → latency_of a.id ≡ some k
      → All IsReported (a ∷ agents)
      → Chosen agents a.id k r
      → IsBest (a ∷ agents) r
  IsBest-first a agents k r e i (m, le, inl (p, q), h) =
      inr (
        m,
        ground arith,
        λ z. i.0.0 (sym p ∙ z),
        ap latency_of p ∙ e ∙ ap some (sym q),
        (rw e le, h),
      )
  IsBest-first a agents k r e i (m, le, inr (p, q), h) =
      inr (m, ground arith, known_nonempty agents r i.1 p, q, (rw e le, h))

  best_from-IsBest :
      (agents : List AgentInfo)
      → All IsReported agents
      → IsBest agents (best_from health agents [] (negsuc 0))
  best_from-IsBest [] r = unfold best_from in inl (refl, tt)
  best_from-IsBest (a ∷ agents) r = elim (Option-cases (latency_of a.id)) [
    | inl e ↦ rw (best_from-skip a agents [] (negsuc 0) e) (
        IsBest-skip a agents (best_from health agents [] (negsuc 0)) e
          (best_from-IsBest agents r.1))
    | inr (k, e) ↦ rw (best_from-first a agents k e r.0.1) (
        IsBest-first a agents k (best_from health agents a.id (pos k)) e r
          (best_from-Chosen agents a.id k r.0.0 r.1))
  ]

  -- Where every agent has an id and no latency is reported negative, the choice by health is the
  -- empty text if no agent is healthy, and otherwise one of the agents, which is healthy and no
  -- slower than any healthy one.
  select_best_by_health-IsBest :
      (agents : List AgentInfo)
      → All IsReported agents
      → IsBest agents (select_best_by_health agents health)
  unfolding select_best_by_health
  select_best_by_health-IsBest agents r = best_from-IsBest agents r
