-- ===== src/Catalog/Rows.antt =====
-- How the statements change the rows of the catalogue, and what they count.
use voice_backend.Common.{
  ℕ, ◌+◌, ◌≤◌, ◌≡◌, inl, inr, refl, subst, Text, Bool, true, false, not, List, [], ◌∷◌, ◌==◌,
  filter, arith, All, if◌then◌else◌, Bool-cases,
}
use voice_backend.Catalog.{
  Agent, AgentInstall, found, first, count, of_user, of_agent, has_id, count_more, count_less, save,
  set_scopes,
}
use voice_backend.Catalog.Installs.{set_total}

-- A property of both branches.
pub pick {ℓ κ} :
    {A : Type ℓ} (P : A → Type κ) (b : Bool) (x y : A)
    → (b ≡ true → P x)
    → (b ≡ false → P y)
    → P (if b then x else y)
pick P true x y f g = f refl
pick P false x y f g = g refl

-- The counter of an agent, by an independent list of installs.
abbrev pub Agrees : List AgentInstall → Agent → Type 0
Agrees installs a = a.active_installs ≡ count (of_agent a.id) installs

pub count_more-Agrees :
    (i : AgentInstall) (installs : List AgentInstall) (agents : List Agent)
    → All (Agrees installs) agents
    → All (Agrees (i ∷ installs)) (count_more i.agent_id agents)
unfolding count_more
count_more-Agrees i installs [] h = tt
count_more-Agrees i installs (a ∷ agents) h = (
  pick (Agrees (i ∷ installs)) (has_id i.agent_id a) _ a (λ e. ground (arith, e, h.0))
      (λ e. ground (arith, e, h.0)),
  count_more-Agrees i installs agents h.1,
)

pub count-removed :
    (u a x : Text) (installs : List AgentInstall)
    → count (of_agent x) (filter (λ i. not (of_user u a i)) installs)
        + (if x == a then count (of_user u a) installs else 0)
      ≡ count (of_agent x) installs
count-removed u a x [] = ground arith
count-removed u a x (i ∷ installs) = ground (arith, count-removed u a x installs)

pub count_less-Agrees :
    (u a : Text) (installs : List AgentInstall) (agents : List Agent)
    → count (of_user u a) installs ≡ 1
    → All (Agrees installs) agents
    → All (Agrees (filter (λ i. not (of_user u a i)) installs)) (count_less a agents)
unfolding count_less
count_less-Agrees u a installs [] one h = tt
count_less-Agrees u a installs (b ∷ agents) one h = (
  pick (Agrees (filter (λ i. not (of_user u a i)) installs)) (has_id a b) _ b
      (λ e. ground (arith, e, h.0, one, count-removed u a b.id installs))
      (λ e. ground (arith, e, h.0, count-removed u a b.id installs)),
  count_less-Agrees u a installs agents one h.1,
)

pub count-filter-le {ℓ} :
    {A : Type ℓ} (p q : A → Bool) (xs : List A) → count p (filter q xs) ≤ count p xs
count-filter-le p q [] = omega arith
count-filter-le p q (x ∷ xs) = ground (arith, count-filter-le p q xs)

-- What only the id and the counter of an agent decide survives a save, a filter and a change of the other columns.
pub save-All :
    (P : Agent → Type 0) (new : Agent) (agents : List Agent)
    → P new
    → All P agents
    → All P (save new agents)
unfolding save
save-All P new [] p h = tt
save-All P new (a ∷ agents) p h =
    (pick P (has_id new.id a) new a (λ e. p) (λ e. h.0), save-All P new agents p h.1)

pub filter-All {ℓ κ} :
    {A : Type ℓ} (P : A → Type κ) (q : A → Bool) (xs : List A) → All P xs → All P (filter q xs)
filter-All P q [] h = tt
filter-All P q (x ∷ xs) h =
    pick (All P) (q x) (x ∷ filter q xs) (filter q xs) (λ e. (h.0, filter-All P q xs h.1))
      (λ e. filter-All P q xs h.1)

pub set_total-Agrees :
    (id : Text) (n : ℕ) (installs : List AgentInstall) (agents : List Agent)
    → All (Agrees installs) agents
    → All (Agrees installs) (set_total id n agents)
unfolding set_total
set_total-Agrees id n installs [] h = tt
set_total-Agrees id n installs (a ∷ agents) h = (
  pick (Agrees installs) (has_id id a) _ a (λ e. h.0) (λ e. h.0),
  set_total-Agrees id n installs agents h.1,
)

pub first-All {ℓ κ} :
    {A : Type ℓ} (P : A → Type κ) (q : A → Bool) (xs : List A) (a : A)
    → first q xs ≡ found a
    → All P xs
    → P a
first-All P q [] a e h = absurd (ground (arith, e))
first-All P q (x ∷ xs) a e h = elim (Bool-cases (q x)) [
  | inl y ↦ subst P (ground (arith, e, y)) h.0
  | inr n ↦ first-All P q xs a (ground (arith, e, n)) h.1
]

pub set_scopes-count :
    (user agent : Text) (scopes : List Text) (u a : Text) (installs : List AgentInstall)
    → (count (of_user u a) (set_scopes user agent scopes installs) ≡ count (of_user u a) installs)
      × (count (of_agent a) (set_scopes user agent scopes installs) ≡ count (of_agent a) installs)
unfolding set_scopes
set_scopes-count user agent scopes u a [] = (refl, refl)
set_scopes-count user agent scopes u a (i ∷ installs) =
    let (e, k) = set_scopes-count user agent scopes u a installs in
    (ground (arith, e), ground (arith, k))
