-- ===== src/Router.antt =====
-- internal/router/router.go and internal/router/types.go: which agents an utterance goes to. A
-- request is ASCII: `strings.ToLower`, `unicode.IsLetter` and `unicode.IsDigit` are modelled there.
-- `range` over a map visits the association list in its order, and `sort.Slice` is an insertion sort
-- by the same comparison. The fields `Load` and `UpdatedAt` of the metrics are read nowhere.
pub mod Tokens
pub mod Postings
pub mod Scores
pub mod Ranking
pub mod Health
pub mod Targets
mod Tests
use voice_backend.Common.{
  ℕ, zero, suc, ◌+◌, ◌*◌, Text, Bool, true, false, not, ◌||◌, ◌&&◌, List, [], ◌∷◌, ◌++◌, Option,
  none, some, map, ◌==◌, ◌=ℕ◌, ltb, leb, length, contains, if◌then◌else◌,
}
use voice_backend.Common.Map.{lookup, insert, append_at, or_nil}
use voice_backend.Common.Int.{ℤ, pos, negsuc, less_ℤ}
use voice_backend.Scopes.{AgentInfo}

pub record HealthMetrics : Type 0 where
  pub latency_ms : ℤ
  pub healthy : Bool

pub record TokenWeight : Type 0 where
  pub agent_id : Text
  pub weight : ℕ

pub record SmartRouter : Type 0 where
  pub health : List (Text × HealthMetrics)
  pub index : List (Text × List TokenWeight)
  pub agent_ids : List Text

unfoldable pub new_smart_router : SmartRouter
new_smart_router = record { health = []; index = []; agent_ids = [] }

unfoldable pub set_health : List (Text × HealthMetrics) → SmartRouter → SmartRouter
set_health h r = record r { health = h }

unfoldable pub to_lower : ℕ → ℕ
to_lower c = if leb b'A' c && leb c b'Z' then c + 32 else c

abbrev pub is_word : ℕ → Bool
is_word c = leb b'a' c && leb c b'z' || leb b'A' c && leb c b'Z' || leb b'0' c && leb c b'9'

abbrev pub is_nil {ℓ} : {A : Type ℓ} → List A → Bool
is_nil [] = true
is_nil (x ∷ xs) = false

-- What becomes of `current` at the end of a word.
abbrev word_end : Text → List Text → List Text
word_end current words = if leb 2 (length current) then current ∷ words else words

-- The loop of `tokenize`; `current` holds the word that is being read.
unfoldable pub words_from : Text → Text → List Text
words_from current [] = word_end current []
words_from current (c ∷ s) =
    let longer = words_from (current ++ c ∷ []) s in
    let next = word_end current (words_from [] s) in if is_word c then longer else next

unfoldable pub tokenize : Text → List Text
unfolding words_from to_lower
tokenize s = words_from [] (map to_lower s)

-- The entries that a list of tokens makes in the index.
unfoldable pub add_tokens :
    Text → ℕ → List Text → List (Text × List TokenWeight) → List (Text × List TokenWeight)
unfolding append_at
add_tokens id w [] m = m
add_tokens id w (t ∷ ts) m =
    add_tokens id w ts (append_at t (record { agent_id = id; weight = w }) m)

unfoldable pub add_texts :
    Text → ℕ → List Text → List (Text × List TokenWeight) → List (Text × List TokenWeight)
unfolding add_tokens tokenize
add_texts id w [] m = m
add_texts id w (s ∷ ss) m = add_texts id w ss (add_tokens id w (tokenize s) m)

unfoldable pub add_agent :
    AgentInfo → List (Text × List TokenWeight) → List (Text × List TokenWeight)
unfolding add_texts
add_agent a m =
    let with_keywords = add_texts a.id 3 a.keywords m in
    let with_capabilities = add_texts a.id 2 a.capabilities with_keywords in
    let with_description = add_texts a.id 1 (a.description ∷ []) with_capabilities in
    add_texts a.id 1 a.examples with_description

unfoldable pub index_from :
    List AgentInfo → List (Text × List TokenWeight) → List (Text × List TokenWeight)
unfolding add_agent
index_from [] m = m
index_from (a ∷ agents) m = index_from agents (add_agent a m)

abbrev pub ids_of : List AgentInfo → List Text
ids_of [] = []
ids_of (a ∷ agents) = a.id ∷ ids_of agents

unfoldable pub index_agents : List AgentInfo → SmartRouter → SmartRouter
unfolding index_from
index_agents agents r = record r { index = index_from agents []; agent_ids = ids_of agents }

-- A missing key of a `map[string]int` reads as 0.
abbrev pub or_zero : Option ℕ → ℕ
or_zero none = 0
or_zero (some n) = n

unfoldable pub add_weights : List Text → List TokenWeight → List (Text × ℕ) → List (Text × ℕ)
add_weights valid [] scores = scores
add_weights valid (tw ∷ tws) scores = add_weights valid tws (
    if contains valid tw.agent_id
    then insert tw.agent_id (or_zero (lookup tw.agent_id scores) + tw.weight) scores
    else scores)

unfoldable pub score_tokens :
    List (Text × List TokenWeight) → List Text → List Text → List (Text × ℕ) → List (Text × ℕ)
unfolding add_weights
score_tokens index valid [] scores = scores
score_tokens index valid (t ∷ ts) scores =
    score_tokens index valid ts (add_weights valid (or_nil (lookup t index)) scores)

pub record AgentMatch : Type 0 where
  pub id : Text
  pub score : ℕ

unfoldable pub positive_matches : List (Text × ℕ) → List AgentMatch
positive_matches [] = []
positive_matches (e ∷ scores) =
    let rest = positive_matches scores in
    if ltb 0 e.1 then record { id = e.0; score = e.1 } ∷ rest else rest

unfoldable pub score_from_index : SmartRouter → List Text → List AgentInfo → List AgentMatch
unfolding positive_matches score_tokens
score_from_index r tokens agents = positive_matches (score_tokens r.index (ids_of agents) tokens [])

-- `compareHealthLocked` on the two entries that it looks up.
abbrev pub healthier : Option HealthMetrics → Option HealthMetrics → Bool
healthier none b = false
healthier (some a) none = true
healthier (some a) (some b) =
    if a.healthy
    then if b.healthy then less_ℤ a.latency_ms b.latency_ms else true
    else if b.healthy
    then false
    else less_ℤ a.latency_ms b.latency_ms

-- The comparison that is handed to `sort.Slice`.
unfoldable pub ranks_before : List (Text × HealthMetrics) → AgentMatch → AgentMatch → Bool
ranks_before health a b =
    if a.score =ℕ b.score
    then healthier (lookup a.id health) (lookup b.id health)
    else ltb b.score a.score

unfoldable pub insert_match :
    List (Text × HealthMetrics) → AgentMatch → List AgentMatch → List AgentMatch
unfolding ranks_before
insert_match health a [] = a ∷ []
insert_match health a (b ∷ ms) =
    let rest = insert_match health a ms in if ranks_before health b a then b ∷ rest else a ∷ b ∷ ms

unfoldable pub sort_matches : List (Text × HealthMetrics) → List AgentMatch → List AgentMatch
unfolding insert_match
sort_matches health [] = []
sort_matches health (a ∷ ms) = insert_match health a (sort_matches health ms)

-- `bestLatency == -1`.
abbrev pub is_minus_one : ℤ → Bool
is_minus_one (pos n) = false
is_minus_one (negsuc n) = n =ℕ 0

-- The loop of `selectBestByHealth`, with the values of `best` and `bestLatency`.
unfoldable pub best_from : List (Text × HealthMetrics) → List AgentInfo → Text → ℤ → Text
best_from health [] best best_latency = best
best_from health (a ∷ agents) best best_latency =
    let skip = best_from health agents best best_latency in
    elim (lookup a.id health) [
      | none ↦ skip
      | some h ↦
          let take = best_from health agents a.id h.latency_ms in
          if not h.healthy
          then skip
          else if best == []
              || not (less_ℤ h.latency_ms (pos 0))
                && (is_minus_one best_latency || less_ℤ h.latency_ms best_latency)
          then take
          else skip
    ]

unfoldable pub select_best_by_health : List AgentInfo → List (Text × HealthMetrics) → Text
unfolding best_from
select_best_by_health agents health = best_from health agents [] (negsuc 0)

unfoldable pub select_by_health : SmartRouter → List AgentInfo → List Text
unfolding select_best_by_health
select_by_health r agents =
    let best = select_best_by_health agents r.health in if best == [] then [] else best ∷ []

abbrev pub match_ids : List AgentMatch → List Text
match_ids [] = []
match_ids (m ∷ ms) = m.id ∷ match_ids ms

-- `Route` behind its look at the index.
route_indexed : SmartRouter → Text → List AgentInfo → List Text
unfolding tokenize score_from_index sort_matches select_by_health
route_indexed r request agents =
    let tokens = tokenize request in
    let matches = score_from_index r tokens agents in
    if request == []
    then select_by_health r agents
    else if is_nil tokens
    then select_by_health r agents
    else if is_nil matches
    then select_by_health r agents
    else match_ids (sort_matches r.health matches)

-- `Route`, with the router that it leaves behind: an empty index is built on the way.
unfoldable pub route : Text → List AgentInfo → SmartRouter → SmartRouter × List Text
unfolding route_indexed index_agents
route request [] r = (r, [])
route request (a ∷ []) r = (r, a.id ∷ [])
route request (a ∷ b ∷ agents) r =
    let given = a ∷ b ∷ agents in
    let r' = if is_nil r.index then index_agents given r else r in
    (r', route_indexed r' request given)
