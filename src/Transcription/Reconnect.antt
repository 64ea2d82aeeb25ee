-- ===== src/Transcription/Reconnect.antt =====
-- How long a reconnection lasts.
use native.Mathlib.Numerals.{towards_suc}
use voice_backend.Common.{
  ℕ, zero, suc, ◌+◌, ◌*◌, ◌^◌, ◌≤◌, min, ◌≡◌, refl, Bool, true, false, not, ◌&&◌, List, [], ◌∷◌,
  none, some, length, if◌then◌else◌, arith, Bool-cases, inl, inr,
}
use voice_backend.Transcription.{
  BackoffConfig, min_duration, Round, Outcome, reconnected, context_ended, gave_up, Report,
  reconnect_rounds, reconnect_loop, Client, new_client, reconnect, loop_ends, wait_reconnect, Call,
  reconnects, waits, ends, serve, serve_all,
}

-- The delay after attempt `i`: the first one as it is configured, then doubled each time, up to the bound.
abbrev pub delay : BackoffConfig → ℕ → ℕ
delay cfg zero = cfg.initial
delay cfg (suc i) = min (cfg.initial * 2 ^ suc i) cfg.max_delay

abbrev pub delays_from : BackoffConfig → ℕ → ℕ → List ℕ
delays_from cfg i zero = []
delays_from cfg i (suc n) = delay cfg i ∷ delays_from cfg (i + 1) n

pow-suc : (i : ℕ) → 2 ^ (i + 1) ≡ 2 ^ i * 2
pow-suc i = simp towards_suc (omega arith)

delay-suc :
    (cfg : BackoffConfig) (i : ℕ) → min_duration (delay cfg i * 2) cfg.max_delay ≡ delay cfg (i + 1)
unfolding min_duration
delay-suc cfg zero = ground arith
delay-suc cfg (suc i) =
    let more : cfg.initial * 2 ^ (suc i + 1) ≡ cfg.initial * 2 ^ suc i * 2 =
      rw (pow-suc (suc i)) (omega arith) in
    ground (arith, more)

-- Whether all rounds of `n`, from round `i` on, fail to connect while the context goes on.
abbrev pub all_fail : (ℕ → Round) → ℕ → ℕ → Bool
all_fail world zero i = true
all_fail world (suc n) i =
    not (world i).ended_before
    && not (world i).connects
    && not (world i).ended_waiting
    && all_fail world n (i + 1)

abbrev pub is_gave_up : Outcome → Bool
is_gave_up gave_up = true
is_gave_up reconnected = false
is_gave_up context_ended = false

abbrev Bounded : BackoffConfig → (ℕ → Round) → ℕ → ℕ → Report → Type 0
Bounded cfg world n i r =
    (r.attempts ≤ n)
    × (length r.delays ≤ r.attempts)
    × (r.delays ≡ delays_from cfg i (length r.delays))
    × (is_gave_up r.outcome ≡ all_fail world n i)
    × ((if is_gave_up r.outcome then length r.delays else n) ≡ n)

rounds-Bounded :
    (cfg : BackoffConfig) (world : ℕ → Round) (n i b : ℕ)
    → b ≡ delay cfg i
    → Bounded cfg world n i (reconnect_rounds cfg.max_delay world n i b)
unfolding reconnect_rounds
rounds-Bounded cfg world zero i b e = ground arith
rounds-Bounded cfg world (suc n) i b e =
    let next = min_duration (b * 2) cfg.max_delay in
    let ih = rounds-Bounded cfg world n (i + 1) next (rw e (delay-suc cfg i)) in
    ground (arith, e, ih)

-- A reconnection ends, whatever its attempts and the context do: after at most `max_attempts` attempts, with no more
-- waits than attempts; the first wait is the configured one, even where it exceeds the bound, and each later one is
-- twice the one before, up to the bound; and it gives up exactly if all attempts fail while the context goes
-- on, after all waits.
pub reconnect_loop-bounded :
    (cfg : BackoffConfig) (world : ℕ → Round)
    → let r = reconnect_loop cfg world in
      (r.attempts ≤ cfg.max_attempts)
      × (length r.delays ≤ r.attempts)
      × (r.delays ≡ delays_from cfg 0 (length r.delays))
      × (is_gave_up r.outcome ≡ all_fail world cfg.max_attempts 0)
      × ((if is_gave_up r.outcome then length r.delays else cfg.max_attempts) ≡ cfg.max_attempts)
unfolding reconnect_loop
reconnect_loop-bounded cfg world = rounds-Bounded cfg world cfg.max_attempts 0 cfg.initial refl

pub record IsClient (c : Client) : Type 0 where
  pub one_loop : c.loops ≡ (if c.in_progress then 1 else 0)
  pub empty : c.in_progress ≡ true → c.reconnect_ch ≡ none

serve-IsClient : (e : Call) (c : Client) → IsClient c → IsClient (serve c e)
unfolding serve reconnect loop_ends wait_reconnect
serve-IsClient reconnects c v = record {
  one_loop = ground (arith, v.one_loop);
  empty = λ h. ground (arith, v.empty, h);
}
serve-IsClient waits c v = record { one_loop = v.one_loop; empty = λ h. refl }
serve-IsClient (ends world) c v = record {
  one_loop = ground (arith, v.one_loop);
  empty = λ h. ground (arith, v.one_loop, h);
}

serve_all-IsClient : (es : List Call) (c : Client) → IsClient c → IsClient (serve_all c es)
unfolding serve_all
serve_all-IsClient [] c v = v
serve_all-IsClient (e ∷ es) c v = serve_all-IsClient es (serve c e) (serve-IsClient e c v)

-- Whatever calls of `Reconnect` and `WaitReconnect` and ends of loops come in any order, from a new client: at most one loop runs, and
-- it runs exactly while the client says so; and when a loop ends, its result is what `WaitReconnect` gives.
serve_all-loop :
    (cfg : BackoffConfig) (es : List Call) (world : ℕ → Round)
    → let c = serve_all (new_client cfg) es in
      (c.loops ≡ (if c.in_progress then 1 else 0))
      × ((wait_reconnect (serve c (ends world))).1 ≡ (
          if c.in_progress then some (reconnect_loop c.backoff world).outcome else c.reconnect_ch))
unfolding new_client serve loop_ends wait_reconnect
serve_all-loop cfg es world =
    let v = serve_all-IsClient es (new_client cfg) (record { one_loop = refl; empty = λ h. cc }) in
    (
      v.one_loop,
      elim (Bool-cases (serve_all (new_client cfg) es).in_progress) [
        | inl e ↦ ground (arith, e, v.one_loop, v.empty e)
        | inr e ↦ ground (arith, e, v.one_loop)
      ],
    )
