-- ===== src/TtsBridge/Streams.antt =====
-- How many streams speak.
use voice_backend.Common.{
  ℕ, ◌+◌, ◌≡◌, refl, true, false, not, ◌||◌, ◌&&◌, List, [], ◌∷◌, ◌++◌, Option, none, some, ◌=ℕ◌,
  if◌then◌else◌, arith,
}
use voice_backend.TtsBridge.{
  contains_id, remove_id, TtsBridge, new_tts_bridge, cancel_stream, start_stream, notify, stop,
  is_active, Event, started, stopped, notified, step, run,
}

abbrev pub to_list : Option ℕ → List ℕ
to_list none = []
to_list (some i) = i ∷ []

-- The stream that speaks is the one that `cancel` cancels, while the bridge says that it is active.
abbrev IsCurrent : TtsBridge → Type 0
IsCurrent b = b.speaking ≡ (if b.in_flight then to_list b.cancel else [])

-- No notification comes from a stream that has been cancelled.
abbrev pub Calm : TtsBridge → List Event → Type 0
Calm b [] = Unit {0}
Calm b (notified i ∷ es) = (contains_id b.ending i ≡ false) × Calm (step b (notified i)) es
Calm b (started ∷ es) = Calm (step b started) es
Calm b (stopped ∷ es) = Calm (step b stopped) es

-- Nothing that speaks is left behind a cancel of the current stream.
cancel-empty :
    (c : Option ℕ) (b : TtsBridge) → b.speaking ≡ to_list c → (cancel_stream c b).speaking ≡ []
unfolding cancel_stream
cancel-empty none b h = h
cancel-empty (some i) b h = rw h (ground arith)

cancel-idle : (c : Option ℕ) (b : TtsBridge) → b.speaking ≡ [] → (cancel_stream c b).speaking ≡ []
unfolding cancel_stream
cancel-idle none b h = h
cancel-idle (some i) b h = rw h (ground (arith, h))

start-IsCurrent : (b : TtsBridge) → IsCurrent b → IsCurrent (start_stream b)
unfolding start_stream
start-IsCurrent b h = ground (arith, h, cancel-empty b.cancel b)

stop-IsCurrent : (b : TtsBridge) → IsCurrent b → IsCurrent (stop b)
unfolding stop
stop-IsCurrent b h = ground (arith, h, cancel-empty b.cancel b, cancel-idle b.cancel b)

remove-current :
    (c : Option ℕ) (i : ℕ) → contains_id (to_list c) i ≡ true → remove_id (to_list c) i ≡ []
remove-current none i h = refl
remove-current (some j) i h = ground (arith, h)

notify-IsCurrent :
    (i : ℕ) (b : TtsBridge) → contains_id b.ending i ≡ false → IsCurrent b → IsCurrent (notify i b)
unfolding notify
notify-IsCurrent i b calm h = ground (arith, calm, h, remove-current b.cancel i)

run-IsCurrent : (es : List Event) (b : TtsBridge) → Calm b es → IsCurrent b → IsCurrent (run b es)
unfolding run step
run-IsCurrent [] b calm h = h
run-IsCurrent (started ∷ es) b calm h = run-IsCurrent es (start_stream b) calm (start-IsCurrent b h)
run-IsCurrent (stopped ∷ es) b calm h = run-IsCurrent es (stop b) calm (stop-IsCurrent b h)
run-IsCurrent (notified i ∷ es) b calm h =
    run-IsCurrent es (notify i b) calm.1 (notify-IsCurrent i b calm.0 h)

-- From a new bridge, in every order of starts, stops and notifications in which no cancelled stream notifies: at most one stream speaks,
-- the one that the next start or stop cancels, and only while the bridge says that it is active.
pub run-speaking :
    (es : List Event)
    → Calm new_tts_bridge es
    → let b = run new_tts_bridge es in b.speaking ≡ (if is_active b then to_list b.cancel else [])
unfolding new_tts_bridge is_active
run-speaking es calm = run-IsCurrent es new_tts_bridge calm refl

contains_id-append :
    (xs ys : List ℕ) (i : ℕ) → contains_id (xs ++ ys) i ≡ contains_id xs i || contains_id ys i
contains_id-append [] ys i = refl
contains_id-append (x ∷ xs) ys i = ground (arith, contains_id-append xs ys i)

contains_id-remove :
    (xs : List ℕ) (j i : ℕ) → contains_id (remove_id xs j) i ≡ contains_id xs i && not (i =ℕ j)
contains_id-remove [] j i = refl
contains_id-remove (x ∷ xs) j i = ground (arith, contains_id-remove xs j i)

-- A new stream speaks, and is the one to cancel.
start_lem :
    (b : TtsBridge)
    → let c = start_stream b in
      (contains_id c.speaking b.streams ≡ true)
      × (c.cancel ≡ some b.streams)
      × (c.streams ≡ b.streams + 1)
unfolding start_stream
start_lem b =
    let before = if b.in_flight then cancel_stream b.cancel b else b in
    (ground (arith, contains_id-append before.speaking (b.streams ∷ []) b.streams), refl, refl)

-- Without a stream in flight nothing is cancelled by a start.
idle_start :
    (b : TtsBridge)
    → b.in_flight ≡ false
    → let c = start_stream b in (c.speaking ≡ b.speaking ++ b.streams ∷ []) × (c.ending ≡ b.ending)
unfolding start_stream
idle_start b h = (ground (arith, h), ground (arith, h))

stop_lem :
    (b : TtsBridge) (i : ℕ)
    → b.cancel ≡ some i
    → contains_id b.speaking i ≡ true
    → (contains_id (stop b).ending i ≡ true)
      × ((stop b).in_flight ≡ false)
      × ((stop b).streams ≡ b.streams)
unfolding stop cancel_stream
stop_lem b i c h = (
  ground (arith, c, h, contains_id-append b.ending (i ∷ []) i),
  ground (arith, c, h),
  ground (arith, c, h),
)

notify_lem :
    (i : ℕ) (b : TtsBridge)
    → contains_id b.ending i ≡ true
    → ((notify i b).in_flight ≡ false)
      × ((notify i b).speaking ≡ remove_id b.speaking i)
      × ((notify i b).streams ≡ b.streams)
unfolding notify
notify_lem i b h = (ground (arith, h), ground (arith, h), ground (arith, h))

-- After any starts, stops and notifications: a stream is started and stopped, the next one is started, and then the stopped one
-- notifies its end. Now the bridge says that it is not active while the second stream speaks; and one more
-- start does not cancel it, so that two streams speak.
pub late_notification :
    (es : List Event)
    → let b = run new_tts_bridge es in
      let second = start_stream (stop (start_stream b)) in
      let late = notify b.streams second in
      (is_active late ≡ false)
      × (contains_id late.speaking (b.streams + 1) ≡ true)
      × (contains_id (start_stream late).speaking (b.streams + 1) ≡ true)
      × (contains_id (start_stream late).speaking (b.streams + 2) ≡ true)
unfolding is_active
late_notification es =
    let b = run new_tts_bridge es in
    let a = b.streams in
    let first = start_stream b in
    let (speaks, current, count) = start_lem b in
    let halted = stop first in
    let (ends, idle, same) = stop_lem first a current speaks in
    let second = start_stream halted in
    let (on, kept) = idle_start halted idle in
    let late = notify a second in
    let (off, left, more) = notify_lem a second (rw kept ends) in
    let (two, _) = idle_start late off in
    let alive : contains_id late.speaking (a + 1) ≡ true = ground (
      arith,
      left,
      on,
      same,
      count,
      contains_id-remove second.speaking a (a + 1),
      contains_id-append halted.speaking (halted.streams ∷ []) (a + 1),
    ) in
    (
      off,
      alive,
      ground (arith, two, alive, contains_id-append late.speaking (late.streams ∷ []) (a + 1)),
      ground (
        arith,
        two,
        more,
        (start_lem halted).2,
        same,
        count,
        contains_id-append late.speaking (late.streams ∷ []) (a + 2),
      ),
    )
