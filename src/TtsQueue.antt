-- ===== src/TtsQueue.antt =====
-- internal/voicesession/tts_queue.go: sentences wait in a queue, and a goroutine (`processQueue`)
-- hands them to the synthesiser one by one. A system holds the fields of the queue, the speech
-- controller that the callbacks of session.go drive, and every goroutine with the place where it
-- stands. One event is one critical section of the mutex, or one callback behind it, so a list of
-- events is an interleaving of the goroutines; an event that cannot happen changes nothing.
pub mod Fifo
pub mod Race
mod Tests
use voice_backend.Common.{
  ℕ, zero, suc, ◌+◌, Text, Bool, true, false, not, ◌||◌, ◌&&◌, List, [], ◌∷◌, ◌++◌, Option, none,
  some, ◌=ℕ◌, if◌then◌else◌,
}
use voice_backend.Speech.{SpeechController, on_tts_audio_start, on_tts_audio_end}

-- A goroutine: before its first critical section, before the call of `onStart`, at the head of its
-- loop, in the `select` behind `StartStream` with the context that it read, before the call of
-- `onEnd`, or returned. A context is numbered.
pub data Worker : Type 0 where
  spawned starting looping : Worker
  waiting : Option ℕ → Worker
  ending returned : Worker

pub record System : Type 0 where
  pub queue : List Text
  pub ctx : Option ℕ
  pub cancel : Option ℕ
  pub playing : Bool
  pub started : Bool
  pub speech : SpeechController
  pub workers : List Worker
  pub contexts : ℕ  -- how many contexts were made
  pub cancelled : List ℕ  -- the contexts that were cancelled
  pub streams : List Text  -- the texts that were handed to the bridge, in order

unfoldable pub new_tts_queue : SpeechController → System
new_tts_queue c = record {
  queue = [];
  ctx = none;
  cancel = none;
  playing = false;
  started = false;
  speech = c;
  workers = [];
  contexts = 0;
  cancelled = [];
  streams = [];
}

abbrev pub is_empty {ℓ} : {A : Type ℓ} → List A → Bool
is_empty [] = true
is_empty (x ∷ xs) = false

unfoldable pub enqueue : Text → System → System
enqueue sentence s =
    let was_empty = is_empty s.queue && not s.playing in
    let t : System = record s { queue = s.queue ++ sentence ∷ [] } in
    if was_empty
    then record t {
      ctx = some s.contexts;
      cancel = some s.contexts;
      started = false;
      workers = s.workers ++ spawned ∷ [];
      contexts = s.contexts + 1;
    }
    else t

abbrev cancelled_by : Option ℕ → List ℕ → List ℕ
cancelled_by none cs = cs
cancelled_by (some c) cs = c ∷ cs

-- `Clear`. Its caller goes on to `onEnd` behind the critical section, as a goroutine that is ending.
unfoldable pub clear : System → System
clear s = record s {
  queue = [];
  ctx = none;
  cancel = none;
  playing = false;
  started = false;
  cancelled = cancelled_by s.cancel s.cancelled;
  workers = if s.started then s.workers ++ ending ∷ [] else s.workers;
}

unfoldable pub is_playing : System → Bool
is_playing s = s.playing || not (is_empty s.queue)

abbrev get_elem? {ℓ} : {A : Type ℓ} → List A → ℕ → Option A
get_elem? [] i = none
get_elem? (x ∷ xs) zero = some x
get_elem? (x ∷ xs) (suc i) = get_elem? xs i

abbrev set {ℓ} : {A : Type ℓ} → List A → ℕ → A → List A
set [] i v = []
set (x ∷ xs) zero v = v ∷ xs
set (x ∷ xs) (suc i) v = x ∷ set xs i v

abbrev member : Option ℕ → List ℕ → Bool
member none cs = false
member (some c) [] = false
member (some c) (d ∷ cs) = c =ℕ d || member (some c) cs

-- The goroutine `i` moves on to `w`.
abbrev move : ℕ → Worker → System → System
move i w s = record s { workers = set s.workers i w }

-- The critical section at the head of the loop, by the queue.
take_next : ℕ → List Text → System → System
take_next i [] s = move i ending (record s { playing = false; started = false })
take_next i (sentence ∷ rest) s =
    move i (waiting s.ctx)
      (record s { queue = rest; playing = true; streams = s.streams ++ sentence ∷ [] })

-- How the `select` of a waiting goroutine ends: its stream is done, or its context is.
pub data Signal : Type 0 where
  done ctx_done : Signal

-- The next step of a goroutine, by the place where it stands. A signal matters to a waiting one only.
advance : ℕ → Signal → Option Worker → System → System
unfolding take_next
advance i sig (some spawned) s = move i starting (record s { started = true })
advance i sig (some starting) s = move i looping (record s { speech = on_tts_audio_start s.speech })
advance i sig (some looping) s = take_next i s.queue s
advance i done (some (waiting c)) s = move i looping s
advance i ctx_done (some (waiting c)) s =
    if member c s.cancelled
    then move i returned (record s { queue = []; playing = false; started = false })
    else s
advance i sig (some ending) s = move i returned (record s { speech = on_tts_audio_end s.speech })
advance i sig _ s = s

pub data Event : Type 0 where
  enqueued : Text → Event
  cleared : Event
  advanced : ℕ → Signal → Event

unfoldable pub step : System → Event → System
unfolding enqueue clear advance
step s (enqueued sentence) = enqueue sentence s
step s cleared = clear s
step s (advanced i sig) = advance i sig (get_elem? s.workers i) s

unfoldable pub run : System → List Event → System
run s [] = s
run s (e ∷ es) = run (step s e) es
