-- ===== src/Connections/Delivery.antt =====
-- Which messages go through a pipe.
use voice_backend.Common.{
  ℕ, ◌+◌, ◌-◌, ◌≤◌, ◌≡◌, refl, sym, ap, Text, Bool, true, false, not, ◌&&◌, List, [], ◌∷◌, ◌++◌,
  ltb, length, if◌then◌else◌, arith, append_assoc, append-nil, length-append, Bool-cases, inl, inr,
}
use voice_backend.Connections.{
  Pipe, new_pipe, send_case, done_case, default_case, context_case, Event, sent, received,
  marked_done, channel_closed, select_send, is_ready, can_send, take_case, put, receive_from, run,
}

-- The specification keeps a count in place of the queue: a message is accepted if its send is chosen while the
-- channel is open and holds fewer than `cap` messages.
abbrev pub accepted : ℕ → ℕ → Bool → Bool → List Event → List Text
accepted cap n done shut [] = []
accepted cap n done shut (sent send_case m ∷ es) =
    let more = m ∷ accepted cap (n + 1) done shut es in
    let same = accepted cap n done shut es in if not shut && ltb n cap then more else same
accepted cap n done shut (sent _ m ∷ es) = accepted cap n done shut es
accepted cap n done shut (received ∷ es) = accepted cap (n - 1) done shut es
accepted cap n done shut (marked_done ∷ es) = accepted cap n true shut es
accepted cap n done shut (channel_closed ∷ es) =
    accepted cap n done (if done then true else shut) es

-- What has gone in, in order.
abbrev pub entered : Pipe → List Text
entered p = p.delivered ++ p.items

abbrev Enters : Bool → List Event → Pipe → Type 0
Enters d es p =
    (entered (run d p es) ≡ entered p ++ accepted p.capacity (length p.items) p.done p.closed es)
    × (length p.items ≤ p.capacity → length (run d p es).items ≤ (run d p es).capacity)
    × ((run d p es).capacity ≡ p.capacity)

-- A case other than the send leaves the pipe alone.
skips :
    (d : Bool) (m : Text) (p : Pipe)
    → (select_send d done_case m p ≡ p)
      × (select_send d default_case m p ≡ p)
      × (select_send d context_case m p ≡ p)
unfolding select_send take_case is_ready can_send
skips d m p = (ground arith, ground arith, ground arith)

send_shut :
    (d : Bool) (m : Text) (p : Pipe)
    → (not p.closed && ltb (length p.items) p.capacity) ≡ false
    → let q = select_send d send_case m p in
      (q.items ≡ p.items)
      × (q.delivered ≡ p.delivered)
      × (q.capacity ≡ p.capacity)
      × (q.done ≡ p.done)
      × (q.closed ≡ p.closed)
unfolding select_send take_case is_ready can_send put
send_shut d m p h =
    (ground (arith, h), ground (arith, h), ground (arith, h), ground (arith, h), ground (arith, h))

send_open :
    (d : Bool) (m : Text) (p : Pipe)
    → (not p.closed && ltb (length p.items) p.capacity) ≡ true
    → select_send d send_case m p ≡ record p { items = p.items ++ m ∷ [] }
unfolding select_send take_case is_ready can_send put
send_open d m p h = ground (arith, h)

receive_lem :
    (q : List Text) (p : Pipe)
    → p.items ≡ q
    → let r = receive_from q p in
      (entered r ≡ entered p)
      × (length r.items ≡ length p.items - 1)
      × (r.capacity ≡ p.capacity)
      × (r.done ≡ p.done)
      × (r.closed ≡ p.closed)
unfolding receive_from
receive_lem [] p e = (refl, omega (arith, ap length e), refl, refl, refl)
receive_lem (m ∷ rest) p e = (
  ground (arith, e, append_assoc p.delivered (m ∷ []) rest),
  omega (arith, ap length e),
  refl,
  refl,
  refl,
)

run-Enters : (d : Bool) (es : List Event) (p : Pipe) → Enters d es p
unfolding run
run-Enters d [] p = (sym (append-nil (entered p)), λ h. h, refl)
run-Enters d (sent send_case m ∷ es) p =
    elim (Bool-cases (not p.closed && ltb (length p.items) p.capacity)) [
      | inl room ↦
          let next = run-Enters d es (record p { items = p.items ++ m ∷ [] }) in
          let same = send_open d m p room in
          ground (
            arith,
            room,
            same,
            next,
            length-append p.items (m ∷ []),
            append_assoc p.delivered p.items (m ∷ []),
            append_assoc (entered p) (m ∷ [])
                (accepted p.capacity (length p.items + 1) p.done p.closed es),
          )
      | inr shut ↦
          let next = run-Enters d es (select_send d send_case m p) in
          ground (arith, shut, send_shut d m p shut, next)
    ]
run-Enters d (sent done_case m ∷ es) p = ground (arith, (skips d m p).0, run-Enters d es p)
run-Enters d (sent default_case m ∷ es) p = ground (arith, (skips d m p).1, run-Enters d es p)
run-Enters d (sent context_case m ∷ es) p = ground (arith, (skips d m p).2, run-Enters d es p)
run-Enters d (received ∷ es) p =
    ground (arith, receive_lem p.items p refl, run-Enters d es (receive_from p.items p))
run-Enters d (marked_done ∷ es) p = run-Enters d es (record p { done = true })
run-Enters d (channel_closed ∷ es) p =
    ground (arith, run-Enters d es p, run-Enters d es (record p { closed = true }))

-- Whatever is sent, received and closed, in any order and by whatever ready cases: what the receiver has taken and
-- what is still queued are, in order, exactly the messages whose send was chosen while the channel was
-- open and not full; and no more than the capacity is queued.
run-accepted :
    (has_default : Bool) (size : ℕ) (es : List Event)
    → let p = run has_default (new_pipe size) es in
      (entered p ≡ accepted size 0 false false es) × (length p.items ≤ size)
unfolding new_pipe
run-accepted d size es =
    let h = run-Enters d es (new_pipe size) in (h.0, omega (arith, h.1 (omega arith), h.2))
