-- ===== src/Metrics/Memory.antt =====
-- A Redis in memory, which meets the laws of the interface.
use voice_backend.Common.{
  ℕ, ◌+◌, Text, ◌≡◌, refl, Bool, true, false, not, ◌&&◌, ◌||◌, List, [], ◌∷◌, ◌==◌, if◌then◌else◌,
  arith, Bool-cases, inl, inr, ==→eq,
}
use voice_backend.Common.Map.{lookup, insert, or_nil, lookup-insert}
use voice_backend.Metrics.{field, or_zero, Redis}

pub record Memory : Type 0 where
  pub hashes : List (Text × List (Text × ℕ))
  pub members : List (Text × Text)

unfoldable pub all_of : Text → Memory → List (Text × ℕ)
all_of k m = or_nil (lookup k m.hashes)

unfoldable pub increase : Text → Text → ℕ → Memory → Memory
unfolding all_of field
increase k f n m = record m {
  hashes = insert k (insert f (field f (all_of k m) + n) (all_of k m)) m.hashes;
}

unfoldable pub has_member : List (Text × Text) → Text → Text → Bool
has_member [] k u = false
has_member (e ∷ rest) k u = ((e.0 == k) && (e.1 == u)) || has_member rest k u

unfoldable pub add_member : Text → Text → Memory → Memory × Bool
unfolding has_member
add_member k u m =
    if has_member m.members k u
    then (m, false)
    else (record m { members = (k, u) ∷ m.members }, true)

increase-field :
    (k f : Text) (n : ℕ) (m : Memory) (k' f' : Text)
    → field f' (all_of k' (increase k f n m))
      ≡ field f' (all_of k' m) + (if (k == k') && (f == f') then n else 0)
unfolding increase all_of field
increase-field k f n m k' f' =
    let old = or_nil (lookup k m.hashes) in
    let value = or_zero (lookup f old) + n in
    elim (Bool-cases (k == k')) [
      | inl e ↦ elim (Bool-cases (f == f')) [
        | inl d ↦ ground (
          arith,
          e,
          d,
          ==→eq k k' e,
          ==→eq f f' d,
          lookup-insert k k' (insert f value old) m.hashes,
          lookup-insert f f' value old,
        )
        | inr d ↦ ground (
          arith,
          e,
          d,
          ==→eq k k' e,
          lookup-insert k k' (insert f value old) m.hashes,
          lookup-insert f f' value old,
        )
      ]
      | inr e ↦ ground (arith, e, lookup-insert k k' (insert f value old) m.hashes)
    ]

add_member-all_of :
    (k u : Text) (m : Memory) (k' : Text) → all_of k' (add_member k u m).0 ≡ all_of k' m
unfolding add_member all_of
add_member-all_of k u m k' = ground arith

add_member-new : (k u : Text) (m : Memory) → (add_member k u m).1 ≡ not (has_member m.members k u)
unfolding add_member
add_member-new k u m = ground arith

add_member-has_member :
    (k u : Text) (m : Memory) (k' u' : Text)
    → has_member (add_member k u m).0.members k' u'
      ≡ ((k == k') && (u == u')) || has_member m.members k' u'
unfolding add_member has_member
add_member-has_member k u m k' u' =
    let matched : ((k == k') && (u == u')) ≡ true
        → has_member m.members k u ≡ has_member m.members k' u' =
      λ h. ground (arith, h, ==→eq k k', ==→eq u u') in
    elim (Bool-cases (has_member m.members k u)) [
      | inl e ↦ elim (Bool-cases ((k == k') && (u == u'))) [
        | inl h ↦ ground (arith, e, h, matched h)
        | inr h ↦ ground (arith, e, h)
      ]
      | inr e ↦ ground (arith, e)
    ]

unfoldable pub memory : Redis Memory
unfolding increase add_member increase-field add_member-all_of add_member-new add_member-has_member
memory = record {
  hincr_by = increase;
  hget_all = all_of;
  sadd = add_member;
  is_member = λ k u m. has_member m.members k u;
  hget_all-hincr_by = increase-field;
  hget_all-sadd = add_member-all_of;
  sadd-new = add_member-new;
  is_member-sadd = add_member-has_member;
  is_member-hincr_by = λ k f n m k' u'. refl;
}
