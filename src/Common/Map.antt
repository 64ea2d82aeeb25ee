-- ===== src/Common/Map.antt =====
-- Go maps with string keys, as association lists. The order of the list stands for one of the
-- orders in which `range` may visit the map.
use Prim.Native.Nat.{◌+◌, ◌≤◌}
use mathlib.Core.Path.{◌≡◌, refl}
use mathlib.Core.Bool.{Bool, true, false, ◌||◌}
use mathlib.Core.Option.{Option, none, some}
use mathlib.Core.List.{List, [], ◌∷◌, ◌++◌}
use native.Mathlib.Omega.{arith}
use voice_backend.Common.Tests.{Text, ◌==◌, if◌then◌else◌}
use voice_backend.Common.Lists.{length, contains}

-- `_, ok := m[k]`.
abbrev pub is_some {ℓ} : {A : Type ℓ} → Option A → Bool
is_some none = false
is_some (some a) = true

module _ {ℓ} {V : Type ℓ} where
  unfoldable pub lookup : Text → List (Text × V) → Option V
  lookup k [] = none
  lookup k (e ∷ rest) = if e.0 == k then some e.1 else lookup k rest

  -- `m[k] = v`.
  unfoldable pub insert : Text → V → List (Text × V) → List (Text × V)
  insert k v [] = (k, v) ∷ []
  insert k v (e ∷ rest) = if e.0 == k then (k, v) ∷ rest else e ∷ insert k v rest

  -- `delete(m, k)`.
  unfoldable pub delete : Text → List (Text × V) → List (Text × V)
  delete k [] = []
  delete k (e ∷ m) = let rest = delete k m in if e.0 == k then rest else e ∷ rest

  abbrev pub keys : List (Text × V) → List Text
  keys [] = []
  keys ((j, v) ∷ m) = j ∷ keys m

  pub lookup-insert :
      (k j : Text) (v : V) (m : List (Text × V))
      → lookup j (insert k v m) ≡ (if k == j then some v else lookup j m)
  unfolding lookup insert
  lookup-insert k j v [] = ground arith
  lookup-insert k j v (e ∷ rest) = ground (arith, lookup-insert k j v rest)

  pub lookup-delete :
      (k j : Text) (m : List (Text × V))
      → lookup j (delete k m) ≡ (if k == j then none else lookup j m)
  unfolding lookup delete
  lookup-delete k j [] = ground arith
  lookup-delete k j ((i, w) ∷ m) = ground (arith, lookup-delete k j m)

  pub length-insert :
      (k : Text) (v : V) (m : List (Text × V))
      → length (insert k v m) ≡ (if is_some (lookup k m) then length m else length m + 1)
  unfolding lookup insert
  length-insert k v [] = omega arith
  length-insert k v ((i, w) ∷ m) = ground (arith, length-insert k v m)

  pub length-delete-le : (k : Text) (m : List (Text × V)) → length (delete k m) ≤ length m
  unfolding delete
  length-delete-le k [] = omega arith
  length-delete-le k ((i, w) ∷ m) = ground (arith, length-delete-le k m)

  -- `ok` is membership among the keys.
  pub contains-keys : (k : Text) (m : List (Text × V)) → contains (keys m) k ≡ is_some (lookup k m)
  unfolding lookup
  contains-keys k [] = refl
  contains-keys k ((i, w) ∷ m) = ground (arith, contains-keys k m)

abbrev pub or_nil {ℓ} : {A : Type ℓ} → Option (List A) → List A
or_nil none = []
or_nil (some xs) = xs

-- `m[k] = append(m[k], v)`.
unfoldable pub append_at {ℓ} : {A : Type ℓ} → Text → A → List (Text × List A) → List (Text × List A)
unfolding insert lookup
append_at k v m = insert k (or_nil (lookup k m) ++ v ∷ []) m

pub append_at-cons {ℓ} :
    {A : Type ℓ} (k : Text) (v : A) (j : Text) (xs : List A) (m : List (Text × List A))
    → append_at k v ((j, xs) ∷ m)
      ≡ (if j == k then (k, xs ++ v ∷ []) ∷ m else (j, xs) ∷ append_at k v m)
unfolding append_at
append_at-cons k v j xs m = ground arith

-- No text occurs twice.
abbrev pub IsDistinct : List Text → Type 0
IsDistinct [] = Unit {0}
IsDistinct (x ∷ xs) = (contains xs x ≡ false) × IsDistinct xs

module _ {ℓ} {V : Type ℓ} where
  pub contains-keys-insert :
      (k j : Text) (v : V) (m : List (Text × V))
      → contains (keys (insert k v m)) j ≡ (k == j || contains (keys m) j)
  unfolding insert
  contains-keys-insert k j v [] = refl
  contains-keys-insert k j v (e ∷ rest) = ground (arith, contains-keys-insert k j v rest)

  pub insert-IsDistinct :
      (k : Text) (v : V) (m : List (Text × V))
      → IsDistinct (keys m)
      → IsDistinct (keys (insert k v m))
  unfolding insert
  insert-IsDistinct k v [] d = (refl, tt)
  insert-IsDistinct k v (e ∷ rest) d =
      ground (arith, insert-IsDistinct k v rest d.1, contains-keys-insert k e.0 v rest)

pub lookup-append_at {ℓ} :
    {A : Type ℓ} (k j : Text) (v : A) (m : List (Text × List A))
    → or_nil (lookup j (append_at k v m))
      ≡ (if k == j then or_nil (lookup j m) ++ v ∷ [] else or_nil (lookup j m))
unfolding append_at
lookup-append_at k j v m = ground (arith, lookup-insert k j (or_nil (lookup k m) ++ v ∷ []) m)
