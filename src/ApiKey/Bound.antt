-- ===== src/ApiKey/Bound.antt =====
-- How many keys there can be: a prefix is "sk-voice-" and three hexadecimal digits, and prefixes are unique.
use voice_backend.Common.{
  ◌≡◌, ◌≤◌, ◌<◌, refl, sym, ap, subst, ◌∙◌, Text, Bool, true, false, ◌||◌, List, [], ◌∷◌, ◌++◌,
  ◌==◌, length, take, contains, map, if◌then◌else◌, arith, ℕ, zero, suc, ◌+◌, ◌/◌, ◌%◌, All,
  Bool-cases, inl, inr, ==→eq, ==_refl, contains-append, text, ◌=ℕ◌,
}
use voice_backend.Common.Map.{IsDistinct}
use voice_backend.ApiKey.{
  ApiKey, hex_digit, encode_hex, generate_secret, prefixes, create, create_all,
}

-- `ys` without one `x`.
abbrev without : Text → List Text → List Text
without x [] = []
without x (y ∷ ys) = let rest = without x ys in if y == x then ys else y ∷ rest

without-length :
    (x : Text) (ys : List Text) → contains ys x ≡ true → length ys ≡ length (without x ys) + 1
without-length x [] h = absurd (ground (arith, h))
without-length x (y ∷ ys) h = ground (arith, h, without-length x ys)

without-contains :
    (x z : Text) (ys : List Text) → (x == z) ≡ false → contains (without x ys) z ≡ contains ys z
without-contains x z [] h = refl
without-contains x z (y ∷ ys) h = ground (arith, h, without-contains x z ys h)

-- A list without repetition is no longer than a list that holds its elements.
pub length-IsDistinct :
    (xs ys : List Text)
    → IsDistinct xs
    → ((z : Text) → contains xs z ≡ true → contains ys z ≡ true)
    → length xs ≤ length ys
length-IsDistinct [] ys d sub = omega arith
length-IsDistinct (x ∷ xs) ys d sub =
    let has_x = sub x (ground (arith, ==_refl x)) in
    let rest = length-IsDistinct xs (without x ys) d.1 (λ z h. elim (Bool-cases (x == z)) [
      | inl e ↦
          absurd (
            ground
              (arith, h, d.0, subst (λ (t : Text). contains xs t ≡ true) (sym (==→eq x z e)) h))
      | inr e ↦ without-contains x z ys e ∙ sub z (ground (arith, h))
    ]) in
    omega (arith, rest, without-length x ys has_x)

-- All words of hexadecimal digits of a length.
abbrev digits : List ℕ
digits =
    b'0' ∷ b'1' ∷ b'2' ∷ b'3' ∷ b'4' ∷ b'5' ∷ b'6' ∷ b'7' ∷ b'8' ∷ b'9' ∷ b'a' ∷ b'b' ∷ b'c' ∷ b'd'
    ∷ b'e' ∷ b'f' ∷ []

abbrev has_digit : List ℕ → ℕ → Bool
has_digit [] c = false
has_digit (d ∷ ds) c = d =ℕ c || has_digit ds c

abbrev each : List ℕ → List Text → List Text
each [] ts = []
each (d ∷ ds) ts = map (◌∷◌ d) ts ++ each ds ts

abbrev words : ℕ → List Text
words zero = [] ∷ []
words (suc n) = each digits (words n)

contains-map_cons :
    (c : ℕ) (t : Text) (ts : List Text)
    → contains ts t ≡ true
    → contains (map (◌∷◌ c) ts) (c ∷ t) ≡ true
contains-map_cons c t [] h = h
contains-map_cons c t (u ∷ ts) h = ground (arith, h, contains-map_cons c t ts)

contains-each :
    (c : ℕ) (t : Text) (ds : List ℕ) (ts : List Text)
    → has_digit ds c ≡ true
    → contains ts t ≡ true
    → contains (each ds ts) (c ∷ t) ≡ true
contains-each c t [] ts h k = absurd (ground (arith, h))
contains-each c t (d ∷ ds) ts h k = ground (
  arith,
  h,
  contains-append (map (◌∷◌ d) ts) (each ds ts) (c ∷ t),
  contains-map_cons c t ts k,
  contains-each c t ds ts,
)

hex_digit-has : (n : ℕ) → n < 16 → has_digit digits (hex_digit n) ≡ true
unfolding hex_digit
hex_digit-has n h = ground (arith, h)

contains-map_append :
    (p t : Text) (ts : List Text)
    → contains ts t ≡ true
    → contains (map (◌++◌ p) ts) (p ++ t) ≡ true
contains-map_append p t [] h = h
contains-map_append p t (u ∷ ts) h = elim (Bool-cases (u == t)) [
  | inl e ↦ ground (arith, ap (◌++◌ p) (==→eq u t e))
  | inr e ↦ ground (arith, h, e, contains-map_append p t ts)
]

-- All prefixes that a secret may have.
abbrev all_prefixes : List Text
all_prefixes = map (◌++◌ (text "sk-voice-")) (words 3)

-- What `rand.Read` fills.
abbrev pub AreRandom : List ℕ → Type 0
AreRandom bytes = (length bytes ≡ 32) × All (λ b. b < 256) bytes

take-generate_secret :
    (bytes : List ℕ)
    → AreRandom bytes
    → contains all_prefixes (take 12 (generate_secret bytes)) ≡ true
unfolding generate_secret encode_hex
take-generate_secret [] r = absurd (omega (arith, r.0))
take-generate_secret (b ∷ []) r = absurd (omega (arith, r.0))
take-generate_secret (b ∷ c ∷ bytes) (n, (small_b, (small_c, small))) =
    contains-map_append (text "sk-voice-")
      (hex_digit (b / 16) ∷ hex_digit (b % 16) ∷ hex_digit (c / 16) ∷ []) (words 3)
      (contains-each _ _ digits (words 2) (hex_digit-has (b / 16) (omega (arith, small_b))) (
        contains-each _ _ digits (words 1) (hex_digit-has (b % 16) (omega arith)) (
          contains-each _ _ digits (words 0) (hex_digit-has (c / 16) (omega (arith, small_c)))
            (ground arith))))

-- The prefixes are unique, and all of the form of a secret.
record AreSound (keys : List ApiKey) : Type 0 where
  distinct : IsDistinct (prefixes keys)
  formed : (z : Text) → contains (prefixes keys) z ≡ true → contains all_prefixes z ≡ true

create-AreSound :
    (hash : Text → Text) (bytes : List ℕ) (key : ApiKey) (keys : List ApiKey)
    → AreRandom bytes
    → AreSound keys
    → AreSound (create hash bytes key keys).0
unfolding create
create-AreSound hash bytes key keys r h =
    let p = take 12 (generate_secret bytes) in
    elim (Bool-cases (contains (prefixes keys) p)) [
      | inl e ↦ rw e h
      | inr e ↦ rw e (record {
        distinct = (e, h.distinct);
        formed = λ z k. elim (Bool-cases (p == z)) [
          | inl same ↦
              subst (λ (t : Text). contains all_prefixes t ≡ true) (==→eq p z same)
                (take-generate_secret bytes r)
          | inr other ↦ h.formed z (ground (arith, k, other))
        ];
      })
    ]

create_all-AreSound :
    (hash : Text → Text) (cs : List (List ℕ × ApiKey)) (keys : List ApiKey)
    → All (λ c. AreRandom c.0) cs
    → AreSound keys
    → AreSound (create_all hash cs keys)
unfolding create_all
create_all-AreSound hash [] keys r h = h
create_all-AreSound hash (c ∷ cs) keys r h =
    create_all-AreSound hash cs (create hash c.0 c.1 keys).0 r.1
      (create-AreSound hash c.0 c.1 keys r.0 h)

length-prefixes : (keys : List ApiKey) → length (prefixes keys) ≡ length keys
length-prefixes [] = refl
length-prefixes (k ∷ keys) = ap suc (length-prefixes keys)

-- However many keys are created, whatever their random bytes, the table never holds more than 4096 of them,
-- all owners taken together.
pub create_all-count :
    (hash : Text → Text) (cs : List (List ℕ × ApiKey))
    → All (λ c. AreRandom c.0) cs
    → length (create_all hash cs []) ≤ 4096
create_all-count hash cs r =
    let keys = create_all hash cs [] in
    let h =
      create_all-AreSound hash cs [] r
        (record { distinct = tt; formed = λ z k. absurd (ground (arith, k)) }) in
    let bound = length-IsDistinct (prefixes keys) all_prefixes h.distinct h.formed in
    let size : length all_prefixes ≡ 4096 = refl in omega (arith, bound, size, length-prefixes keys)
