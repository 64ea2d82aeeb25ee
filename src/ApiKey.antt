-- ===== src/ApiKey.antt =====
-- internal/apikey/store.go and model.go: the keys of agents and users. A secret is "sk-voice-" and the hexadecimal
-- digits of 32 random bytes, which are an argument; `hash` stands for SHA-256. The table is a list whose
-- prefixes are unique, as the index of model.go wants. Other errors of the database are left out, as is the
-- instant of the last use.
pub mod Secrets
pub mod Bound
mod Tests
use voice_backend.Common.{
  ℕ, ◌+◌, ◌/◌, ◌%◌, Text, Bool, true, false, not, ◌||◌, ◌&&◌, List, [], ◌∷◌, ◌++◌, Option, none,
  some, ◌==◌, ltb, length, take, contains, text, if◌then◌else◌,
}

pub data OwnerType : Type 0 where
  user_owner agent_owner : OwnerType

pub record ApiKey : Type 0 where
  pub id : Text
  pub owner_id : Text
  pub owner_type : OwnerType
  pub name : Text
  pub prefix : Text
  pub secret_hash : Text
  pub expires_at : Option ℕ

-- `time.Now().After(*k.ExpiresAt)`.
abbrev pub is_past : ℕ → Option ℕ → Bool
is_past now none = false
is_past now (some t) = ltb t now

unfoldable pub is_expired : ℕ → ApiKey → Bool
is_expired now k = is_past now k.expires_at

unfoldable pub hex_digit : ℕ → ℕ
hex_digit n = if ltb n 10 then b'0' + n else b'W' + n

-- `hex.EncodeToString`.
unfoldable pub encode_hex : List ℕ → Text
unfolding hex_digit
encode_hex [] = []
encode_hex (b ∷ bytes) = hex_digit (b / 16) ∷ hex_digit (b % 16) ∷ encode_hex bytes

unfoldable pub generate_secret : List ℕ → Text
unfolding encode_hex
generate_secret bytes = text "sk-voice-" ++ encode_hex bytes

abbrev pub prefixes : List ApiKey → List Text
prefixes [] = []
prefixes (k ∷ keys) = k.prefix ∷ prefixes keys

-- `First` on the rows with the prefix.
abbrev pub first_with : Text → List ApiKey → Option ApiKey
first_with p [] = none
first_with p (k ∷ keys) = if k.prefix == p then some k else first_with p keys

-- The answers of `Validate`: the key, `ErrNotFound` and `ErrUnauthorized`.
pub data Validation : Type 0 where
  valid : ApiKey → Validation
  not_found unauthorized : Validation

module _ (hash : Text → Text) where
  -- `Create`: the table, and the secret or an error.
  unfoldable pub create : List ℕ → ApiKey → List ApiKey → List ApiKey × Option Text
  unfolding generate_secret
  create bytes key keys =
      let secret = generate_secret bytes in
      let row : ApiKey = record key { prefix = take 12 secret; secret_hash = hash secret } in
      if contains (prefixes keys) row.prefix then (keys, none) else (row ∷ keys, some secret)

  unfoldable pub validate : ℕ → Text → List ApiKey → Validation
  unfolding is_expired
  validate now secret keys =
      if ltb (length secret) 12 then not_found else elim (first_with (take 12 secret) keys) [
        | none ↦ not_found
        | some k ↦
            if not (k.secret_hash == hash secret)
            then not_found
            else if is_expired now k
            then unauthorized
            else valid k
      ]

  -- Keys that are created one after the other, each with its bytes.
  unfoldable pub create_all : List (List ℕ × ApiKey) → List ApiKey → List ApiKey
  unfolding create
  create_all [] keys = keys
  create_all (c ∷ cs) keys = create_all cs (create c.0 c.1 keys).0
