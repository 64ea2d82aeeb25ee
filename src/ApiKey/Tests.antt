-- ===== src/ApiKey/Tests.antt =====
-- One key, and the theorems at it.
use voice_backend.Common.{
  ◌≡◌, ◌≤◌, ◌<◌, All, refl, Text, text, List, [], ◌∷◌, none, length, arith, ℕ, zero, suc,
}
use voice_backend.ApiKey.{ApiKey, agent_owner, create_all, encode_hex}
use voice_backend.ApiKey.Bound.{AreRandom, create_all-count}

abbrev repeat : ℕ → List ℕ
repeat zero = []
repeat (suc n) = 171 ∷ repeat n

abbrev bytes : List ℕ
bytes = repeat 32

repeat-small : (n : ℕ) → All (λ b. b < 256) (repeat n)
repeat-small zero = tt
repeat-small (suc n) = (omega arith, repeat-small n)

abbrev key : ApiKey
key = record {
  id = text "key";
  owner_id = text "chef";
  owner_type = agent_owner;
  name = [];
  prefix = [];
  secret_hash = [];
  expires_at = none;
}

abbrev same_text : Text → Text
same_text s = s

encode_run : encode_hex (171 ∷ 9 ∷ []) ≡ text "ab09"
unfolding encode_hex
encode_run = refl

bytes-AreRandom : AreRandom bytes
bytes-AreRandom = (refl, repeat-small 32)

create_all-count_example : length (create_all same_text ((bytes, key) ∷ []) []) ≤ 4096
create_all-count_example = create_all-count same_text ((bytes, key) ∷ []) (bytes-AreRandom, tt)
