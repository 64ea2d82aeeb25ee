-- ===== src/ApiKey/Secrets.antt =====
-- Which secrets a created key accepts.
use voice_backend.Common.{
  ◌≡◌, ◌≤◌, Text, not, List, some, ◌==◌, length, take, if◌then◌else◌, arith, ℕ,
}
use voice_backend.ApiKey.{
  ApiKey, valid, not_found, unauthorized, generate_secret, create, validate, is_expired,
}

-- Once a key is created, a text of at least 12 bytes that begins like its secret is accepted exactly if its
-- hash is that of the secret and the key is not expired, and then the answer is the stored key; whatever other
-- keys there are.
validate-create :
    (hash : Text → Text) (bytes : List ℕ) (key : ApiKey) (keys : List ApiKey) (now : ℕ) (s : Text)
    → let secret = generate_secret bytes in
      let row : ApiKey = record key { prefix = take 12 secret; secret_hash = hash secret } in
      (create hash bytes key keys).1 ≡ some secret
      → 12 ≤ length s
      → take 12 s ≡ take 12 secret
      → validate hash now s (create hash bytes key keys).0 ≡ (
          if not (hash secret == hash s)
          then not_found
          else if is_expired now row
          then unauthorized
          else valid row)
unfolding create validate
validate-create hash bytes key keys now s made long same = ground (arith, made, long, same)
