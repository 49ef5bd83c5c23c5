-- ===== src/Server/Database/Keys.antt =====
-- internal/server/repository/postgres/apikey.go: the repository of API keys, on the rows of api_keys. A
-- key's scopes are a slice that is not nil.
use Prim.Native.String.{◌++◌}
use netvantage.Prelude.{
  ℕ, ◌≡◌, ◌≢◌, refl, ap, ◌∙◌, inl, inr, Option, none, some, List, ◌∷◌, String, string_eq, eq_iff,
  arith, Option-cases,
}
use netvantage.Server.Response.{Error}
use netvantage.Server.Auth.{ApiKey, authenticate, admitted, bearer}
use netvantage.Server.Auth.Access.{NotExpired, MayPass, authenticate-admitted_iff}
use netvantage.Server.Table.{find, change}
use netvantage.Server.Database.{duplicate}

-- The row that an INSERT of a key writes.
abbrev pub new_key : ℕ → ApiKey → ApiKey
new_key now key = record key { created_at = now; last_used = none }

-- The id is the primary key, and key_hash is UNIQUE.
unfoldable pub create_key : ℕ → ApiKey → List ApiKey → List ApiKey × Option Error
create_key now key keys = elim (find (λ k. k.id) key.id keys) [
  | some k ↦ (keys, some duplicate)
  | none ↦ elim (find (λ k. k.key_hash) key.key_hash keys) [
    | some k ↦ (keys, some duplicate)
    | none ↦ (new_key now key ∷ keys, none)
  ]
]

unfoldable pub get_by_hash : List ApiKey → String → Option ApiKey
get_by_hash keys key_hash = find (λ k. k.key_hash) key_hash keys

unfoldable pub touch_last_used : ℕ → String → List ApiKey → List ApiKey
touch_last_used now id keys = change (λ k. k.id) id (λ k. record k { last_used = some now }) keys

get_by_hash-create_key :
    (now : ℕ) (key : ApiKey) (keys : List ApiKey)
    → (create_key now key keys).1 ≡ none
    → get_by_hash (create_key now key keys).0 key.key_hash ≡ some (new_key now key)
unfolding create_key get_by_hash find
get_by_hash-create_key now key keys h = elim (Option-cases (find (λ k. k.id) key.id keys)) [
  | inr (k, taken) ↦ cc (rw (taken, create_key) at h)
  | inl free ↦ elim (Option-cases (find (λ k. k.key_hash) key.key_hash keys)) [
    | inr (k, taken) ↦ cc (rw (taken, create_key) at (rw (free, create_key) at h))
    | inl fresh ↦
        rw (free, create_key)
          (rw (fresh, create_key) (ground (arith, eq_iff key.key_hash key.key_hash)))
  ]
]

-- Once a key has been created, a request which presents a token with the key's hash is handed on with
-- that key, if the key has not expired and its role may pass.
pub create_key-authenticate :
    (hash_key : String → String) (now later : ℕ) (allowed : List String) (token : String)
    → (key : ApiKey) (keys : List ApiKey) → (create_key now key keys).1 ≡ none
    → token ≢ ""
    → hash_key token ≡ key.key_hash
    → NotExpired later key.expires_at
    → MayPass allowed key.role
    → authenticate hash_key
        (get_by_hash (create_key now key keys).0)
        later
        allowed
        (bearer ++ token)
      ≡ admitted (new_key now key)
create_key-authenticate hash_key now later allowed token key keys created filled hashed time role =
    (authenticate-admitted_iff hash_key (get_by_hash (create_key now key keys).0) later allowed
        (bearer ++ token) (new_key now key)).1
      (
        (
          token,
          refl,
          filled,
          ap (get_by_hash (create_key now key keys).0) hashed
              ∙ get_by_hash-create_key now key keys created,
        ),
        time,
        role,
      )
