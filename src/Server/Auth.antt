-- ===== src/Server/Auth.antt =====
-- internal/server/api/middleware/auth.go: bearer tokens against the stored API keys. The repository's
-- GetByHash and SHA-256 are parameters; any error of GetByHash is `none`. TouchLastUsed, which runs on
-- its own and whose error is dropped, is the id of the key that it touches.
pub mod Access
use Prim.Native.String.{◌++◌}
use netvantage.Prelude.{
  ℕ, Bool, true, false, Option, none, some, List, [], ◌∷◌, String, ◌&&◌, not, ltb, is_empty, ◌==◌,
  string_eq, if◌then◌else◌,
}
use netvantage.Prelude.Dict.{lookup, insert}
use netvantage.Prelude.Text.{has_prefix, trim_prefix}

pub record ApiKey : Type 0 where
  pub id : String
  pub name : String
  pub key_hash : String
  pub role : String
  pub scopes : List String
  pub created_at : ℕ
  pub expires_at : Option ℕ
  pub last_used : Option ℕ

-- What the middleware does with a request: it answers with 401 or with 403, or hands it on with the
-- key's role and id in the context.
pub data Decision : Type 0 where
  unauthorized : Decision
  forbidden : Decision
  admitted : ApiKey → Decision

abbrev pub bearer : String
bearer = "Bearer "

pub extract_bearer_token : String → String
extract_bearer_token auth = if has_prefix auth bearer then trim_prefix auth bearer else ""

-- The map of the allowed roles, a later one entered after an earlier one.
pub role_set : List String → List (String × Bool)
role_set [] = []
role_set (r ∷ rs) = insert r true (role_set rs)

-- An index into a map of Booleans.
pub is_set : String → List (String × Bool) → Bool
is_set k m = elim (lookup k m) [ none ↦ false | some b ↦ b ]

pub is_expired : ℕ → ApiKey → Bool
is_expired now key = elim key.expires_at [ none ↦ false | some t ↦ ltb t now ]

-- What follows the lookup of the key.
pub check_key : ℕ → List String → ApiKey → Decision
check_key now allowed key =
    if is_expired now key
    then unauthorized
    else if not (is_empty (role_set allowed)) && not (is_set key.role (role_set allowed))
    then forbidden
    else admitted key

module _ (hash_key : String → String) (get_by_hash : String → Option ApiKey) where
  pub authenticate : ℕ → List String → String → Decision
  authenticate now allowed auth =
      let token = extract_bearer_token auth in
      if token == "" then unauthorized else elim (get_by_hash (hash_key token)) [
        | none ↦ unauthorized
        | some key ↦ check_key now allowed key
      ]

  -- The middleware before a handler, which takes the context's role and id and gives a status. The
  -- second part is the keys touched.
  pub api_key_auth : ℕ → List String → (String → String → ℕ) → String → ℕ × List String
  api_key_auth now allowed next auth = elim (authenticate now allowed auth) [
    | unauthorized ↦ (401, [])
    | forbidden ↦ (403, [])
    | admitted key ↦ (next key.role key.id, key.id ∷ [])
  ]
