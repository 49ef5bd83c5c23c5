-- ===== src/Server/Auth/Access.antt =====
-- Which requests the API key middleware hands on.
use Prim.Native.String.{◌++◌}
use netvantage.Prelude.{
  ℕ, ◌≤◌, ◌≡◌, ◌≢◌, ◌↔◌, ◌⊎◌, refl, sym, ◌∙◌, inl, inr, Bool, true, false, Option, none, some, List,
  [], ◌∷◌, String, not, ◌&&◌, is_empty, string_eq, eq_iff, arith, Bool-cases, Option-cases,
}
use netvantage.Prelude.Dict.{lookup, insert, lookup-insert}
use netvantage.Prelude.Text.{strip_prefix, strip_prefix-append, append-strip_prefix}
use netvantage.Server.Auth.{
  ApiKey, unauthorized, forbidden, admitted, bearer, extract_bearer_token, role_set, is_set,
  is_expired, check_key, authenticate,
}

-- The roles that may pass: every role if none is listed, else those listed.
abbrev pub IsListed : String → List String → Type 0
IsListed role [] = ⊥
IsListed role (r ∷ rs) = (r ≡ role) ⊎ IsListed role rs

abbrev pub MayPass : List String → String → Type 0
MayPass [] role = Unit
MayPass (r ∷ rs) role = IsListed role (r ∷ rs)

abbrev pub NotExpired : ℕ → Option ℕ → Type 0
NotExpired now none = Unit
NotExpired now (some t) = now ≤ t

is_set-role_set :
    (role : String) (rs : List String) → (is_set role (role_set rs) ≡ true) ↔ IsListed role rs
unfolding is_set role_set lookup
is_set-role_set role [] = ground arith
is_set-role_set role (r ∷ rs) =
    ground (arith, lookup-insert r role true (role_set rs), eq_iff r role, is_set-role_set role rs)

insert-not_empty :
    (k : String) (v : Bool) (m : List (String × Bool)) → is_empty (insert k v m) ≡ false
unfolding insert
insert-not_empty k v [] = refl
insert-not_empty k v ((j, w) ∷ m) = ground arith

-- The guard of the middleware on the key's role.
role_refused : List String → String → Bool
role_refused allowed role =
    not (is_empty (role_set allowed)) && not (is_set role (role_set allowed))

role_refused_iff :
    (allowed : List String) (role : String)
    → (role_refused allowed role ≡ false) ↔ MayPass allowed role
unfolding role_refused role_set
role_refused_iff [] role = ground arith
role_refused_iff (r ∷ rs) role =
    rw (insert-not_empty r true (role_set rs)) (ground (arith, is_set-role_set role (r ∷ rs)))

is_expired_iff :
    (now : ℕ) (key : ApiKey) → (is_expired now key ≡ false) ↔ NotExpired now key.expires_at
unfolding is_expired
is_expired_iff now key = elim key.expires_at [ none ↦ ground arith | some t ↦ ground arith ]

extracted_of_bearer :
    (auth t : String) → strip_prefix bearer auth ≡ some t → extract_bearer_token auth ≡ t
unfolding extract_bearer_token strip_prefix
extracted_of_bearer auth t there = rw there refl

bearer_of_extracted :
    (auth : String) → extract_bearer_token auth ≢ "" → auth ≡ bearer ++ extract_bearer_token auth
unfolding extract_bearer_token strip_prefix
bearer_of_extracted auth filled = elim (Option-cases (strip_prefix bearer auth)) [
  | inl missing ↦ absurd (filled (rw missing refl))
  | inr (t, there) ↦ rw there (append-strip_prefix bearer auth t there)
]

check_key_iff :
    (now : ℕ) (allowed : List String) (found key : ApiKey)
    → (check_key now allowed found ≡ admitted key)
      ↔ ((found ≡ key) × NotExpired now found.expires_at × MayPass allowed found.role)
unfolding check_key
check_key_iff now allowed found key =
    let role = role_refused_iff allowed found.role in
    let time = is_expired_iff now found in unfold role_refused in ground (arith, role, time)

forbidden_iff :
    (now : ℕ) (allowed : List String) (found : ApiKey)
    → (check_key now allowed found ≡ forbidden)
      ↔ (NotExpired now found.expires_at × ¬ MayPass allowed found.role)
unfolding check_key
forbidden_iff now allowed found =
    let role = role_refused_iff allowed found.role in
    let time = is_expired_iff now found in unfold role_refused in ground (arith, role, time)

module _ (hash_key : String → String) (get_by_hash : String → Option ApiKey) where
  -- The key that a header presents: that of a token that is not empty, behind the word Bearer.
  abbrev pub Presents : String → ApiKey → Type 0
  Presents auth key =
      (token : String) × (auth ≡ bearer ++ token)
      × (token ≢ "")
      × (get_by_hash (hash_key token) ≡ some key)

  Presents-token :
      (auth : String) (key : ApiKey)
      → Presents auth key
      → (extract_bearer_token auth ≢ "")
        × (get_by_hash (hash_key (extract_bearer_token auth)) ≡ some key)
  Presents-token auth key (token, e, filled, found) =
      let is_token : extract_bearer_token auth ≡ token =
        rw e (extracted_of_bearer _ token (strip_prefix-append bearer token)) in
      rw is_token (filled, found)

  presented :
      (auth : String) (key : ApiKey) (now : ℕ) (allowed : List String)
      → Presents auth key
      → authenticate hash_key get_by_hash now allowed auth ≡ check_key now allowed key
  unfolding authenticate
  presented auth key now allowed h =
      let (filled, found) = Presents-token auth key h in
      elim (Bool-cases (string_eq.beq (extract_bearer_token auth) "")) [
        | inl empty ↦ absurd (filled ((eq_iff _ _).0 empty))
        | inr other ↦ rw (other, authenticate) (rw (found, authenticate) refl)
      ]

  -- The two ends of the middleware's guards on the header: no key, or the check of the one presented.
  looked_up :
      (now : ℕ) (allowed : List String) (auth : String)
      → (authenticate hash_key get_by_hash now allowed auth ≡ unauthorized)
        ⊎ ((key : ApiKey) × Presents auth key)
  unfolding authenticate
  looked_up now allowed auth =
      let token = extract_bearer_token auth in
      elim (Bool-cases (string_eq.beq token "")) [
        | inl empty ↦ inl (rw (empty, authenticate) refl)
        | inr other ↦ elim (Option-cases (get_by_hash (hash_key token))) [
          | inl unknown ↦ inl (rw (other, authenticate) (rw (unknown, authenticate) refl))
          | inr (key, found) ↦
              let filled : token ≢ "" = λ e. let empty = (eq_iff token "").1 e in cc in
              inr (key, (token, bearer_of_extracted auth filled, filled, found))
        ]
      ]

  -- A request reaches the handler exactly if its header is Bearer, a space and a token that is not
  -- empty, whose hash is that of a stored key which has not expired and whose role is among the
  -- allowed ones, or any role if none is listed. It is then that key's role and id which it carries.
  pub authenticate-admitted_iff :
      (now : ℕ) (allowed : List String) (auth : String) (key : ApiKey)
      → (authenticate hash_key get_by_hash now allowed auth ≡ admitted key)
        ↔ (Presents auth key × NotExpired now key.expires_at × MayPass allowed key.role)
  authenticate-admitted_iff now allowed auth key = (
    λ e. elim (looked_up now allowed auth) [
      | inl denied ↦ cc
      | inr (found, h) ↦
          let checked =
            (check_key_iff now allowed found key).0
              (sym (presented auth found now allowed h) ∙ e) in
          rw (← checked.0) (h, checked.1, checked.2)
    ],
    λ (h, time, role).
        presented auth key now allowed h ∙ (check_key_iff now allowed key key).1 (refl, time, role),
  )

  -- A request is answered with 403 exactly if it presents a key which has not expired and whose role
  -- is not among the allowed ones.
  pub authenticate-forbidden_iff :
      (now : ℕ) (allowed : List String) (auth : String)
      → (authenticate hash_key get_by_hash now allowed auth ≡ forbidden) ↔ (
          (key : ApiKey) × Presents auth key
          × NotExpired now key.expires_at
          × (¬ MayPass allowed key.role))
  authenticate-forbidden_iff now allowed auth = (
    λ e. elim (looked_up now allowed auth) [
      | inl denied ↦ cc
      | inr (found, h) ↦
          let checked =
            (forbidden_iff now allowed found).0 (sym (presented auth found now allowed h) ∙ e) in
          (found, h, checked.0, checked.1)
    ],
    λ (key, h, time, role).
        presented auth key now allowed h ∙ (forbidden_iff now allowed key).1 (time, role),
  )
