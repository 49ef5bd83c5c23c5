-- ===== src/Server/Pops.antt =====
-- internal/server/api/handler/pop.go: the handlers of POPs. The repository is a parameter, operations on
-- a state `S`; `F` stands for float64. A request's body is what json.Decoder makes of it: `inl` is the
-- text of its error. Log lines are left out.
use netvantage.Prelude.{
  ℕ, Option, none, some, List, String, ◌⊎◌, inl, inr, ◌==◌, string_eq, if◌then◌else◌,
}
use netvantage.Server.Response.{Error, Response, error_response, write_json, invalid, empty}

-- `labels` is a map with text keys, `none` for nil.
pub record Pop (F : Type 0) : Type 0 where
  pub name : String
  pub provider : String
  pub city : String
  pub country : String
  pub latitude : Option F
  pub longitude : Option F
  pub labels : Option (List (String × String))
  pub created_at : ℕ
  pub updated_at : ℕ

-- PopRepository.
pub record PopRepository {ℓ} (F : Type 0) (S : Type ℓ) : Type ℓ where
  pub create_pop : Pop F → S → S × Option Error
  pub get_pop : String → S → Error ⊎ Pop F
  pub list_pops : S → Error ⊎ List (Pop F)
  pub delete_pop : String → S → S × Option Error

pub record CreatePopRequest (F : Type 0) : Type 0 where
  pub name : String
  pub provider : String
  pub city : String
  pub country : String
  pub latitude : Option F
  pub longitude : Option F
  pub labels : Option (List (String × String))

-- The POP that Create builds from a request.
unfoldable pub new_pop : {F : Type 0} → CreatePopRequest F → Pop F
new_pop req = record {
  name = req.name;
  provider = req.provider;
  city = req.city;
  country = req.country;
  latitude = req.latitude;
  longitude = req.longitude;
  labels = req.labels;
  created_at = 0;
  updated_at = 0;
}

module _ {ℓ} {F : Type 0} {S : Type ℓ} (repo : PopRepository F S) where
  unfoldable pub create : String ⊎ CreatePopRequest F → S → S × Response (Pop F)
  create (inl text) s = (s, error_response (invalid text))
  create (inr req) s =
      if req.name == ""
      then (s, error_response (invalid "name is required"))
      else (let (s', failed) = repo.create_pop (new_pop req) s in
          (s', elim failed [ some err ↦ error_response err | none ↦ write_json 201 (new_pop req) ]))

  pub list : S → Response (List (Pop F))
  list s = elim (repo.list_pops s) [ inl err ↦ error_response err | inr ps ↦ write_json 200 ps ]

  pub get : String → S → Response (Pop F)
  get name s = elim (repo.get_pop name s) [
    | inl err ↦ error_response err
    | inr p ↦ write_json 200 p
  ]

  unfoldable pub delete : String → S → S × Response (Pop F)
  delete name s =
      let (s', failed) = repo.delete_pop name s in
      (
        s',
        elim failed [
          | some err ↦ error_response err
          | none ↦ record { status = 204; body = empty }
        ],
      )
