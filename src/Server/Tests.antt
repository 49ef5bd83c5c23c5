-- ===== src/Server/Tests.antt =====
-- internal/server/api/handler/test.go: the handlers of test definitions. The repositories are a
-- parameter, operations on a state `S`. A request's body is what json.Decoder makes of it: `inl` is the
-- text of its error. Log lines are left out.
pub mod Create
pub mod Update
use Prim.Native.String.{◌++◌}
use netvantage.Prelude.{
  ℕ, Bool, true, false, Option, none, some, List, [], ◌∷◌, ℤ, pos, String, ◌⊎◌, inl, inr, ◌||◌, not,
  ltb_ℤ, ◌==◌, string_eq, if◌then◌else◌,
}
use netvantage.Transport.{Payload}
use netvantage.Server.Response.{
  Error, Response, error_response, write_json, invalid, empty, error_text, confirmation,
}

pub record TestDefinition : Type 0 where
  pub id : String
  pub name : String
  pub test_type : String
  pub target : String
  pub interval_ms : ℤ
  pub timeout_ms : ℤ
  pub config : Payload
  pub enabled : Bool
  pub created_at : ℕ
  pub updated_at : ℕ

-- What the handlers call of TestRepository and TestAssignmentRepository.
pub record Repositories {ℓ} (S : Type ℓ) : Type ℓ where
  pub create_test : TestDefinition → S → S × Option Error
  pub get_test : String → S → Error ⊎ TestDefinition
  pub list_tests : S → Error ⊎ List TestDefinition
  pub update_test : TestDefinition → S → S × Option Error
  pub delete_test : String → S → S × Option Error
  pub list_by_pop : String → S → Error ⊎ List TestDefinition
  pub assign : String → String → S → S × Option Error

-- `config` and `enabled` are `none` where the body leaves them out.
pub record CreateTestRequest : Type 0 where
  pub id : String
  pub name : String
  pub test_type : String
  pub target : String
  pub interval_ms : ℤ
  pub timeout_ms : ℤ
  pub config : Option Payload
  pub enabled : Option Bool
  pub pops : List String

pub record UpdateTestRequest : Type 0 where
  pub name : String
  pub test_type : String
  pub target : String
  pub interval_ms : Option ℤ
  pub timeout_ms : Option ℤ
  pub config : Option Payload
  pub enabled : Option Bool

abbrev pub valid_test_types : String → Bool
valid_test_types t = t == "ping" || t == "dns" || t == "http" || t == "traceroute"

-- `quote` is the verb %q of the package fmt.
abbrev pub invalid_type : (String → String) → String → Error
invalid_type quote t = invalid ("invalid test_type " ++ quote t)

abbrev pub is_positive : ℤ → Bool
is_positive n = ltb_ℤ (pos 0) n

unfoldable pub validate_create_request : (String → String) → CreateTestRequest → Option Error
validate_create_request quote req =
    if req.id == ""
    then some (invalid "id is required")
    else if req.name == ""
    then some (invalid "name is required")
    else if not (valid_test_types req.test_type)
    then some (invalid_type quote req.test_type)
    else if req.target == ""
    then some (invalid "target is required")
    else if not (is_positive req.interval_ms)
    then some (invalid "interval_ms must be positive")
    else if not (is_positive req.timeout_ms)
    then some (invalid "timeout_ms must be positive")
    else none

abbrev pub or_default {ℓ} : {A : Type ℓ} → Option A → A → A
or_default none d = d
or_default (some a) d = a

-- The bytes of "{}".
abbrev pub empty_object : Payload
empty_object = 123 ∷ 125 ∷ []

-- The definition that Create builds from a request.
unfoldable pub new_test : CreateTestRequest → TestDefinition
new_test req = record {
  id = req.id;
  name = req.name;
  test_type = req.test_type;
  target = req.target;
  interval_ms = req.interval_ms;
  timeout_ms = req.timeout_ms;
  config = or_default req.config empty_object;
  enabled = or_default req.enabled true;
  created_at = 0;
  updated_at = 0;
}

abbrev pub or_keep : String → String → String
or_keep new old = if new == "" then old else new

-- The fields of a request merged into the stored definition, once its test type is accepted.
unfoldable pub merge : UpdateTestRequest → TestDefinition → TestDefinition
merge req existing = record existing {
  name = or_keep req.name existing.name;
  test_type = or_keep req.test_type existing.test_type;
  target = or_keep req.target existing.target;
  interval_ms = or_default req.interval_ms existing.interval_ms;
  timeout_ms = or_default req.timeout_ms existing.timeout_ms;
  config = or_default req.config existing.config;
  enabled = or_default req.enabled existing.enabled;
}

-- Update's guard on the test type.
abbrev pub accepts_type : UpdateTestRequest → Bool
accepts_type req = req.test_type == "" || valid_test_types req.test_type

abbrev pub body_error {ℓ} : {A : Type ℓ} → String → Response A
body_error text = error_response (invalid text)

module _ {ℓ} {S : Type ℓ} (quote : String → String) (repos : Repositories S) where
  -- The loop of Assign calls, whose errors are dropped.
  unfoldable pub assign_all : String → List String → S → S
  assign_all id [] s = s
  assign_all id (pop ∷ pops) s = assign_all id pops (repos.assign id pop s).0

  -- One global assignment if no POP is named.
  unfoldable pub assign_pops : String → List String → S → S
  assign_pops id [] s = (repos.assign id "" s).0
  assign_pops id (pop ∷ pops) s = assign_all id (pop ∷ pops) s

  unfoldable pub create : String ⊎ CreateTestRequest → S → S × Response TestDefinition
  create (inl text) s = (s, body_error text)
  create (inr req) s = elim (validate_create_request quote req) [
    | some err ↦ (s, error_response err)
    | none ↦
        let (s', failed) = repos.create_test (new_test req) s in
        elim failed [
          | some err ↦ (s', error_response err)
          | none ↦ (assign_pops req.id req.pops s', write_json 201 (new_test req))
        ]
  ]

  pub list : S → Response (List TestDefinition)
  list s = elim (repos.list_tests s) [ inl err ↦ error_response err | inr ts ↦ write_json 200 ts ]

  pub get : String → S → Response TestDefinition
  get id s = elim (repos.get_test id s) [ inl err ↦ error_response err | inr t ↦ write_json 200 t ]

  -- The end of Update: the guard on the type, the merge, and the repository's answer.
  unfoldable pub update_existing :
      UpdateTestRequest → TestDefinition → S → S × Response TestDefinition
  update_existing req existing s =
      if not (accepts_type req)
      then (s, error_response (invalid_type quote req.test_type))
      else (let (s', failed) = repos.update_test (merge req existing) s in
          (
            s',
            elim failed [
              | some err ↦ error_response err
              | none ↦ write_json 200 (merge req existing)
            ],
          ))

  unfoldable pub update : String → String ⊎ UpdateTestRequest → S → S × Response TestDefinition
  update id body s = elim (repos.get_test id s) [
    | inl err ↦ (s, error_response err)
    | inr existing ↦ elim body [
      | inl text ↦ (s, body_error text)
      | inr req ↦ update_existing req existing s
    ]
  ]

  unfoldable pub delete : String → S → S × Response TestDefinition
  delete id s =
      let (s', failed) = repos.delete_test id s in
      (
        s',
        elim failed [
          | some err ↦ error_response err
          | none ↦ record { status = 204; body = empty }
        ],
      )

  unfoldable pub assign_test : String → String ⊎ List String → S → S × Response TestDefinition
  assign_test id body s = elim (repos.get_test id s) [
    | inl err ↦ (s, error_response err)
    | inr existing ↦ elim body [
      | inl text ↦ (s, body_error text)
      | inr pops ↦ (assign_pops id pops s, record { status = 200; body = confirmation "assigned" })
    ]
  ]

  -- internal/server/api/handler/sync.go: the tests of an agent's POP, which the query names.
  unfoldable pub config_sync :
      String → String → S → Response (String × String × List TestDefinition)
  config_sync agent_id pop s =
      if pop == ""
      then record { status = 400; body = error_text "pop query parameter is required" }
      else elim (repos.list_by_pop pop s) [
        | inl err ↦ error_response err
        | inr ts ↦ write_json 200 (agent_id, pop, ts)
      ]
