-- ===== src/Server/Agents.antt =====
-- internal/server/api/handler/agent.go: the handlers of agents. The repositories are parameters,
-- operations on a state `S`, and `now` is the time of the request. A request's body is what
-- json.Decoder makes of it: `inl` is the text of its error. Log lines are left out.
use Prim.Native.String.{◌++◌}
use netvantage.Prelude.{
  ℕ, Option, none, some, List, String, ℤ, ◌⊎◌, inl, inr, ◌||◌, ◌==◌, string_eq, if◌then◌else◌,
}
use netvantage.Server.Response.{
  Error, Response, error_response, write_json, invalid, empty, confirmation,
}
use netvantage.Server.Pops.{PopRepository}

-- `capabilities` and `labels` are a slice and a map, `none` for nil.
pub record Agent : Type 0 where
  pub id : String
  pub pop_name : String
  pub version : String
  pub status : String
  pub capabilities : Option (List String)
  pub labels : Option (List (String × String))
  pub last_heartbeat : ℕ
  pub registered_at : ℕ
  pub updated_at : ℕ

pub record Heartbeat : Type 0 where
  pub agent_id : String
  pub pop_name : String
  pub version : String
  pub timestamp : ℕ
  pub status : String
  pub active_tests : ℤ

-- AgentRepository.
pub record AgentRepository {ℓ} (S : Type ℓ) : Type ℓ where
  pub create_agent : Agent → S → S × Option Error
  pub get_agent : String → S → Error ⊎ Agent
  pub list_agents : S → Error ⊎ List Agent
  pub update_heartbeat : String → Heartbeat → S → S × Option Error
  pub delete_agent : String → S → S × Option Error

pub record RegisterRequest : Type 0 where
  pub id : String
  pub pop_name : String
  pub version : String
  pub capabilities : Option (List String)
  pub labels : Option (List (String × String))

pub record HeartbeatRequest : Type 0 where
  pub version : String
  pub status : String
  pub active_tests : ℤ

-- The agent that Register builds from a request.
unfoldable pub new_agent : ℕ → RegisterRequest → Agent
new_agent now req = record {
  id = req.id;
  pop_name = req.pop_name;
  version = req.version;
  status = "online";
  capabilities = req.capabilities;
  labels = req.labels;
  last_heartbeat = now;
  registered_at = now;
  updated_at = 0;
}

-- The Heartbeat that the handler builds from a request.
unfoldable pub new_heartbeat : ℕ → String → HeartbeatRequest → Heartbeat
new_heartbeat now id req = record {
  agent_id = id;
  pop_name = "";
  version = req.version;
  timestamp = now;
  status = req.status;
  active_tests = req.active_tests;
}

module _ {ℓ} {F : Type 0} {S : Type ℓ} (quote : String → String) (agents : AgentRepository S)
    (pops : PopRepository F S) (now : ℕ) where
  -- `quote` is the verb %q of the package fmt.
  unfoldable pub register : String ⊎ RegisterRequest → S → S × Response Agent
  register (inl text) s = (s, error_response (invalid text))
  register (inr req) s =
      if req.id == "" || req.pop_name == ""
      then (s, error_response (invalid "id and pop_name are required"))
      else elim (pops.get_pop req.pop_name s) [
        | inl err ↦ (s, error_response (invalid ("pop " ++ (quote req.pop_name ++ " not found"))))
        | inr pop ↦
            let (s', failed) = agents.create_agent (new_agent now req) s in
            (
              s',
              elim failed [
                | some err ↦ error_response err
                | none ↦ write_json 201 (new_agent now req)
              ],
            )
      ]

module _ {ℓ} {S : Type ℓ} (agents : AgentRepository S) where
  pub list : S → Response (List Agent)
  list s = elim (agents.list_agents s) [
    | inl err ↦ error_response err
    | inr found ↦ write_json 200 found
  ]

  pub get : String → S → Response Agent
  get id s = elim (agents.get_agent id s) [
    | inl err ↦ error_response err
    | inr a ↦ write_json 200 a
  ]

  unfoldable pub delete : String → S → S × Response Agent
  delete id s =
      let (s', failed) = agents.delete_agent id s in
      (
        s',
        elim failed [
          | some err ↦ error_response err
          | none ↦ record { status = 204; body = empty }
        ],
      )

  unfoldable pub heartbeat : ℕ → String → String ⊎ HeartbeatRequest → S → S × Response Agent
  heartbeat now id (inl text) s = (s, error_response (invalid text))
  heartbeat now id (inr req) s =
      let (s', failed) = agents.update_heartbeat id (new_heartbeat now id req) s in
      (
        s',
        elim failed [
          | some err ↦ error_response err
          | none ↦ record { status = 200; body = confirmation "ok" }
        ],
      )
