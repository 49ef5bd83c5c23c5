-- ===== src/Server/Router/Audited.antt =====
-- Changes of the tables and the audit log: the handlers' statuses against what they write.
pub mod Trail
use netvantage.Prelude.{
  ℕ, ◌≤◌, ◌<◌, ◌≡◌, ◌⊎◌, refl, sym, ◌∙◌, ap, inl, inr, Bool, true, false, Option, none, some, List,
  [], ◌∷◌, String, Bool-cases, Option-cases, Sum-cases, not, ◌||◌, ◌==◌, string_eq, arith,
  if◌then◌else◌,
}
use netvantage.Transport.{Payload}
use netvantage.Server.Response.{Error, Response, error_status, ErrorKind, error_response}
use netvantage.Server.Table.{find, exists}
use netvantage.Server.Tests.{
  TestDefinition, CreateTestRequest, UpdateTestRequest, validate_create_request, new_test,
  accepts_type, merge,
}
use netvantage.Server.Tests
use netvantage.Server.Pops.{Pop, CreatePopRequest, new_pop}
use netvantage.Server.Pops
use netvantage.Server.Agents.{Agent, RegisterRequest, HeartbeatRequest, new_agent, new_heartbeat}
use netvantage.Server.Agents
use netvantage.Server.Database.{Assignment, Database, Violation}
use netvantage.Server.Database.Tests.{create_test, get_test, update_test, delete_test}
use netvantage.Server.Database.Places.{
  create_pop, delete_pop, create_agent, update_heartbeat, delete_agent, get_pop, pop_repository,
  agent_repository,
}
use netvantage.Server.Database.Delivery.{repositories}

-- The tables are as they were, or the answer is a success.
abbrev pub Succeeds {ℓ} : {F : Type 0} {A : Type ℓ} → Database F → Database F × Response A → Type 0
Succeeds db (db', r) = (db' ≡ db) ⊎ ((200 ≤ r.status) × (r.status < 400))

-- A write that fails leaves the tables as they were.
abbrev Fails : {F : Type 0} → Database F → Database F × Option Error → Type 0
Fails db (db', failed) = (failed ≡ none) ⊎ (db' ≡ db)

module _ {F : Type 0} (now : ℕ) (jsonb : Payload → Option Payload) (text : Violation → String)
    (sort : List TestDefinition → List TestDefinition) where
  create_test-Fails :
      (t : TestDefinition) (db : Database F) → Fails db (create_test now jsonb text sort t db)
  unfolding create_test
  create_test-Fails t db = ground arith

  update_test-Fails :
      (t : TestDefinition) (db : Database F) → Fails db (update_test now jsonb text sort t db)
  unfolding update_test
  update_test-Fails t db = ground arith

  delete_test-Fails :
      (id : String) (db : Database F) → Fails db (delete_test now jsonb text sort id db)
  unfolding delete_test
  delete_test-Fails id db = ground arith

module _ {F : Type 0} (now : ℕ) (text : Violation → String)
    (sort_pops : List (Pop F) → List (Pop F)) (sort_agents : List Agent → List Agent) where
  create_pop-Fails :
      (p : Pop F) (db : Database F) → Fails db (create_pop now text sort_pops sort_agents p db)
  unfolding create_pop
  create_pop-Fails p db = ground arith

  delete_pop-Fails :
      (name : String) (db : Database F)
      → Fails db (delete_pop now text sort_pops sort_agents name db)
  unfolding delete_pop
  delete_pop-Fails name db = ground arith

  create_agent-Fails :
      (a : Agent) (db : Database F) → Fails db (create_agent now text sort_pops sort_agents a db)
  unfolding create_agent
  create_agent-Fails a db = ground arith

  update_heartbeat-Fails :
      (id : String) (hb : Agents.Heartbeat) (db : Database F)
      → Fails db (update_heartbeat now text sort_pops sort_agents id hb db)
  unfolding update_heartbeat
  update_heartbeat-Fails id hb db = ground arith

  delete_agent-Fails :
      (id : String) (db : Database F) → Fails db (delete_agent now text sort_pops sort_agents id db)
  unfolding delete_agent
  delete_agent-Fails id db = ground arith

  module _ (quote : String → String) where
    pub register-Succeeds :
        (body : String ⊎ RegisterRequest) (db : Database F)
        → Succeeds db (
            Agents.register quote
              (agent_repository now text sort_pops sort_agents)
              (pop_repository now text sort_pops sort_agents)
              now
              body
              db)
    unfolding Agents.register agent_repository pop_repository
    register-Succeeds (inl bad) db = inl refl
    register-Succeeds (inr req) db = ground (arith, create_agent-Fails (new_agent now req) db)

  pub heartbeat-Succeeds :
      (id : String) (body : String ⊎ HeartbeatRequest) (db : Database F)
      → Succeeds db
          (Agents.heartbeat (agent_repository now text sort_pops sort_agents) now id body db)
  unfolding Agents.heartbeat agent_repository
  heartbeat-Succeeds id (inl bad) db = inl refl
  heartbeat-Succeeds id (inr req) db =
      ground (arith, update_heartbeat-Fails id (new_heartbeat now id req) db)

  pub delete_agent-Succeeds :
      (id : String) (db : Database F)
      → Succeeds db (Agents.delete (agent_repository now text sort_pops sort_agents) id db)
  unfolding Agents.delete agent_repository
  delete_agent-Succeeds id db = ground (arith, delete_agent-Fails id db)

  pub create_pop-Succeeds :
      (body : String ⊎ CreatePopRequest F) (db : Database F)
      → Succeeds db (Pops.create (pop_repository now text sort_pops sort_agents) body db)
  unfolding Pops.create pop_repository
  create_pop-Succeeds (inl bad) db = inl refl
  create_pop-Succeeds (inr req) db = ground (arith, create_pop-Fails (new_pop req) db)

  pub delete_pop-Succeeds :
      (name : String) (db : Database F)
      → Succeeds db (Pops.delete (pop_repository now text sort_pops sort_agents) name db)
  unfolding Pops.delete pop_repository
  delete_pop-Succeeds name db = ground (arith, delete_pop-Fails name db)

module _ {F : Type 0} (now : ℕ) (jsonb : Payload → Option Payload) (text : Violation → String)
    (sort : List TestDefinition → List TestDefinition)
    (sort_assignments : List Assignment → List Assignment) (quote : String → String) where
  pub create_test-Succeeds :
      (body : String ⊎ CreateTestRequest) (db : Database F)
      → Succeeds db (Tests.create quote (repositories now jsonb text sort sort_assignments) body db)
  unfolding Tests.create
  create_test-Succeeds (inl bad) db = inl refl
  create_test-Succeeds (inr req) db =
      ground (arith, create_test-Fails now jsonb text sort (new_test req) db)

  pub update_test-Succeeds :
      (id : String) (body : String ⊎ UpdateTestRequest) (db : Database F)
      → Succeeds db
          (Tests.update quote (repositories now jsonb text sort sort_assignments) id body db)
  unfolding Tests.update Tests.update_existing
  update_test-Succeeds id (inl bad) db = ground arith
  update_test-Succeeds id (inr req) db = elim (Sum-cases (get_test now jsonb text sort id db)) [
    | inl (err, gone) ↦ rw (gone, Tests.update) (inl refl)
    | inr (t, there) ↦
        rw (there, Tests.update)
          (ground (arith, update_test-Fails now jsonb text sort (merge req t) db))
  ]

  pub delete_test-Succeeds :
      (id : String) (db : Database F)
      → Succeeds db (Tests.delete quote (repositories now jsonb text sort sort_assignments) id db)
  unfolding Tests.delete
  delete_test-Succeeds id db = ground (arith, delete_test-Fails now jsonb text sort id db)

  pub assign_test-Succeeds :
      (id : String) (body : String ⊎ List String) (db : Database F)
      → Succeeds db
          (Tests.assign_test quote (repositories now jsonb text sort sort_assignments) id body db)
  unfolding Tests.assign_test
  assign_test-Succeeds id body db = ground arith
