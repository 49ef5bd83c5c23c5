-- ===== src/Server/Database/Places.antt =====
-- internal/server/repository/postgres/pop.go and agent.go: the repositories of POPs and agents.
use netvantage.Prelude.{
  ℕ, Bool, false, Option, none, some, List, ◌∷◌, String, ◌⊎◌, inl, inr, not, ◌==◌, string_eq,
  if◌then◌else◌,
}
use netvantage.Server.Response.{Error}
use netvantage.Server.Table.{find, remove, change, exists, filter}
use netvantage.Server.Pops.{Pop, PopRepository}
use netvantage.Server.Agents.{Agent, Heartbeat, AgentRepository}
use netvantage.Server.Database.{
  Assignment, Database, Violation, foreign_key, not_null, duplicate, missing, violated,
}

abbrev pub is_at : String → Assignment → Bool
is_at pop a = elim a.pop_name [ none ↦ false | some name ↦ name == pop ]

module _ {F : Type 0} (now : ℕ) (text : Violation → String)
    (sort_pops : List (Pop F) → List (Pop F)) (sort_agents : List Agent → List Agent) where
  unfoldable pub create_pop : Pop F → Database F → Database F × Option Error
  create_pop p db = elim (find (λ q. q.name) p.name db.pops) [
    | some q ↦ (db, some duplicate)
    | none ↦ (record db { pops = record p { created_at = now; updated_at = now } ∷ db.pops }, none)
  ]

  unfoldable pub get_pop : String → Database F → Error ⊎ Pop F
  get_pop name db = elim (find (λ q. q.name) name db.pops) [ none ↦ inl missing | some p ↦ inr p ]

  pub list_pops : Database F → Error ⊎ List (Pop F)
  list_pops db = inr (sort_pops db.pops)

  -- A POP that an agent refers to stays; the assignments to it go with it.
  unfoldable pub delete_pop : String → Database F → Database F × Option Error
  delete_pop name db = elim (find (λ q. q.name) name db.pops) [
    | none ↦ (db, some missing)
    | some q ↦
        if exists (λ a. a.pop_name == name) db.agents
        then (db, some (violated text foreign_key))
        else (
          record db {
            pops = remove (λ q. q.name) name db.pops;
            assignments = filter (λ a. not (is_at name a)) db.assignments;
          },
          none,
        )
  ]

  -- The driver writes a nil slice as NULL.
  unfoldable pub create_agent : Agent → Database F → Database F × Option Error
  create_agent a db = elim a.capabilities [
    | none ↦ (db, some (violated text not_null))
    | some names ↦ elim (find (λ b. b.id) a.id db.agents) [
      | some b ↦ (db, some duplicate)
      | none ↦
          if exists (λ q. q.name == a.pop_name) db.pops
          then (record db { agents = record a { updated_at = now } ∷ db.agents }, none)
          else (db, some (violated text foreign_key))
    ]
  ]

  unfoldable pub get_agent : String → Database F → Error ⊎ Agent
  get_agent id db = elim (find (λ b. b.id) id db.agents) [ none ↦ inl missing | some a ↦ inr a ]

  pub list_agents : Database F → Error ⊎ List Agent
  list_agents db = inr (sort_agents db.agents)

  abbrev pub beat : Heartbeat → Agent → Agent
  beat hb a = record a {
    last_heartbeat = hb.timestamp;
    status = hb.status;
    version = hb.version;
    updated_at = now;
  }

  unfoldable pub update_heartbeat : String → Heartbeat → Database F → Database F × Option Error
  update_heartbeat id hb db = elim (find (λ b. b.id) id db.agents) [
    | none ↦ (db, some missing)
    | some a ↦ (record db { agents = change (λ b. b.id) id (beat hb) db.agents }, none)
  ]

  unfoldable pub delete_agent : String → Database F → Database F × Option Error
  delete_agent id db = elim (find (λ b. b.id) id db.agents) [
    | none ↦ (db, some missing)
    | some a ↦ (record db { agents = remove (λ b. b.id) id db.agents }, none)
  ]

  unfoldable pub pop_repository : PopRepository F (Database F)
  pop_repository = record {
    create_pop = create_pop;
    get_pop = get_pop;
    list_pops = list_pops;
    delete_pop = delete_pop;
  }

  unfoldable pub agent_repository : AgentRepository (Database F)
  agent_repository = record {
    create_agent = create_agent;
    get_agent = get_agent;
    list_agents = list_agents;
    update_heartbeat = update_heartbeat;
    delete_agent = delete_agent;
  }
