-- ===== src/Server/Database/Soundness/Reachable.antt =====
-- The tables after any sequence of the repositories' writes, of internal/server/repository/postgres.
use netvantage.Prelude.{ℕ, Option, List, [], String}
use netvantage.Transport.{Payload}
use netvantage.Server.Tests.{TestDefinition}
use netvantage.Server.Pops.{Pop}
use netvantage.Server.Agents.{Agent, Heartbeat}
use netvantage.Server.Database.{Assignment, Database, Violation}
use netvantage.Server.Database.Tests.{create_test, update_test, delete_test}
use netvantage.Server.Database.Assignments.{assign, unassign}
use netvantage.Server.Database.Places.{
  create_pop, delete_pop, create_agent, update_heartbeat, delete_agent,
}
use netvantage.Server.Database.Soundness.{IsSound}
use netvantage.Server.Database.Soundness.Writes.{
  create_test-IsSound, update_test-IsSound, delete_test-IsSound, assign-IsSound, unassign-IsSound,
}
use netvantage.Server.Database.Soundness.PlaceWrites.{
  create_pop-IsSound, delete_pop-IsSound, create_agent-IsSound, update_heartbeat-IsSound,
  delete_agent-IsSound,
}

-- The migrated database.
abbrev pub migrated : {F : Type 0} → Database F
migrated = record { pops = []; agents = []; tests = []; assignments = []; last_assignment = 0 }

module _ {F : Type 0} (jsonb : Payload → Option Payload) (text : Violation → String)
    (sort : List TestDefinition → List TestDefinition)
    (sort_assignments : List Assignment → List Assignment) (sort_pops : List (Pop F) → List (Pop F))
    (sort_agents : List Agent → List Agent) where
  -- One write, at any time and with any arguments, whether it fails or not.
  pub data Writes : Database F → Database F → Type 0 where
    creates_test :
        (now : ℕ) (t : TestDefinition) (db : Database F)
        → Writes db (create_test now jsonb text sort t db).0
    updates_test :
        (now : ℕ) (t : TestDefinition) (db : Database F)
        → Writes db (update_test now jsonb text sort t db).0
    deletes_test :
        (now : ℕ) (id : String) (db : Database F)
        → Writes db (delete_test now jsonb text sort id db).0
    assigns :
        (now : ℕ) (id pop : String) (db : Database F)
        → Writes db (assign now text sort_assignments id pop db).0
    unassigns :
        (now : ℕ) (id pop : String) (db : Database F)
        → Writes db (unassign now text sort_assignments id pop db).0
    creates_pop :
        (now : ℕ) (p : Pop F) (db : Database F)
        → Writes db (create_pop now text sort_pops sort_agents p db).0
    deletes_pop :
        (now : ℕ) (name : String) (db : Database F)
        → Writes db (delete_pop now text sort_pops sort_agents name db).0
    creates_agent :
        (now : ℕ) (a : Agent) (db : Database F)
        → Writes db (create_agent now text sort_pops sort_agents a db).0
    beats :
        (now : ℕ) (id : String) (hb : Heartbeat) (db : Database F)
        → Writes db (update_heartbeat now text sort_pops sort_agents id hb db).0
    deletes_agent :
        (now : ℕ) (id : String) (db : Database F)
        → Writes db (delete_agent now text sort_pops sort_agents id db).0

  -- What a sequence of writes makes of the migrated database.
  pub data Reachable : Database F → Type 0 where
    start : Reachable migrated
    after : (db db' : Database F) → Reachable db → Writes db db' → Reachable db'

  step-IsSound : (db db' : Database F) → Writes db db' → IsSound db → IsSound db'
  step-IsSound db db' (creates_test now t _) h = create_test-IsSound now jsonb text sort t db h
  step-IsSound db db' (updates_test now t _) h = update_test-IsSound now jsonb text sort t db h
  step-IsSound db db' (deletes_test now id _) h = delete_test-IsSound now jsonb text sort id db h
  step-IsSound db db' (assigns now id pop _) h =
      assign-IsSound now text sort_assignments id pop db h
  step-IsSound db db' (unassigns now id pop _) h =
      unassign-IsSound now text sort_assignments id pop db h
  step-IsSound db db' (creates_pop now p _) h =
      create_pop-IsSound now text sort_pops sort_agents p db h
  step-IsSound db db' (deletes_pop now name _) h =
      delete_pop-IsSound now text sort_pops sort_agents name db h
  step-IsSound db db' (creates_agent now a _) h =
      create_agent-IsSound now text sort_pops sort_agents a db h
  step-IsSound db db' (beats now id hb _) h =
      update_heartbeat-IsSound now text sort_pops sort_agents id hb db h
  step-IsSound db db' (deletes_agent now id _) h =
      delete_agent-IsSound now text sort_pops sort_agents id db h

  -- After any sequence of the repositories' writes on the migrated database, failed ones included, the
  -- keys of the tests, POPs and agents are unique, every assignment's test exists, and its POP if it
  -- names one, every agent's POP exists, and no two assignments of a test name one POP.
  pub Reachable-IsSound : (db : Database F) → Reachable db → IsSound db
  Reachable-IsSound db start = record {
    tests_keyed = tt;
    pops_keyed = tt;
    agents_keyed = tt;
    tests_there = tt;
    pops_there = tt;
    homes_there = tt;
    unique = tt;
  }
  Reachable-IsSound db (after before _ reached step) =
      step-IsSound before db step (Reachable-IsSound before reached)
