-- ===== src/Server/Router/Sound/Handlers.antt =====
-- What the handlers of the routes make of tables that the repositories can make.
use netvantage.Prelude.{
  ℕ, ◌⊎◌, inl, inr, List, String, Bool-cases, Sum-cases, ◌||◌, ◌==◌, string_eq,
}
use netvantage.Server.AuditLog.{AuditLog}
use netvantage.Server.Tests.{CreateTestRequest, UpdateTestRequest, accepts_type, merge}
use netvantage.Server.Tests
use netvantage.Server.Tests.Create.{create-Inv, assign_pops-Inv}
use netvantage.Server.Pops.{CreatePopRequest, new_pop}
use netvantage.Server.Pops
use netvantage.Server.Agents.{RegisterRequest, HeartbeatRequest, new_agent, new_heartbeat}
use netvantage.Server.Agents
use netvantage.Server.Database.{Database}
use netvantage.Server.Database.Tests.{get_test as find_test}
use netvantage.Server.Database.Places.{get_pop as find_pop, pop_repository, agent_repository}
use netvantage.Server.Database.Delivery.{repositories}
use netvantage.Server.Database.Soundness.Reachable.{
  Reachable, after, creates_test, updates_test, deletes_test, assigns, creates_pop, deletes_pop,
  creates_agent, beats, deletes_agent,
}
use netvantage.Server.Routes.{
  Call, register_agent, list_agents, get_agent, delete_agent, heartbeat, config_sync, create_pop,
  list_pops, get_pop, delete_pop, create_test, list_tests, get_test, update_test, delete_test,
  assign_test, list_entries,
}
use netvantage.Server.Router.{World, dispatch}

module _ {F : Type 0} (w : World F) where
  -- The tables that the repositories' writes can make of the migrated database.
  abbrev pub Reached : Database F → Type 0
  Reached = Reachable w.jsonb w.text w.sort_tests w.sort_assignments w.sort_pops w.sort_agents

  register-Reached :
      (now : ℕ) (body : String ⊎ RegisterRequest) (db : Database F)
      → Reached db
      → Reached
          (Agents.register w.quote
            (agent_repository now w.text w.sort_pops w.sort_agents)
            (pop_repository now w.text w.sort_pops w.sort_agents)
            now
            body
            db).0
  unfolding Agents.register agent_repository pop_repository
  register-Reached now (inl bad) db h = h
  register-Reached now (inr req) db h = elim (Bool-cases (req.id == "" || req.pop_name == "")) [
    | inl bad ↦ rw bad h
    | inr good ↦ elim (Sum-cases (find_pop now w.text w.sort_pops w.sort_agents req.pop_name db)) [
      | inl (err, gone) ↦ rw good (rw (gone, Agents.register) h)
      | inr (p, there) ↦
          rw good
            (rw (there, Agents.register) (after db _ h (creates_agent now (new_agent now req) db)))
    ]
  ]

  heartbeat-Reached :
      (now : ℕ) (id : String) (body : String ⊎ HeartbeatRequest) (db : Database F)
      → Reached db
      → Reached
          (Agents.heartbeat
            (agent_repository now w.text w.sort_pops w.sort_agents)
            now
            id
            body
            db).0
  unfolding Agents.heartbeat agent_repository
  heartbeat-Reached now id (inl bad) db h = h
  heartbeat-Reached now id (inr req) db h =
      after db _ h (beats now id (new_heartbeat now id req) db)

  delete_agent-Reached :
      (now : ℕ) (id : String) (db : Database F)
      → Reached db
      → Reached (Agents.delete (agent_repository now w.text w.sort_pops w.sort_agents) id db).0
  unfolding Agents.delete agent_repository
  delete_agent-Reached now id db h = after db _ h (deletes_agent now id db)

  create_pop-Reached :
      (now : ℕ) (body : String ⊎ CreatePopRequest F) (db : Database F)
      → Reached db
      → Reached (Pops.create (pop_repository now w.text w.sort_pops w.sort_agents) body db).0
  unfolding Pops.create pop_repository
  create_pop-Reached now (inl bad) db h = h
  create_pop-Reached now (inr req) db h = elim (Bool-cases (req.name == "")) [
    | inl bad ↦ rw bad h
    | inr good ↦ rw good (after db _ h (creates_pop now (new_pop req) db))
  ]

  delete_pop-Reached :
      (now : ℕ) (name : String) (db : Database F)
      → Reached db
      → Reached (Pops.delete (pop_repository now w.text w.sort_pops w.sort_agents) name db).0
  unfolding Pops.delete pop_repository
  delete_pop-Reached now name db h = after db _ h (deletes_pop now name db)

  module _ (now : ℕ) where
    abbrev over : Tests.Repositories (Database F)
    over = repositories now w.jsonb w.text w.sort_tests w.sort_assignments

    create_test-Reached :
        (body : String ⊎ CreateTestRequest) (db : Database F)
        → Reached db
        → Reached (Tests.create w.quote over body db).0
    create_test-Reached body db h =
        create-Inv w.quote over Reached (λ t s runs r. after s _ r (creates_test now t s))
          (λ id pop s r. after s _ r (assigns now id pop s)) body db h

    update_test-Reached :
        (id : String) (body : String ⊎ UpdateTestRequest) (db : Database F)
        → Reached db
        → Reached (Tests.update w.quote over id body db).0
    unfolding Tests.update Tests.update_existing
    update_test-Reached id (inl bad) db h =
        elim (Sum-cases (find_test now w.jsonb w.text w.sort_tests id db)) [
          | inl (err, gone) ↦ rw (gone, Tests.update) h
          | inr (t, there) ↦ rw (there, Tests.update) h
        ]
    update_test-Reached id (inr req) db h =
        elim (Sum-cases (find_test now w.jsonb w.text w.sort_tests id db)) [
          | inl (err, gone) ↦ rw (gone, Tests.update) h
          | inr (t, there) ↦ elim (Bool-cases (accepts_type req)) [
            | inl accepted ↦
                rw (there, Tests.update)
                  (rw (accepted, Tests.update_existing)
                    (after db _ h (updates_test now (merge req t) db)))
            | inr refused ↦ rw (there, Tests.update) (rw (refused, Tests.update_existing) h)
          ]
        ]

    delete_test-Reached :
        (id : String) (db : Database F) → Reached db → Reached (Tests.delete w.quote over id db).0
    unfolding Tests.delete
    delete_test-Reached id db h = after db _ h (deletes_test now id db)

    assign_test-Reached :
        (id : String) (body : String ⊎ List String) (db : Database F)
        → Reached db
        → Reached (Tests.assign_test w.quote over id body db).0
    unfolding Tests.assign_test
    assign_test-Reached id (inl bad) db h =
        elim (Sum-cases (find_test now w.jsonb w.text w.sort_tests id db)) [
          | inl (err, gone) ↦ rw (gone, Tests.assign_test) h
          | inr (t, there) ↦ rw (there, Tests.assign_test) h
        ]
    assign_test-Reached id (inr pops) db h =
        elim (Sum-cases (find_test now w.jsonb w.text w.sort_tests id db)) [
          | inl (err, gone) ↦ rw (gone, Tests.assign_test) h
          | inr (t, there) ↦
              rw (there, Tests.assign_test)
                (assign_pops-Inv w.quote over Reached
                  (λ t s runs r. after s _ r (creates_test now t s))
                  (λ id pop s r. after s _ r (assigns now id pop s)) id pops db h)
        ]

  pub dispatch-Reached :
      (now : ℕ) (log : AuditLog) (call : Call F) (db : Database F)
      → Reached db
      → Reached (dispatch w now log call db).0
  unfolding dispatch
  dispatch-Reached now log (register_agent body) db h = register-Reached now body db h
  dispatch-Reached now log list_agents db h = h
  dispatch-Reached now log (get_agent id) db h = h
  dispatch-Reached now log (delete_agent id) db h = delete_agent-Reached now id db h
  dispatch-Reached now log (heartbeat id body) db h = heartbeat-Reached now id body db h
  dispatch-Reached now log (config_sync id pop) db h = h
  dispatch-Reached now log (create_pop body) db h = create_pop-Reached now body db h
  dispatch-Reached now log list_pops db h = h
  dispatch-Reached now log (get_pop name) db h = h
  dispatch-Reached now log (delete_pop name) db h = delete_pop-Reached now name db h
  dispatch-Reached now log (create_test body) db h = create_test-Reached now body db h
  dispatch-Reached now log list_tests db h = h
  dispatch-Reached now log (get_test id) db h = h
  dispatch-Reached now log (update_test id body) db h = update_test-Reached now id body db h
  dispatch-Reached now log (delete_test id) db h = delete_test-Reached now id db h
  dispatch-Reached now log (assign_test id body) db h = assign_test-Reached now id body db h
  dispatch-Reached now log (list_entries limit offset resource resource_id) db h = h
