-- ===== src/Server/Database/Soundness/PlaceWrites.antt =====
-- Every write of POPs and agents, of internal/server/repository/postgres, keeps the tables sound.
use netvantage.Prelude.{
  ℕ, refl, inl, inr, List, String, not, ◌==◌, string_eq, eq_iff, arith, Bool-cases, Option-cases,
}
use netvantage.Server.Table.{
  find, All-without, All-remove, All-change, exists, All-weaken, All-filter, remove-IsKeyed,
  change-IsKeyed, exists-remove,
}
use netvantage.Server.Pops.{Pop}
use netvantage.Server.Agents.{Agent, Heartbeat}
use netvantage.Server.Database.{Database, Violation}
use netvantage.Server.Database.Places.{
  is_at, create_pop, delete_pop, create_agent, update_heartbeat, delete_agent,
}
use netvantage.Server.Database.Soundness.{
  HasPop, IsSound, filter-IsUnique, exists-cons, HasPopIfGiven-weaken,
}

module _ {F : Type 0} (now : ℕ) (text : Violation → String)
    (sort_pops : List (Pop F) → List (Pop F)) (sort_agents : List Agent → List Agent) where
  pub create_pop-IsSound :
      (p : Pop F) (db : Database F)
      → IsSound db
      → IsSound (create_pop now text sort_pops sort_agents p db).0
  unfolding create_pop
  create_pop-IsSound p db h = elim (Option-cases (find (λ q. q.name) p.name db.pops)) [
    | inr (q, there) ↦ rw (there, create_pop) h
    | inl new ↦
        rw (new, create_pop)
          (record {
            tests_keyed = h.tests_keyed;
            pops_keyed = (new, h.pops_keyed);
            agents_keyed = h.agents_keyed;
            tests_there = h.tests_there;
            pops_there =
                All-weaken db.assignments
                  (λ a.
                    HasPopIfGiven-weaken db.pops _ a.pop_name (λ name e. exists-cons _ _ db.pops))
                  h.pops_there;
            homes_there = All-weaken db.agents (λ a. exists-cons _ _ db.pops) h.homes_there;
            unique = h.unique;
          })
  ]

  pub delete_pop-IsSound :
      (name : String) (db : Database F)
      → IsSound db
      → IsSound (delete_pop now text sort_pops sort_agents name db).0
  unfolding delete_pop
  delete_pop-IsSound name db h = elim (Option-cases (find (λ q. q.name) name db.pops)) [
    | inl gone ↦ rw (gone, delete_pop) h
    | inr (q, there) ↦ elim (Bool-cases (exists (λ a. a.pop_name == name) db.agents)) [
      | inl home ↦ rw (there, delete_pop) (rw (home, delete_pop) h)
      | inr free ↦
          rw (there, delete_pop)
            (rw (free, delete_pop)
              (record {
                tests_keyed = h.tests_keyed;
                pops_keyed = remove-IsKeyed (λ q. q.name) name db.pops h.pops_keyed;
                agents_keyed = h.agents_keyed;
                tests_there =
                    All-filter (λ a. not (is_at name a)) db.assignments (λ a kept x. x)
                      h.tests_there;
                pops_there =
                    All-filter (λ a. not (is_at name a)) db.assignments
                      (λ a kept. HasPopIfGiven-weaken db.pops _ a.pop_name (λ other e.
                        exists-remove (λ q. q.name) name other db.pops
                          (let kept' = rw e at kept in
                            ground (arith, eq_iff name other, eq_iff other name))))
                      h.pops_there;
                homes_there =
                    All-without (λ a. a.pop_name == name) db.agents
                      (λ a away.
                        exists-remove (λ q. q.name) name a.pop_name db.pops
                          (ground (arith, eq_iff name a.pop_name, eq_iff a.pop_name name)))
                      free h.homes_there;
                unique = filter-IsUnique (λ a. not (is_at name a)) db.assignments h.unique;
              }))
    ]
  ]

  pub create_agent-IsSound :
      (a : Agent) (db : Database F)
      → IsSound db
      → IsSound (create_agent now text sort_pops sort_agents a db).0
  unfolding create_agent
  create_agent-IsSound a db h = elim (Option-cases a.capabilities) [
    | inl null ↦ rw (null, create_agent) h
    | inr (names, given) ↦ elim (Option-cases (find (λ b. b.id) a.id db.agents)) [
      | inr (b, there) ↦ rw (given, create_agent) (rw (there, create_agent) h)
      | inl new ↦ elim (Bool-cases (exists (λ q. q.name == a.pop_name) db.pops)) [
        | inr homeless ↦
            rw (given, create_agent) (rw (new, create_agent) (rw (homeless, create_agent) h))
        | inl home ↦
            rw (given, create_agent)
              (rw (new, create_agent)
                (rw (home, create_agent)
                  (record {
                    tests_keyed = h.tests_keyed;
                    pops_keyed = h.pops_keyed;
                    agents_keyed = (new, h.agents_keyed);
                    tests_there = h.tests_there;
                    pops_there = h.pops_there;
                    homes_there = (home, h.homes_there);
                    unique = h.unique;
                  })))
      ]
    ]
  ]

  pub update_heartbeat-IsSound :
      (id : String) (hb : Heartbeat) (db : Database F)
      → IsSound db
      → IsSound (update_heartbeat now text sort_pops sort_agents id hb db).0
  unfolding update_heartbeat
  update_heartbeat-IsSound id hb db h = elim (Option-cases (find (λ b. b.id) id db.agents)) [
    | inl gone ↦ rw (gone, update_heartbeat) h
    | inr (a, there) ↦
        rw (there, update_heartbeat)
          (record {
            tests_keyed = h.tests_keyed;
            pops_keyed = h.pops_keyed;
            agents_keyed = change-IsKeyed (λ b. b.id) _ (λ x. refl) id db.agents h.agents_keyed;
            tests_there = h.tests_there;
            pops_there = h.pops_there;
            homes_there =
                All-change (λ a. HasPop db.pops a.pop_name) (λ b. b.id) id _ (λ x home. home)
                  db.agents h.homes_there;
            unique = h.unique;
          })
  ]

  pub delete_agent-IsSound :
      (id : String) (db : Database F)
      → IsSound db
      → IsSound (delete_agent now text sort_pops sort_agents id db).0
  unfolding delete_agent
  delete_agent-IsSound id db h = elim (Option-cases (find (λ b. b.id) id db.agents)) [
    | inl gone ↦ rw (gone, delete_agent) h
    | inr (a, there) ↦
        rw (there, delete_agent)
          (record {
            tests_keyed = h.tests_keyed;
            pops_keyed = h.pops_keyed;
            agents_keyed = remove-IsKeyed (λ b. b.id) id db.agents h.agents_keyed;
            tests_there = h.tests_there;
            pops_there = h.pops_there;
            homes_there =
                All-remove (λ a. HasPop db.pops a.pop_name) (λ b. b.id) id db.agents h.homes_there;
            unique = h.unique;
          })
  ]
