-- ===== src/Server/Database/Soundness/Writes.antt =====
-- Every write of test definitions and assignments, of internal/server/repository/postgres, keeps the
-- tables sound.
use netvantage.Prelude.{
  ℕ, ◌≡◌, refl, inl, inr, Bool, true, Option, none, some, List, String, not, ◌==◌, string_eq,
  eq_iff, arith, Bool-cases, Option-cases,
}
use netvantage.Transport.{Payload}
use netvantage.Server.Table.{
  find, exists, All-weaken, All-filter, remove-IsKeyed, change-IsKeyed, exists-remove,
  exists-change,
}
use netvantage.Server.Tests.{TestDefinition}
use netvantage.Server.Database.{Assignment, Database, Violation}
use netvantage.Server.Database.Tests.{set_row, create_test, update_test, delete_test}
use netvantage.Server.Database.Assignments.{to_null, conflicts, matches, refers, assign, unassign}
use netvantage.Server.Database.Soundness.{
  HasTest, HasPopIfGiven, IsSound, filter-IsUnique, exists-cons,
}

module _ {F : Type 0} (now : ℕ) (jsonb : Payload → Option Payload) (text : Violation → String)
    (sort : List TestDefinition → List TestDefinition) where
  pub create_test-IsSound :
      (t : TestDefinition) (db : Database F)
      → IsSound db
      → IsSound (create_test now jsonb text sort t db).0
  unfolding create_test
  create_test-IsSound t db h = elim (Option-cases (jsonb t.config)) [
    | inl bad ↦ rw (bad, create_test) h
    | inr (config, good) ↦ elim (Option-cases (find (λ u. u.id) t.id db.tests)) [
      | inr (u, there) ↦ rw (good, create_test) (rw (there, create_test) h)
      | inl new ↦
          rw (good, create_test)
            (rw (new, create_test)
              (record {
                tests_keyed = (new, h.tests_keyed);
                pops_keyed = h.pops_keyed;
                agents_keyed = h.agents_keyed;
                tests_there =
                    All-weaken db.assignments (λ a. exists-cons _ _ db.tests) h.tests_there;
                pops_there = h.pops_there;
                homes_there = h.homes_there;
                unique = h.unique;
              }))
    ]
  ]

  pub update_test-IsSound :
      (t : TestDefinition) (db : Database F)
      → IsSound db
      → IsSound (update_test now jsonb text sort t db).0
  unfolding update_test
  update_test-IsSound t db h = elim (Option-cases (jsonb t.config)) [
    | inl bad ↦ rw (bad, update_test) h
    | inr (config, good) ↦ elim (Option-cases (find (λ u. u.id) t.id db.tests)) [
      | inl gone ↦ rw (good, update_test) (rw (gone, update_test) h)
      | inr (u, there) ↦
          rw (good, update_test)
            (rw (there, update_test)
              (record {
                tests_keyed =
                    change-IsKeyed (λ u. u.id) (set_row now config t) (λ x. refl) t.id db.tests
                      h.tests_keyed;
                pops_keyed = h.pops_keyed;
                agents_keyed = h.agents_keyed;
                tests_there =
                    All-weaken db.assignments
                      (λ a.
                        exists-change (λ u. u.id) (set_row now config t) (λ x. refl) t.id a.test_id
                          db.tests)
                      h.tests_there;
                pops_there = h.pops_there;
                homes_there = h.homes_there;
                unique = h.unique;
              }))
    ]
  ]

  pub delete_test-IsSound :
      (id : String) (db : Database F)
      → IsSound db
      → IsSound (delete_test now jsonb text sort id db).0
  unfolding delete_test
  delete_test-IsSound id db h = elim (Option-cases (find (λ u. u.id) id db.tests)) [
    | inl gone ↦ rw (gone, delete_test) h
    | inr (u, there) ↦
        rw (there, delete_test)
          (record {
            tests_keyed = remove-IsKeyed (λ u. u.id) id db.tests h.tests_keyed;
            pops_keyed = h.pops_keyed;
            agents_keyed = h.agents_keyed;
            tests_there =
                All-filter (λ a. not (a.test_id == id)) db.assignments
                  (λ a kept.
                    exists-remove (λ u. u.id) id a.test_id db.tests
                      (ground (arith, eq_iff id a.test_id, eq_iff a.test_id id)))
                  h.tests_there;
            pops_there =
                All-filter (λ a. not (a.test_id == id)) db.assignments (λ a kept there. there)
                  h.pops_there;
            homes_there = h.homes_there;
            unique = filter-IsUnique (λ a. not (a.test_id == id)) db.assignments h.unique;
          })
  ]

-- What the checks of `assign` on the references say.
refers-HasPopIfGiven :
    {F : Type 0} (id : String) (pop : Option String) (db : Database F)
    → refers id pop db ≡ true
    → HasTest db.tests id × HasPopIfGiven db.pops pop
refers-HasPopIfGiven id none db h = (ground arith, tt)
refers-HasPopIfGiven id (some name) db h = (ground arith, ground arith)

module _ {F : Type 0} (now : ℕ) (text : Violation → String)
    (sort : List Assignment → List Assignment) where
  pub assign-IsSound :
      (id pop : String) (db : Database F) → IsSound db → IsSound (assign now text sort id pop db).0
  unfolding assign
  assign-IsSound id pop db h =
      elim (Bool-cases (exists (conflicts id (to_null pop)) db.assignments)) [
        | inl taken ↦ rw taken (record {
          tests_keyed = h.tests_keyed;
          pops_keyed = h.pops_keyed;
          agents_keyed = h.agents_keyed;
          tests_there = h.tests_there;
          pops_there = h.pops_there;
          homes_there = h.homes_there;
          unique = h.unique;
        })
        | inr free ↦ elim (Bool-cases (refers id (to_null pop) db)) [
          | inr dangling ↦ rw free (
              rw dangling (record {
                tests_keyed = h.tests_keyed;
                pops_keyed = h.pops_keyed;
                agents_keyed = h.agents_keyed;
                tests_there = h.tests_there;
                pops_there = h.pops_there;
                homes_there = h.homes_there;
                unique = h.unique;
              }))
          | inl good ↦
              let (test, place) = refers-HasPopIfGiven id (to_null pop) db good in
              rw free (
                rw good (record {
                  tests_keyed = h.tests_keyed;
                  pops_keyed = h.pops_keyed;
                  agents_keyed = h.agents_keyed;
                  tests_there = (test, h.tests_there);
                  pops_there = (place, h.pops_there);
                  homes_there = h.homes_there;
                  unique = (free, h.unique);
                }))
        ]
      ]

  pub unassign-IsSound :
      (id pop : String) (db : Database F)
      → IsSound db
      → IsSound (unassign now text sort id pop db).0
  unfolding unassign
  unassign-IsSound id pop db h =
      let keep : Assignment → Bool = λ a. not (matches id (to_null pop) a) in
      elim (Bool-cases (exists (matches id (to_null pop)) db.assignments)) [
        | inr gone ↦ rw gone h
        | inl there ↦ rw there (record {
          tests_keyed = h.tests_keyed;
          pops_keyed = h.pops_keyed;
          agents_keyed = h.agents_keyed;
          tests_there = All-filter keep db.assignments (λ a kept x. x) h.tests_there;
          pops_there = All-filter keep db.assignments (λ a kept x. x) h.pops_there;
          homes_there = h.homes_there;
          unique = filter-IsUnique keep db.assignments h.unique;
        })
      ]
