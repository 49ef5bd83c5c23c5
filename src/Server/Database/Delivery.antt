-- ===== src/Server/Database/Delivery.antt =====
-- The Create and ConfigSync handlers of internal/server/api/handler over the repositories of
-- internal/server/repository/postgres: how a definition gets to the agents.
use netvantage.Prelude.{
  ℕ, ◌≡◌, ◌≢◌, refl, ◌∙◌, inl, inr, true, false, Option, none, some, List, [], ◌∷◌, String, ◌==◌,
  string_eq, eq_iff, arith, Bool-cases, Option-cases,
}
use netvantage.Transport.{Payload}
use netvantage.Server.Table.{find, exists}
use netvantage.Server.Tests.{TestDefinition, Repositories, assign_all, assign_pops}
use netvantage.Server.Database.{Assignment, Database, Violation}
use netvantage.Server.Database.Tests.{
  new_row, create_test, get_test, list_tests, update_test, delete_test, list_by_pop,
}
use netvantage.Server.Database.Assignments.{to_null, conflicts, assign}
use netvantage.Server.Database.Selection.{is_selected}
use netvantage.Server.Database.Soundness.{HasPop, HasTest}

no_conflict : (id : String) (rows : List Assignment) → exists (conflicts id none) rows ≡ false
unfolding exists
no_conflict id [] = refl
no_conflict id (a ∷ rows) = elim (Option-cases a.pop_name) [
  | inl global ↦ ground (arith, global, no_conflict id rows)
  | inr (name, local) ↦ ground (arith, local, no_conflict id rows)
]

conflict_selects :
    (t : TestDefinition) (pop : String) (rows : List Assignment)
    → t.enabled ≡ true
    → exists (conflicts t.id (some pop)) rows ≡ true
    → is_selected pop rows t ≡ true
unfolding exists
conflict_selects t pop [] enabled h = h
conflict_selects t pop (a ∷ rows) enabled h = elim (Option-cases a.pop_name) [
  | inl global ↦
      ground
        (arith, global, eq_iff t.id a.test_id, eq_iff a.test_id t.id, conflict_selects t pop rows)
  | inr (name, local) ↦
      ground
        (arith, local, eq_iff t.id a.test_id, eq_iff a.test_id t.id, conflict_selects t pop rows)
]

to_null-filled : (pop : String) → pop ≢ "" → to_null pop ≡ some pop
to_null-filled pop filled = ground (arith, eq_iff pop "")

-- What an assignment of a definition to a POP needs of the tables.
record Ready {F : Type 0} (t : TestDefinition) (pop : String) (db : Database F) : Type 0 where
  test_there : HasTest db.tests t.id
  pop_there : HasPop db.pops pop

-- A definition is selected for a POP once it is assigned to the POP or to all.
module _ {F : Type 0} (now : ℕ) (text : Violation → String)
    (sort : List Assignment → List Assignment) (t : TestDefinition)
    (enabled : t.enabled ≡ true) where
  -- An assignment leaves what is selected selected.
  assign-selected :
      (pop id name : String) (db : Database F)
      → is_selected pop db.assignments t ≡ true
      → is_selected pop (assign now text sort id name db).0.assignments t ≡ true
  unfolding assign exists
  assign-selected pop id name db h = ground arith

  assign-Ready :
      (pop id name : String) (db : Database F)
      → Ready t pop db
      → Ready t pop (assign now text sort id name db).0
  unfolding assign
  assign-Ready pop id name db h = record {
    test_there = ground (arith, h.test_there);
    pop_there = ground (arith, h.pop_there);
  }

  assign-selects :
      (pop : String) (db : Database F)
      → pop ≢ ""
      → Ready t pop db
      → is_selected pop (assign now text sort t.id pop db).0.assignments t ≡ true
  unfolding assign exists
  assign-selects pop db filled h =
      let given = to_null-filled pop filled in
      elim (Bool-cases (exists (conflicts t.id (some pop)) db.assignments)) [
        | inl taken ↦
            rw (given, assign)
              (rw (taken, assign) (conflict_selects t pop db.assignments enabled taken))
        | inr free ↦
            rw (given, assign)
              (rw (free, assign)
                (ground (arith, h.test_there, h.pop_there, eq_iff t.id t.id, eq_iff pop pop)))
      ]

  assign-selects_all :
      (pop : String) (db : Database F)
      → HasTest db.tests t.id
      → is_selected pop (assign now text sort t.id "" db).0.assignments t ≡ true
  unfolding assign exists
  assign-selects_all pop db h =
      rw (no_conflict t.id db.assignments, assign) (ground (arith, eq_iff t.id t.id))

module _ {F : Type 0} (now : ℕ) (jsonb : Payload → Option Payload) (text : Violation → String)
    (sort : List TestDefinition → List TestDefinition)
    (sort_assignments : List Assignment → List Assignment) where
  -- The repositories that the handlers are given.
  abbrev pub repositories : Repositories (Database F)
  repositories = record {
    create_test = create_test now jsonb text sort;
    get_test = get_test now jsonb text sort;
    list_tests = list_tests now jsonb text sort;
    update_test = update_test now jsonb text sort;
    delete_test = delete_test now jsonb text sort;
    list_by_pop = list_by_pop now jsonb text sort;
    assign = assign now text sort_assignments;
  }

  assign-tests :
      (id name : String) (db : Database F)
      → (assign now text sort_assignments id name db).0.tests ≡ db.tests
  unfolding assign
  assign-tests id name db = ground arith

  -- What a definition that the repository takes leaves.
  pub create_test-taken :
      (t : TestDefinition) (db : Database F)
      → (create_test now jsonb text sort t db).1 ≡ none
      → (config : Payload) × (jsonb t.config ≡ some config)
        × ((create_test now jsonb text sort t db).0.tests ≡ new_row now config t ∷ db.tests)
        × ((create_test now jsonb text sort t db).0.pops ≡ db.pops)
  unfolding create_test
  create_test-taken t db h = elim (Option-cases (jsonb t.config)) [
    | inl bad ↦ cc (rw (bad, create_test) at h)
    | inr (config, good) ↦ elim (Option-cases (find (λ u. u.id) t.id db.tests)) [
      | inr (u, there) ↦ cc (rw (there, create_test) at (rw (good, create_test) at h))
      | inl new ↦ (
        config,
        good,
        rw (good, create_test) (rw (new, create_test) refl),
        rw (good, create_test) (rw (new, create_test) refl),
      )
    ]
  ]

  -- A request names a POP of the tables, or none.
  abbrev pub IsFor : String → List String → Database F → Type 0
  IsFor pop [] db = Unit
  IsFor pop (name ∷ names) db =
      (exists (λ other. other == pop) (name ∷ names) ≡ true) × HasPop db.pops pop

  module _ (quote : String → String) (t : TestDefinition) (enabled : t.enabled ≡ true)
      (pop : String) (filled : pop ≢ "") where
    assign_all-selected :
        (names : List String) (db : Database F)
        → is_selected pop db.assignments t ≡ true
        → is_selected pop (assign_all quote repositories t.id names db).assignments t ≡ true
    unfolding assign_all
    assign_all-selected [] db h = h
    assign_all-selected (name ∷ names) db h =
        assign_all-selected names (assign now text sort_assignments t.id name db).0
          (assign-selected now text sort_assignments t enabled pop t.id name db h)

    assign_all-selects :
        (names : List String) (db : Database F)
        → exists (λ other. other == pop) names ≡ true
        → Ready t pop db
        → is_selected pop (assign_all quote repositories t.id names db).assignments t ≡ true
    unfolding assign_all exists
    assign_all-selects [] db named h = cc
    assign_all-selects (name ∷ names) db named h = elim (Bool-cases (name == pop)) [
      | inr other ↦
          assign_all-selects names (assign now text sort_assignments t.id name db).0
            (rw other at named)
            (assign-Ready now text sort_assignments t enabled pop t.id name db h)
      | inl same ↦ assign_all-selected names (assign now text sort_assignments t.id name db).0 (
          rw ((eq_iff name pop).0 same)
            (assign-selects now text sort_assignments t enabled pop db filled h))
    ]

    pub assign_pops-selects :
        (names : List String) (db : Database F)
        → HasTest db.tests t.id
        → IsFor pop names db
        → is_selected pop (assign_pops quote repositories t.id names db).assignments t ≡ true
    unfolding assign_pops
    assign_pops-selects [] db there h =
        assign-selects_all now text sort_assignments t enabled pop db there
    assign_pops-selects (name ∷ names) db there h =
        assign_all-selects (name ∷ names) db h.0 (record { test_there = there; pop_there = h.1 })

  assign_all-tests :
      (quote : String → String) (id : String) (names : List String) (db : Database F)
      → (assign_all quote repositories id names db).tests ≡ db.tests
  unfolding assign_all
  assign_all-tests quote id [] db = refl
  assign_all-tests quote id (name ∷ names) db =
      assign_all-tests quote id names (assign now text sort_assignments id name db).0
      ∙ assign-tests id name db

  pub assign_pops-tests :
      (quote : String → String) (id : String) (names : List String) (db : Database F)
      → (assign_pops quote repositories id names db).tests ≡ db.tests
  unfolding assign_pops
  assign_pops-tests quote id [] db = assign-tests id "" db
  assign_pops-tests quote id (name ∷ names) db = assign_all-tests quote id (name ∷ names) db
