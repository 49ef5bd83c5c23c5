-- ===== src/Server/Database/Tests.antt =====
-- internal/server/repository/postgres/test.go: the repository of test definitions.
use netvantage.Prelude.{
  ℕ, Bool, true, Option, none, some, List, [], ◌∷◌, ◌++◌, String, ◌⊎◌, inl, inr, ◌&&◌, not, ◌==◌,
  string_eq, if◌then◌else◌,
}
use netvantage.Transport.{Payload}
use netvantage.Server.Response.{Error}
use netvantage.Server.Table.{find, remove, change, exists, filter}
use netvantage.Server.Tests.{TestDefinition}
use netvantage.Server.Database.{
  Assignment, Database, Violation, bad_json, duplicate, missing, violated,
}

-- The row that an INSERT of a definition writes.
abbrev pub new_row : ℕ → Payload → TestDefinition → TestDefinition
new_row now config t = record t { config = config; created_at = now; updated_at = now }

-- The row that an UPDATE with a definition's columns leaves, the trigger's time in it.
abbrev pub set_row : ℕ → Payload → TestDefinition → TestDefinition → TestDefinition
set_row now config t row = record t {
  id = row.id;
  config = config;
  created_at = row.created_at;
  updated_at = now;
}

-- The condition of the join on the rows of the two tables, with WHERE.
abbrev pub selects : String → TestDefinition → Assignment → Bool
selects pop t a =
    t.id == a.test_id && t.enabled && (elim a.pop_name [ none ↦ true | some name ↦ name == pop ])

-- One copy of a definition for each assignment that selects it.
unfoldable pub copies : String → TestDefinition → List Assignment → List TestDefinition
copies pop t [] = []
copies pop t (a ∷ assignments) =
    let rest = copies pop t assignments in if selects pop t a then t ∷ rest else rest

unfoldable pub join : String → List TestDefinition → List Assignment → List TestDefinition
join pop [] assignments = []
join pop (t ∷ tests) assignments = copies pop t assignments ++ join pop tests assignments

-- SELECT DISTINCT. The columns hold the primary key, so rows are equal if their ids are.
unfoldable pub distinct : List TestDefinition → List TestDefinition
distinct [] = []
distinct (t ∷ tests) =
    let rest = distinct tests in if exists (λ u. u.id == t.id) rest then rest else t ∷ rest

module _ {F : Type 0} (now : ℕ) (jsonb : Payload → Option Payload) (text : Violation → String)
    (sort : List TestDefinition → List TestDefinition) where
  unfoldable pub create_test : TestDefinition → Database F → Database F × Option Error
  create_test t db = elim (jsonb t.config) [
    | none ↦ (db, some (violated text bad_json))
    | some config ↦ elim (find (λ u. u.id) t.id db.tests) [
      | some u ↦ (db, some duplicate)
      | none ↦ (record db { tests = new_row now config t ∷ db.tests }, none)
    ]
  ]

  unfoldable pub get_test : String → Database F → Error ⊎ TestDefinition
  get_test id db = elim (find (λ u. u.id) id db.tests) [ none ↦ inl missing | some t ↦ inr t ]

  pub list_tests : Database F → Error ⊎ List TestDefinition
  list_tests db = inr (sort db.tests)

  -- A value for no row is checked too.
  unfoldable pub update_test : TestDefinition → Database F → Database F × Option Error
  update_test t db = elim (jsonb t.config) [
    | none ↦ (db, some (violated text bad_json))
    | some config ↦ elim (find (λ u. u.id) t.id db.tests) [
      | none ↦ (db, some missing)
      | some u ↦
          (record db { tests = change (λ u. u.id) t.id (set_row now config t) db.tests }, none)
    ]
  ]

  -- The assignments of the definition go with it: ON DELETE CASCADE.
  unfoldable pub delete_test : String → Database F → Database F × Option Error
  delete_test id db = elim (find (λ u. u.id) id db.tests) [
    | none ↦ (db, some missing)
    | some u ↦ (
      record db {
        tests = remove (λ u. u.id) id db.tests;
        assignments = filter (λ a. not (a.test_id == id)) db.assignments;
      },
      none,
    )
  ]

  unfoldable pub list_by_pop : String → Database F → Error ⊎ List TestDefinition
  list_by_pop pop db = inr (sort (distinct (join pop db.tests db.assignments)))
