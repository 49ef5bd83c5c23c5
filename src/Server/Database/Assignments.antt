-- ===== src/Server/Database/Assignments.antt =====
-- internal/server/repository/postgres/assignment.go: the repository of test assignments.
use netvantage.Prelude.{
  ℕ, suc, Bool, true, false, Option, none, some, List, [], ◌∷◌, String, ◌⊎◌, inr, ◌&&◌, not, ◌==◌,
  string_eq, if◌then◌else◌,
}
use netvantage.Server.Response.{Error}
use netvantage.Server.Table.{exists, filter}
use netvantage.Server.Database.{Assignment, Database, Violation, foreign_key, missing, violated}

-- An empty name is NULL.
abbrev pub to_null : String → Option String
to_null pop = if pop == "" then none else some pop

-- `=` on a column that may be NULL: never true of NULL.
abbrev pub equals : Option String → Option String → Bool
equals none b = false
equals (some p) none = false
equals (some p) (some q) = p == q

-- IS NOT DISTINCT FROM
abbrev pub is_not_distinct : Option String → Option String → Bool
is_not_distinct none none = true
is_not_distinct none (some q) = false
is_not_distinct (some p) none = false
is_not_distinct (some p) (some q) = p == q

-- A row in the way of UNIQUE (test_id, pop_name).
abbrev pub conflicts : String → Option String → Assignment → Bool
conflicts test_id pop a = a.test_id == test_id && equals a.pop_name pop

abbrev pub matches : String → Option String → Assignment → Bool
matches test_id pop a = a.test_id == test_id && is_not_distinct a.pop_name pop

-- The references of a new row.
abbrev pub refers : {F : Type 0} → String → Option String → Database F → Bool
refers test_id pop db =
    exists (λ t. t.id == test_id) db.tests
    && (elim pop [ none ↦ true | some name ↦ exists (λ p. p.name == name) db.pops ])

-- A row as TestAssignment, with COALESCE(pop_name, '').
pub record TestAssignment : Type 0 where
  pub id : ℕ
  pub test_id : String
  pub pop_name : String
  pub created_at : ℕ

abbrev pub scanned : Assignment → TestAssignment
scanned a = record {
  id = a.id;
  test_id = a.test_id;
  pop_name = elim a.pop_name [ none ↦ "" | some pop ↦ pop ];
  created_at = a.created_at;
}

unfoldable pub scan_all : List Assignment → List TestAssignment
scan_all [] = []
scan_all (a ∷ as') = scanned a ∷ scan_all as'

module _ {F : Type 0} (now : ℕ) (text : Violation → String)
    (sort : List Assignment → List Assignment) where
  -- The sequence moves on whatever becomes of the row.
  unfoldable pub assign : String → String → Database F → Database F × Option Error
  assign test_id pop_name db =
      let pop = to_null pop_name in
      let next = suc db.last_assignment in
      let db' = record db { last_assignment = next } in
      let row : Assignment = record {
        id = next;
        test_id = test_id;
        pop_name = pop;
        created_at = now;
      } in
      if exists (conflicts test_id pop) db.assignments
      then (db', none)
      else if not (refers test_id pop db)
      then (db', some (violated text foreign_key))
      else (record db' { assignments = row ∷ db.assignments }, none)

  unfoldable pub unassign : String → String → Database F → Database F × Option Error
  unassign test_id pop_name db =
      let pop = to_null pop_name in
      if exists (matches test_id pop) db.assignments
      then (
        record db { assignments = filter (λ a. not (matches test_id pop a)) db.assignments },
        none,
      )
      else (db, some missing)

  pub list_by_test : String → Database F → Error ⊎ List TestAssignment
  list_by_test test_id db =
      inr (scan_all (sort (filter (λ a. a.test_id == test_id) db.assignments)))

  pub list_assignments_by_pop : String → Database F → Error ⊎ List TestAssignment
  list_assignments_by_pop pop db = inr (
      scan_all (
        sort
          (filter (λ a. elim a.pop_name [ none ↦ true | some name ↦ name == pop ]) db.assignments)))
