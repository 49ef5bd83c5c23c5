-- ===== src/Server/Database/Soundness.antt =====
-- What the keys and references of migrations/001_initial_schema.sql promise of the tables.
pub mod Writes
pub mod PlaceWrites
pub mod Reachable
use netvantage.Prelude.{
  All, ℕ, suc, ◌≤◌, ◌≡◌, refl, inl, inr, Bool, true, false, Option, none, some, List, [], ◌∷◌,
  String, not, ◌==◌, string_eq, eq_iff, arith, Bool-cases, Option-cases, if◌then◌else◌,
}
use netvantage.Transport.{Payload}
use netvantage.Server.Table.{
  find, remove, change, IsKeyed, exists, filter, exists-filter, All-weaken, All-filter,
  remove-IsKeyed, change-IsKeyed, exists-remove, exists-change,
}
use netvantage.Server.Tests.{TestDefinition}
use netvantage.Server.Pops.{Pop}
use netvantage.Server.Agents.{Agent, Heartbeat}
use netvantage.Server.Database.{Assignment, Database, Violation}
use netvantage.Server.Database.Tests.{set_row, create_test, update_test, delete_test}
use netvantage.Server.Database.Assignments.{to_null, conflicts, matches, refers, assign, unassign}
use netvantage.Server.Database.Places.{
  is_at, create_pop, delete_pop, create_agent, update_heartbeat, delete_agent, beat,
}

abbrev pub HasTest : List TestDefinition → String → Type 0
HasTest tests id = exists (λ t. t.id == id) tests ≡ true

module _ {F : Type 0} where
  abbrev pub HasPop : List (Pop F) → String → Type 0
  HasPop pops name = exists (λ p. p.name == name) pops ≡ true

  abbrev pub HasPopIfGiven : List (Pop F) → Option String → Type 0
  HasPopIfGiven pops none = Unit
  HasPopIfGiven pops (some name) = HasPop pops name

-- No two assignments of one test name one POP. (Two of them may name none.)
abbrev pub IsUnique : List Assignment → Type 0
IsUnique [] = Unit
IsUnique (a ∷ rest) = (exists (conflicts a.test_id a.pop_name) rest ≡ false) × IsUnique rest

-- The keys are unique, every assignment's test and POP exist, and so does every agent's POP.
pub record IsSound {F : Type 0} (db : Database F) : Type 0 where
  pub tests_keyed : IsKeyed (λ t. t.id) db.tests
  pub pops_keyed : IsKeyed (λ p. p.name) db.pops
  pub agents_keyed : IsKeyed (λ a. a.id) db.agents
  pub tests_there : All (λ a. HasTest db.tests a.test_id) db.assignments
  pub pops_there : All (λ a. HasPopIfGiven db.pops a.pop_name) db.assignments
  pub homes_there : All (λ a. HasPop db.pops a.pop_name) db.agents
  pub unique : IsUnique db.assignments

pub filter-IsUnique :
    (p : Assignment → Bool) (xs : List Assignment) → IsUnique xs → IsUnique (filter p xs)
unfolding filter
filter-IsUnique p [] h = tt
filter-IsUnique p (a ∷ rest) h = elim (Bool-cases (p a)) [
  | inl kept ↦
      rw kept
        (exists-filter (conflicts a.test_id a.pop_name) p rest h.0, filter-IsUnique p rest h.1)
  | inr dropped ↦ rw dropped (filter-IsUnique p rest h.1)
]

-- A row before the others hides none of them.
pub exists-cons :
    {A : Type 0} (q : A → Bool) (x : A) (xs : List A)
    → exists q xs ≡ true
    → exists q (x ∷ xs) ≡ true
unfolding exists
exists-cons q x xs h = ground arith

pub HasPopIfGiven-weaken :
    {F : Type 0} (pops others : List (Pop F)) (pop : Option String)
    → ((name : String) → pop ≡ some name → HasPop pops name → HasPop others name)
    → HasPopIfGiven pops pop
    → HasPopIfGiven others pop
HasPopIfGiven-weaken pops others none f h = tt
HasPopIfGiven-weaken pops others (some name) f h = f name refl h
