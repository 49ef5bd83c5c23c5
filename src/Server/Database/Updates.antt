-- ===== src/Server/Database/Updates.antt =====
-- What the Update handler of internal/server/api/handler/test.go leaves in the tables of
-- internal/server/repository/postgres/test.go.
use netvantage.Prelude.{
  ℕ, ◌≡◌, ◌≢◌, refl, ap, ◌∙◌, inl, inr, true, false, Option, none, some, List, String, ◌⊎◌, ◌↔◌,
  Option-cases, ◌==◌, string_eq, eq_iff, arith,
}
use netvantage.Transport.{Payload}
use netvantage.Server.Response.{write_json}
use netvantage.Server.Table.{find, change, find-key, find-change}
use netvantage.Server.Tests.{
  TestDefinition, Repositories, UpdateTestRequest, accepts_type, or_keep, or_default, merge, update,
  update_existing,
}
use netvantage.Server.Tests.Create.{IsTestType, valid_test_types_iff}
use netvantage.Server.Database.{Assignment, Database, Violation}
use netvantage.Server.Database.Tests.{set_row, get_test, update_test}
use netvantage.Server.Database.Delivery.{repositories}

-- A field that a request may give: the new value is the one given, or else the old one.
abbrev pub Takes : {A : Type 0} → Option A → A → A → Type 0
Takes none old new = new ≡ old
Takes (some given) old new = new ≡ given

-- A text that a request gives by not being empty.
abbrev pub TakesText : String → String → String → Type 0
TakesText given old new = (given ≡ "" → new ≡ old) × (given ≢ "" → new ≡ given)

-- A stored definition after a request: the request's fields, whatever they are, and the others as before.
abbrev pub IsUpdated : ℕ → Payload → UpdateTestRequest → TestDefinition → TestDefinition → Type 0
IsUpdated now config req old new =
    (new.id ≡ old.id)
    × TakesText req.name old.name new.name
    × TakesText req.test_type old.test_type new.test_type
    × TakesText req.target old.target new.target
    × Takes req.interval_ms old.interval_ms new.interval_ms
    × Takes req.timeout_ms old.timeout_ms new.timeout_ms
    × Takes req.enabled old.enabled new.enabled
    × (new.config ≡ config)
    × (new.created_at ≡ old.created_at)
    × (new.updated_at ≡ now)

or_default-Takes :
    {A : Type 0} (given : Option A) (old : A) → Takes given old (or_default given old)
or_default-Takes none old = refl
or_default-Takes (some given) old = refl

or_keep-TakesText : (given old : String) → TakesText given old (or_keep given old)
or_keep-TakesText given old = ground (arith, eq_iff given "")

set_row-IsUpdated :
    (now : ℕ) (config : Payload) (req : UpdateTestRequest) (t : TestDefinition)
    → IsUpdated now config req t (set_row now config (merge req t) t)
unfolding merge
set_row-IsUpdated now config req t = (
  refl,
  or_keep-TakesText req.name t.name,
  or_keep-TakesText req.test_type t.test_type,
  or_keep-TakesText req.target t.target,
  or_default-Takes req.interval_ms t.interval_ms,
  or_default-Takes req.timeout_ms t.timeout_ms,
  or_default-Takes req.enabled t.enabled,
  refl,
  refl,
  refl,
)

module _ {F : Type 0} (quote : String → String) (now : ℕ) (jsonb : Payload → Option Payload)
    (text : Violation → String) (sort : List TestDefinition → List TestDefinition)
    (sort_assignments : List Assignment → List Assignment) where
  abbrev tests : Repositories (Database F)
  tests = repositories now jsonb text sort sort_assignments

  abbrev row_of : String → Database F → Option TestDefinition
  row_of id db = find (λ u. u.id) id db.tests

  get_test-row :
      (id : String) (t : TestDefinition) (db : Database F)
      → (get_test now jsonb text sort id db ≡ inr t) ↔ (row_of id db ≡ some t)
  unfolding get_test
  get_test-row id t db = elim (Option-cases (row_of id db)) [
    | inl gone ↦ (λ h. cc (rw (gone, get_test) at h), λ h. cc)
    | inr (u, there) ↦ (
      λ h. let same : u ≡ t = cc (rw (there, get_test) at h) in there ∙ ap some same,
      λ h. rw (h, get_test) refl,
    )
  ]

  get_test-same :
      (id : String) (db db' : Database F)
      → row_of id db ≡ row_of id db'
      → get_test now jsonb text sort id db ≡ get_test now jsonb text sort id db'
  unfolding get_test
  get_test-same id db db' same = rw (same, get_test) refl

  abbrev updated : Payload → UpdateTestRequest → TestDefinition → Database F → Database F
  updated config req t db = record db {
    tests = change (λ u. u.id) t.id (set_row now config (merge req t)) db.tests;
  }

  update_is :
      (id : String) (req : UpdateTestRequest) (t : TestDefinition) (config : Payload)
      (db : Database F)
      → row_of id db ≡ some t
      → accepts_type req ≡ true
      → jsonb (or_default req.config t.config) ≡ some config
      → update quote tests id (inr req) db ≡ (updated config req t db, write_json 200 (merge req t))
  unfolding update update_existing update_test merge
  update_is id req t config db there accepted json =
      let mine : row_of t.id db ≡ some t =
        ap (λ k. row_of k db) (find-key (λ u. u.id) id t db.tests there) ∙ there in
      rw ((get_test-row id t db).1 there, update)
        (rw (accepted, update_existing) (rw (json, update_test) (rw (mine, update_test) refl)))

  -- For a stored definition, a request of a known type or none whose configuration, or the stored one if
  -- it gives none, is JSON: Update answers 200, Get then finds the definition with the fields that
  -- the request gives, whatever its interval and timeout are, negative ones included, and the others
  -- as before, and every other definition is as it was.
  pub update-get :
      (id : String) (req : UpdateTestRequest) (t : TestDefinition) (config : Payload)
      (db : Database F)
      → get_test now jsonb text sort id db ≡ inr t
      → (req.test_type ≡ "") ⊎ IsTestType req.test_type
      → jsonb (or_default req.config t.config) ≡ some config
      → ((update quote tests id (inr req) db).1.status ≡ 200)
        × ((u : TestDefinition) × (get_test now jsonb text sort id
                (update quote tests id (inr req) db).0
              ≡ inr u)
            × IsUpdated now config req t u)
        × ((other : String)
            → other ≢ id
            → get_test now jsonb text sort other (update quote tests id (inr req) db).0
              ≡ get_test now jsonb text sort other db)
  update-get id req t config db known type json =
      let there = (get_test-row id t db).0 known in
      let accepted : accepts_type req ≡ true =
        ground (arith, eq_iff req.test_type "", valid_test_types_iff req.test_type) in
      let own : t.id ≡ id = find-key (λ u. u.id) id t db.tests there in
      let changed = λ (k : String).
        find-change (λ u. u.id) (set_row now config (merge req t)) (λ x. refl) t.id k db.tests in
      rw (update_is id req t config db there accepted json) (
        refl,
        (
          set_row now config (merge req t) t,
          (get_test-row id _ (updated config req t db)).1
              (changed id ∙ rw ((eq_iff t.id id).1 own) (rw there refl)),
          set_row-IsUpdated now config req t,
        ),
        λ other differs.
            let apart : (t.id == other) ≡ false = ground (arith, eq_iff t.id other) in
            get_test-same other _ db (changed other ∙ rw apart refl),
      )
