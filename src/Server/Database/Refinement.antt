-- ===== src/Server/Database/Refinement.antt =====
-- What the repository of internal/server/repository/postgres/test.go promises of the definitions: those of
-- a map from ids to definitions.
use netvantage.Prelude.{
  ℕ, ◌≡◌, refl, Option, none, some, List, ap, ◌∙◌, String, inl, inr, ◌⊎◌, ◌==◌, string_eq, eq_iff,
  Option-cases, Bool-cases, sym, if◌then◌else◌,
}
use netvantage.Transport.{Payload}
use netvantage.Server.Response.{Error}
use netvantage.Server.Table.{find, change, find-key, find-remove, find-change}
use netvantage.Server.Tests.{TestDefinition}
use netvantage.Server.Database.{Database, Violation, bad_json, duplicate, missing, violated}
use netvantage.Server.Database.Tests.{set_row, create_test, get_test, update_test, delete_test}

-- A map from ids to definitions.
abbrev pub Definitions : Type 0
Definitions = String → Option TestDefinition

pub data Command : Type 0 where
  create : TestDefinition → Command
  update : TestDefinition → Command
  delete : String → Command

abbrev pub put : String → Option TestDefinition → Definitions → Definitions
put id value m j = if id == j then value else m j

-- A definition as it is kept, with its config as JSONB, the time of its creation and that of its last
-- change.
abbrev pub kept : TestDefinition → Payload → ℕ → ℕ → TestDefinition
kept t config created changed = record {
  id = t.id;
  name = t.name;
  test_type = t.test_type;
  target = t.target;
  interval_ms = t.interval_ms;
  timeout_ms = t.timeout_ms;
  config = config;
  enabled = t.enabled;
  created_at = created;
  updated_at = changed;
}

module _ (now : ℕ) (jsonb : Payload → Option Payload) (text : Violation → String) where
  -- An id is taken once; only a definition that is there is updated or deleted; a config that is no JSON
  -- is refused.
  unfoldable pub promised : Command → Definitions → Definitions × Option Error
  promised (create t) m = elim (jsonb t.config) [
    | none ↦ (m, some (violated text bad_json))
    | some config ↦ elim (m t.id) [
      | some u ↦ (m, some duplicate)
      | none ↦ (put t.id (some (kept t config now now)) m, none)
    ]
  ]
  promised (update t) m = elim (jsonb t.config) [
    | none ↦ (m, some (violated text bad_json))
    | some config ↦ elim (m t.id) [
      | none ↦ (m, some missing)
      | some u ↦ (put t.id (some (kept t config u.created_at now)) m, none)
    ]
  ]
  promised (delete id) m = elim (m id) [ none ↦ (m, some missing) | some u ↦ (put id none m, none) ]

set_row-kept :
    (now : ℕ) (t : TestDefinition) (config : Payload) (u : TestDefinition)
    → u.id ≡ t.id
    → set_row now config t u ≡ kept t config u.created_at now
set_row-kept now t config u same =
    ap (λ id. record t { id = id; config = config; created_at = u.created_at; updated_at = now })
      same

module _ {F : Type 0} (now : ℕ) (jsonb : Payload → Option Payload) (text : Violation → String)
    (sort : List TestDefinition → List TestDefinition) where
  unfoldable pub perform : Command → Database F → Database F × Option Error
  perform (create t) db = create_test now jsonb text sort t db
  perform (update t) db = update_test now jsonb text sort t db
  perform (delete id) db = delete_test now jsonb text sort id db

abbrev pub definitions : {F : Type 0} → Database F → Definitions
definitions db id = find (λ u. u.id) id db.tests

-- What Get answers for an entry of the map.
abbrev pub answer : Option TestDefinition → Error ⊎ TestDefinition
answer none = inl missing
answer (some t) = inr t

module _ {F : Type 0} (now : ℕ) (jsonb : Payload → Option Payload) (text : Violation → String)
    (sort : List TestDefinition → List TestDefinition) where
  get_test-answer :
      (id : String) (db : Database F)
      → get_test now jsonb text sort id db ≡ answer (definitions db id)
  unfolding get_test
  get_test-answer id db = elim (Option-cases (find (λ u. u.id) id db.tests)) [
    | inl gone ↦ rw (gone, get_test) refl
    | inr (t, there) ↦ rw (there, get_test) refl
  ]

  -- The tables stand for the map that the command promises, and the answer is the map's.
  abbrev Keeps : Command → Database F → Type 0
  Keeps c db =
      let (db', failed) = perform now jsonb text sort c db in
      let (m, failed') = promised now jsonb text c (definitions db) in
      (failed ≡ failed') × ((id : String) → definitions db' id ≡ m id)

  create-Keeps : (t : TestDefinition) (db : Database F) → Keeps (create t) db
  unfolding perform promised create_test
  create-Keeps t db = elim (Option-cases (jsonb t.config)) [
    | inl bad ↦ rw (bad, create_test, promised) (refl, λ id. refl)
    | inr (config, good) ↦ elim (Option-cases (find (λ u. u.id) t.id db.tests)) [
      | inr (u, there) ↦
          rw (good, create_test, promised) (rw (there, create_test, promised) (refl, λ id. refl))
      | inl new ↦
          rw (good, create_test, promised)
            (rw (new, create_test, promised) (refl, λ id. unfold find in refl))
    ]
  ]

  set_found :
      (t : TestDefinition) (config : Payload) (id : String) (u : TestDefinition) (db : Database F)
      → find (λ u. u.id) t.id db.tests ≡ some u
      → find (λ u. u.id) id (change (λ u. u.id) t.id (set_row now config t) db.tests)
        ≡ put t.id (some (kept t config u.created_at now)) (definitions db) id
  set_found t config id u db there =
      find-change (λ u. u.id) (set_row now config t) (λ x. refl) t.id id db.tests
      ∙ (elim (Bool-cases (t.id == id)) [
        | inl same ↦
            let found : find (λ u. u.id) id db.tests ≡ some u =
              ap (λ k. find (λ u. u.id) k db.tests) (sym ((eq_iff t.id id).0 same)) ∙ there in
            rw same (
              rw found (
                ap some (set_row-kept now t config u (find-key (λ u. u.id) t.id u db.tests there))))
        | inr other ↦ rw other refl
      ])

  update-Keeps : (t : TestDefinition) (db : Database F) → Keeps (update t) db
  unfolding perform promised update_test
  update-Keeps t db = elim (Option-cases (jsonb t.config)) [
    | inl bad ↦ rw (bad, update_test, promised) (refl, λ id. refl)
    | inr (config, good) ↦ elim (Option-cases (find (λ u. u.id) t.id db.tests)) [
      | inl gone ↦
          rw (good, update_test, promised) (rw (gone, update_test, promised) (refl, λ id. refl))
      | inr (u, there) ↦
          rw (good, update_test, promised)
            (rw (there, update_test, promised) (refl, λ id. set_found t config id u db there))
    ]
  ]

  delete-Keeps : (id : String) (db : Database F) → Keeps (delete id) db
  unfolding perform promised delete_test
  delete-Keeps id db = elim (Option-cases (find (λ u. u.id) id db.tests)) [
    | inl gone ↦ rw (gone, delete_test, promised) (refl, λ j. refl)
    | inr (u, there) ↦
        rw (there, delete_test, promised) (refl, λ j. find-remove (λ u. u.id) id j db.tests)
  ]

  perform-Keeps : (c : Command) (db : Database F) → Keeps c db
  perform-Keeps (create t) db = create-Keeps t db
  perform-Keeps (update t) db = update-Keeps t db
  perform-Keeps (delete id) db = delete-Keeps id db

  -- Create, Update and Delete of the repository, on any tables, answer what the map of the definitions
  -- promises, and Get then answers for every id what the map then holds: a created definition with its
  -- config as JSONB keeps it and the time of the transaction, and every other id as before.
  pub perform-refines :
      (c : Command) (db : Database F)
      → ((perform now jsonb text sort c db).1 ≡ (promised now jsonb text c (definitions db)).1)
        × ((id : String)
            → get_test now jsonb text sort id (perform now jsonb text sort c db).0
              ≡ answer ((promised now jsonb text c (definitions db)).0 id))
  perform-refines c db =
      let (answered, holds) = perform-Keeps c db in
      (
        answered,
        λ id. get_test-answer id (perform now jsonb text sort c db).0 ∙ ap answer (holds id),
      )
