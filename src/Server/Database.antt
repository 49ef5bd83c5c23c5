-- ===== src/Server/Database.antt =====
-- internal/server/repository/postgres and migrations/001_initial_schema.sql: the tables of POPs, agents,
-- test definitions and assignments, as lists of rows, and the repositories' SQL on them. A statement
-- reads and writes what its text and the schema say: keys, references with their actions, NOT NULL,
-- defaults and the updated_at triggers. The database answers; a lost connection, whose error goes to
-- the caller, is left out, and so are texts with a NUL character, which PostgreSQL refuses. `now` is the
-- time of the transaction, `jsonb` what PostgreSQL makes of a JSON text (`none` if it is none), `text`
-- the message of a violated constraint, and the parameters `sort` are ORDER BY, which puts rows with
-- equal keys in any order. JSON labels are read back as they were written.
pub mod Tests
pub mod Assignments
pub mod Places
pub mod Keys
pub mod Selection
pub mod Delivery
pub mod Sync
pub mod Updates
pub mod Registration
pub mod Refinement
pub mod Soundness
use netvantage.Prelude.{ℕ, Option, List, [], String}
use netvantage.Server.Response.{Error, already_exists, not_found, other}
use netvantage.Server.Tests.{TestDefinition}
use netvantage.Server.Pops.{Pop}
use netvantage.Server.Agents.{Agent}

-- A row of test_assignments; `none` is NULL, every POP.
pub record Assignment : Type 0 where
  pub id : ℕ
  pub test_id : String
  pub pop_name : Option String
  pub created_at : ℕ

-- `last_assignment` is the sequence behind the BIGSERIAL column.
pub record Database (F : Type 0) : Type 0 where
  pub pops : List (Pop F)
  pub agents : List Agent
  pub tests : List TestDefinition
  pub assignments : List Assignment
  pub last_assignment : ℕ

pub data Violation : Type 0 where
  foreign_key : Violation
  not_null : Violation
  bad_json : Violation

abbrev pub duplicate : Error
duplicate = record { kind = already_exists; message = "already exists" }

abbrev pub missing : Error
missing = record { kind = not_found; message = "not found" }

abbrev pub violated : (Violation → String) → Violation → Error
violated text v = record { kind = other; message = text v }
