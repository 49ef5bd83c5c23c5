-- ===== src/Examples/Database.antt =====
-- A definition that is created, assigned and synced, an agent that registers, and a stored API key.
use Prim.Native.String.{◌++◌}
use netvantage.Prelude.{
  inl, ◌≡◌, ◌≢◌, ◌↔◌, refl, inr, Bool, true, Option, none, some, List, [], ◌∷◌, ℤ, pos, negsuc,
  String, arith, count, string_eq, eq_iff,
}
use netvantage.Transport.{Payload}
use netvantage.Server.Response.{Response}
use netvantage.Server.Table.{find, exists, filter}
use netvantage.Server.Tests.{TestDefinition, CreateTestRequest, UpdateTestRequest, update, create}
use netvantage.Server.Pops.{Pop}
use netvantage.Server.Agents.{Agent, RegisterRequest}
use netvantage.Server.Database.{Assignment, Database, Violation}
use netvantage.Server.Database.Tests.{get_test, list_by_pop}
use netvantage.Server.Database.Places.{create_pop}
use netvantage.Server.Database.Selection.{IsSelected, list_by_pop-selects}
use netvantage.Server.Database.Refinement.{
  create as create_command, perform, promised, definitions, answer, perform-refines,
}
use netvantage.Server.Database.Delivery.{repositories}
use netvantage.Server.Database.Updates.{IsUpdated, update-get}
use netvantage.Server.Database.Soundness.Reachable.{migrated, Reachable, start, after, creates_pop}
use netvantage.Server.Database.Registration.{register_over, register-created_iff}
use netvantage.Server.Auth.{ApiKey, authenticate, admitted as passed, bearer}
use netvantage.Server.Database.Keys.{create_key, get_by_hash, new_key, create_key-authenticate}

abbrev jsonb : Payload → Option Payload
jsonb bytes = some bytes

abbrev text : Violation → String
text v = "violated"

abbrev as_is : List TestDefinition → List TestDefinition
as_is ts = ts

abbrev rows_as_is : List Assignment → List Assignment
rows_as_is rows = rows

abbrev pops_as_is : List (Pop ℤ) → List (Pop ℤ)
pops_as_is ps = ps

abbrev agents_as_is : List Agent → List Agent
agents_as_is found = found

abbrev fra : Pop ℤ
fra = record {
  name = "fra";
  provider = "";
  city = "";
  country = "";
  latitude = none;
  longitude = none;
  labels = none;
  created_at = 0;
  updated_at = 0;
}

abbrev test : TestDefinition
test = record {
  id = "t1";
  name = "gateway";
  test_type = "ping";
  target = "192.0.2.4";
  interval_ms = pos 1_000;
  timeout_ms = pos 500;
  config = [];
  enabled = true;
  created_at = 0;
  updated_at = 0;
}

-- A POP, a test of it, and the test's assignments to it and to all.
abbrev with_pop : Database ℤ
with_pop = record {
  pops = record fra { created_at = 1; updated_at = 1 } ∷ [];
  agents = [];
  tests = [];
  assignments = [];
  last_assignment = 0;
}

abbrev everywhere : Assignment
everywhere = record { id = 2; test_id = "t1"; pop_name = none; created_at = 3 }

abbrev at_fra : Assignment
at_fra = record { id = 1; test_id = "t1"; pop_name = some "fra"; created_at = 3 }

abbrev assigned : Database ℤ
assigned = record with_pop {
  tests = test ∷ [];
  assignments = everywhere ∷ at_fra ∷ [];
  last_assignment = 2;
}

list_by_pop-selects_example :
    (chosen : TestDefinition → Bool) × ((t : TestDefinition)
      → (chosen t ≡ true) ↔ IsSelected "fra" assigned.assignments t)
    × (tests : List TestDefinition) × (list_by_pop 9 jsonb text as_is "fra" assigned ≡ inr tests)
    × ((q : TestDefinition → Bool) → count q tests ≡ count q (filter chosen assigned.tests))
list_by_pop-selects_example =
    list_by_pop-selects 9 jsonb text as_is (λ q tests. refl) "fra" assigned
      (unfold find in (refl, tt))

-- The POP, written into the migrated database.
written :
    Reachable jsonb text as_is rows_as_is pops_as_is agents_as_is
      (create_pop 1 text pops_as_is agents_as_is fra migrated).0
written = after migrated _ start (creates_pop 1 fra migrated)

perform-refines_example :
    ((perform 9 jsonb text as_is (create_command test) assigned).1
      ≡ (promised 9 jsonb text (create_command test) (definitions assigned)).1)
    × ((id : String)
        → get_test 9 jsonb text as_is id
            (perform 9 jsonb text as_is (create_command test) assigned).0
          ≡ answer ((promised 9 jsonb text (create_command test) (definitions assigned)).0 id))
perform-refines_example = perform-refines 9 jsonb text as_is (create_command test) assigned

abbrev quote : String → String
quote s = s

abbrev request : CreateTestRequest
request = record {
  id = "t1";
  name = "gateway";
  test_type = "ping";
  target = "192.0.2.4";
  interval_ms = pos 1_000;
  timeout_ms = pos 500;
  config = none;
  enabled = none;
  pops = "fra" ∷ [];
}

abbrev fra_name : String
fra_name = "fra"

named : fra_name ≢ ""
named e = let empty = (eq_iff fra_name "").1 e in cc

abbrev registration : RegisterRequest
registration = record {
  id = "agent-1";
  pop_name = "fra";
  version = "1";
  capabilities = some ("ping" ∷ []);
  labels = none;
}

abbrev agent_name : String
agent_name = "agent-1"

agent_named : agent_name ≢ ""
agent_named e = let empty = (eq_iff agent_name "").1 e in cc

register-created_iff_example :
    register_over 9 text pops_as_is agents_as_is quote registration with_pop ≡ 201
register-created_iff_example =
    (register-created_iff 9 text pops_as_is agents_as_is quote registration with_pop).1
      (agent_named, named, unfold exists in refl, unfold find in refl, ("ping" ∷ [], refl))

abbrev tagged : String → String
tagged token = "#" ++ token

abbrev operator : ApiKey
operator = record {
  id = "k2";
  name = "operator";
  key_hash = "#open";
  role = "operator";
  scopes = [];
  created_at = 0;
  expires_at = some 100;
  last_used = none;
}

abbrev token_open : String
token_open = "open"

token_filled : token_open ≢ ""
token_filled e = let empty = (eq_iff token_open "").1 e in cc

create_key-authenticate_example :
    authenticate tagged
      (get_by_hash (create_key 7 operator []).0)
      50
      ("admin" ∷ "operator" ∷ [])
      (bearer ++ "open")
    ≡ passed (new_key 7 operator)
unfolding create_key find
create_key-authenticate_example =
    create_key-authenticate tagged 7 50 ("admin" ∷ "operator" ∷ []) "open" operator [] refl
      token_filled refl (omega arith) (inr (inl refl))

-- A request with a negative interval and nothing else.
abbrev backwards : UpdateTestRequest
backwards = record {
  name = "";
  test_type = "";
  target = "";
  interval_ms = some (negsuc 4);
  timeout_ms = none;
  config = none;
  enabled = none;
}

abbrev run_update : Database ℤ × Response TestDefinition
run_update =
    update (λ s. s) (repositories 9 jsonb text as_is rows_as_is) "t1" (inr backwards) assigned

abbrev after_update : Database ℤ
after_update = run_update.0

abbrev answer_update : Response TestDefinition
answer_update = run_update.1

update-get_example :
    (answer_update.status ≡ 200)
    × ((u : TestDefinition) × (get_test 9 jsonb text as_is "t1" after_update ≡ inr u)
        × IsUpdated 9 test.config backwards test u)
    × ((other : String)
        → other ≢ "t1"
        → get_test 9 jsonb text as_is other after_update
          ≡ get_test 9 jsonb text as_is other assigned)
update-get_example =
    update-get (λ s. s) 9 jsonb text as_is rows_as_is "t1" backwards test test.config assigned
      (unfold get_test find in refl) (inl refl) refl
