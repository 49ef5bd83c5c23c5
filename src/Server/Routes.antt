-- ===== src/Server/Routes.antt =====
-- internal/server/api/router/router.go: the routes of a control plane, and a request as it comes in:
-- the route chi finds for it, its body as json.Decoder reads it, and the headers that are looked at.
use netvantage.Prelude.{ℕ, Option, List, String, ◌⊎◌}
use netvantage.Transport.{Payload}
use netvantage.Server.Tests.{CreateTestRequest, UpdateTestRequest}
use netvantage.Server.Pops.{CreatePopRequest}
use netvantage.Server.Agents.{RegisterRequest, HeartbeatRequest}

-- The routes under /api/v1, each with what its handler reads of the request.
pub data Call (F : Type 0) : Type 0 where
  register_agent : String ⊎ RegisterRequest → Call F
  list_agents : Call F
  get_agent : String → Call F
  delete_agent : String → Call F
  heartbeat : String → String ⊎ HeartbeatRequest → Call F
  config_sync : String → String → Call F
  create_pop : String ⊎ CreatePopRequest F → Call F
  list_pops : Call F
  get_pop : String → Call F
  delete_pop : String → Call F
  create_test : String ⊎ CreateTestRequest → Call F
  list_tests : Call F
  get_test : String → Call F
  update_test : String → String ⊎ UpdateTestRequest → Call F
  delete_test : String → Call F
  assign_test : String → String ⊎ List String → Call F
  list_entries : String → String → String → String → Call F

-- A route: its method, its pattern under /api/v1, and the values of the parameters `id` and `name`.
pub record Route : Type 0 where
  pub method : String
  pub pattern : String
  pub url_id : String
  pub url_name : String

abbrev plain : String → String → Route
plain method pattern = record { method = method; pattern = pattern; url_id = ""; url_name = "" }

abbrev by_id : String → String → String → Route
by_id method pattern id = record { method = method; pattern = pattern; url_id = id; url_name = "" }

abbrev by_name : String → String → String → Route
by_name method pattern name = record {
  method = method;
  pattern = pattern;
  url_id = "";
  url_name = name;
}

unfoldable pub route_of : {F : Type 0} → Call F → Route
route_of (register_agent body) = plain "POST" "/agents"
route_of list_agents = plain "GET" "/agents"
route_of (get_agent id) = by_id "GET" "/agents/{id}" id
route_of (delete_agent id) = by_id "DELETE" "/agents/{id}" id
route_of (heartbeat id body) = by_id "POST" "/agents/{id}/heartbeat" id
route_of (config_sync id pop) = by_id "GET" "/agents/{id}/config" id
route_of (create_pop body) = plain "POST" "/pops"
route_of list_pops = plain "GET" "/pops"
route_of (get_pop name) = by_name "GET" "/pops/{name}" name
route_of (delete_pop name) = by_name "DELETE" "/pops/{name}" name
route_of (create_test body) = plain "POST" "/tests"
route_of list_tests = plain "GET" "/tests"
route_of (get_test id) = by_id "GET" "/tests/{id}" id
route_of (update_test id body) = by_id "PUT" "/tests/{id}" id
route_of (delete_test id) = by_id "DELETE" "/tests/{id}" id
route_of (assign_test id body) = by_id "POST" "/tests/{id}/assign" id
route_of (list_entries limit offset resource resource_id) = plain "GET" "/audit"

-- What chi finds for a request: /healthz, a route under /api/v1 or none there, or nothing at all. Where
-- no route is found it answers 404, or 405 if one has the path and another method.
pub data Miss : Type 0 where
  no_path : Miss
  no_method : Miss

abbrev pub miss_status : Miss → ℕ
miss_status no_path = 404
miss_status no_method = 405

pub data Target (F : Type 0) : Type 0 where
  healthz : Target F
  api : Call F → Target F
  api_miss : Miss → Target F
  miss : Miss → Target F

pub record Incoming (F : Type 0) : Type 0 where
  pub now : ℕ
  pub target : Target F
  pub body : Option Payload
  pub remote_addr : String
  pub authorization : String
  pub forwarded_for : String
  pub real_ip : String
