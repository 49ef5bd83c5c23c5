-- ===== src/Canary.antt =====
-- internal/agent/canary/canary.go: a test definition and a result. Times and durations are numbers of
-- nanoseconds. `F` stands for float64.
pub mod Float
pub mod Traceroute
pub mod Dns
pub mod Http
pub mod Ping
use netvantage.Prelude.{ℕ, Bool, List, ℤ, String}
use netvantage.Transport.{Payload}

pub record TestDefinition : Type 0 where
  pub id : String
  pub type : String
  pub target : String
  pub interval : ℤ
  pub timeout : ℤ
  pub config : Payload

pub record Result (F : Type 0) : Type 0 where
  pub test_id : String
  pub agent_id : String
  pub pop_name : String
  pub test_type : String
  pub target : String
  pub timestamp : ℕ
  pub duration_ms : F
  pub success : Bool
  pub metrics : Payload
  pub error : String
  pub metadata : List (String × String)
