-- ===== src/Agent/Config.antt =====
-- internal/agent/config/config.go: the agent's configuration, its defaults and its validation.
use Prim.Native.String.{◌++◌}
use netvantage.Prelude.{
  ℤ, pos, ℕ, ◌*◌, Bool, true, Option, none, some, List, [], String, ◌&&◌, not, is_empty, ◌==◌,
  string_eq, if◌then◌else◌,
}
use netvantage.Agent.{StaticTest}

pub record NatsConfig : Type 0 where
  pub url : String
  pub tls_cert : String
  pub tls_key : String
  pub tls_ca_cert : String

pub record KafkaConfig : Type 0 where
  pub brokers : List String
  pub tls_cert : String
  pub tls_key : String
  pub tls_ca_cert : String
  pub sasl_user : String
  pub sasl_pass : String

pub record TransportConfig : Type 0 where
  pub backend : String
  pub nats : NatsConfig
  pub kafka : KafkaConfig

pub record BufferConfig : Type 0 where
  pub enabled : Bool
  pub max_size_bytes : ℕ
  pub path : String

-- Durations are in nanoseconds.
pub record Config : Type 0 where
  pub control_plane_url : String
  pub agent_id : String
  pub pop_name : String
  pub pop_provider : String
  pub transport : TransportConfig
  pub heartbeat_interval : ℤ
  pub config_sync_interval : ℤ
  pub buffer : BufferConfig
  pub log_level : String
  pub cache_dir : String
  pub static_tests : List StaticTest

-- `join` is filepath.Join, `home` the home directory.
unfoldable pub default_config : (String → String → String) → String → Config
default_config join home = record {
  control_plane_url = "";
  agent_id = "";
  pop_name = "default";
  pop_provider = "";
  transport = record {
    backend = "nats";
    nats = record { url = "nats://localhost:4222"; tls_cert = ""; tls_key = ""; tls_ca_cert = "" };
    kafka = record {
      brokers = [];
      tls_cert = "";
      tls_key = "";
      tls_ca_cert = "";
      sasl_user = "";
      sasl_pass = "";
    };
  };
  heartbeat_interval = pos 30_000_000_000;
  config_sync_interval = pos 60_000_000_000;
  buffer = record { enabled = true; max_size_bytes = 100 * 1_024 * 1_024; path = "" };
  log_level = "info";
  cache_dir = join home ".netvantage";
  static_tests = [];
}

pub cache_path : (String → String → String) → Config → String
cache_path join c = join c.cache_dir "config-cache.yaml"

-- The text of the error, if there is one; `quote` is the verb %q.
unfoldable pub validate : (String → String) → Config → Option String
validate quote c =
    let backend = c.transport.backend in
    if c.pop_name == ""
    then some "config: pop_name is required"
    else if not (backend == "nats") && not (backend == "kafka")
    then some
        ("config: transport.backend must be 'nats' or 'kafka', got " ++ quote c.transport.backend)
    else if backend == "nats" && c.transport.nats.url == ""
    then some "config: transport.nats.url is required when backend is 'nats'"
    else if backend == "kafka" && is_empty c.transport.kafka.brokers
    then some "config: transport.kafka.brokers is required when backend is 'kafka'"
    else none
