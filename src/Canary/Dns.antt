-- ===== src/Canary/Dns.antt =====
-- internal/agent/canary/dns: the DNS canary: its configuration and its metrics. A configuration is what
-- json.Unmarshal makes of it.
pub mod Query
pub mod Run
pub mod Verdict
use Prim.Native.String.{◌++◌}
use netvantage.Prelude.{
  ℕ, Bool, true, false, Option, none, some, List, [], ◌∷◌, ◌++◌ as append, ℤ, pos, String, ◌⊎◌, inl,
  inr, ◌&&◌, ◌||◌, not, is_empty, length, ◌==◌, string_eq, if◌then◌else◌,
}
use netvantage.Prelude.Text.{to_upper, contains}
use netvantage.Prelude.Dict.{lookup, insert}
use netvantage.Prelude.Decimal.{itoa}
use netvantage.Transport.{Payload}
use netvantage.Canary.{TestDefinition, Result}
use netvantage.Canary.Float.{Float}
use netvantage.Canary.Traceroute.{Raw, absent, undecodable, decoded}

pub record Config : Type 0 where
  pub record_type : String
  pub resolvers : List String
  pub expected_values : List String

-- A configuration's fields, `none` where the JSON leaves one out.
pub record Fields : Type 0 where
  pub record_type : Option String
  pub resolvers : Option (List String)
  pub expected_values : Option (List String)

abbrev pub or_keep {ℓ} : {A : Type ℓ} → Option A → A → A
or_keep none a = a
or_keep (some b) a = b

-- Decoding the fields onto a configuration.
abbrev pub decode_onto : Fields → Config → Config
decode_onto fields cfg = record {
  record_type = or_keep fields.record_type cfg.record_type;
  resolvers = or_keep fields.resolvers cfg.resolvers;
  expected_values = or_keep fields.expected_values cfg.expected_values;
}

abbrev pub default_config : Config
default_config = record { record_type = "A"; resolvers = []; expected_values = [] }

abbrev pub zero_config : Config
zero_config = record { record_type = ""; resolvers = []; expected_values = [] }

abbrev pub is_record_type : String → Bool
is_record_type t =
    t == "A"
    || t == "AAAA"
    || t == "CNAME"
    || t == "MX"
    || t == "NS"
    || t == "TXT"
    || t == "SOA"
    || t == "SRV"

-- Whether Validate accepts a configuration.
unfoldable pub validate : Raw Fields → Bool
validate absent = true
validate undecodable = false
validate (decoded fields) =
    let cfg = decode_onto fields zero_config in
    if not (cfg.record_type == "") then is_record_type (to_upper cfg.record_type) else true

pub record ResolverResult (F : Type 0) : Type 0 where
  pub resolver : String
  pub resolution_time_ms : F
  pub response_code : String
  pub resolved_values : List String
  pub success : Bool
  pub error : String

pub record Metrics (F : Type 0) : Type 0 where
  pub record_type : String
  pub avg_resolution_time_ms : F
  pub resolvers : List (ResolverResult F)
