-- ===== src/Canary/Ping.antt =====
-- internal/agent/canary/ping: the ping canary. The pinger is a parameter: it takes its settings and
-- gives its statistics, or the text of its error. Durations are numbers of nanoseconds. A configuration
-- is what json.Unmarshal makes of it.
pub mod Accepted
use Prim.Native.String.{◌++◌}
use netvantage.Prelude.{
  ℕ, Bool, true, false, Option, none, some, List, [], ◌∷◌, ℤ, pos, String, ◌⊎◌, inl, inr, ◌&&◌,
  ◌||◌, ◌-ℤ◌, not, ltb_ℤ, is_empty, length, if◌then◌else◌,
}
use netvantage.Transport.{Payload}
use netvantage.Canary.{TestDefinition, Result}
use netvantage.Canary.Float.{Float}
use netvantage.Canary.Traceroute.{Raw, absent, undecodable, decoded}
use netvantage.Canary.Dns.{or_keep}

pub record Config : Type 0 where
  pub count : ℤ
  pub interval : ℤ
  pub payload_size : ℤ
  pub privileged : Bool

-- A configuration's fields, `none` where the JSON leaves one out.
pub record Fields : Type 0 where
  pub count : Option ℤ
  pub interval : Option ℤ
  pub payload_size : Option ℤ
  pub privileged : Option Bool

abbrev pub decode_onto : Fields → Config → Config
decode_onto fields cfg = record {
  count = or_keep fields.count cfg.count;
  interval = or_keep fields.interval cfg.interval;
  payload_size = or_keep fields.payload_size cfg.payload_size;
  privileged = or_keep fields.privileged cfg.privileged;
}

abbrev pub default_config : Config
default_config = record {
  count = pos 5;
  interval = pos 200_000_000;
  payload_size = pos 56;
  privileged = true;
}

abbrev pub zero_config : Config
zero_config = record { count = pos 0; interval = pos 0; payload_size = pos 0; privileged = false }

abbrev pub check_config : Config → Bool
check_config cfg =
    not (ltb_ℤ cfg.count (pos 1))
    && not (ltb_ℤ cfg.payload_size (pos 0) || ltb_ℤ (pos 65_535) cfg.payload_size)

-- Whether Validate accepts a configuration: it decodes the fields onto a zero configuration.
unfoldable pub validate : Raw Fields → Bool
validate absent = true
validate undecodable = false
validate (decoded fields) = check_config (decode_onto fields zero_config)

-- Execute's configuration: it decodes the fields onto the defaults.
unfoldable pub configured : Raw Fields → Option Config
configured absent = some default_config
configured undecodable = none
configured (decoded fields) = some (decode_onto fields default_config)

pub record Statistics (F : Type 0) : Type 0 where
  pub min_rtt : ℤ
  pub avg_rtt : ℤ
  pub max_rtt : ℤ
  pub std_dev_rtt : ℤ
  pub packet_loss : F
  pub packets_sent : ℤ
  pub packets_recv : ℤ
  pub rtts : List ℤ

pub record Metrics (F : Type 0) : Type 0 where
  pub rtt_min : F
  pub rtt_avg : F
  pub rtt_max : F
  pub rtt_std_dev : F
  pub packet_loss : F
  pub jitter : F
  pub packets_sent : ℤ
  pub packets_recv : ℤ

-- What the pinger is given.
pub record PingerSettings : Type 0 where
  pub target : String
  pub config : Config
  pub timeout : ℤ

-- Making the pinger may fail; running it may fail, or be cut off by the context.
pub record Pinger (F : Type 0) : Type 0 where
  pub create : String → Option String
  pub run : PingerSettings → String ⊎ Statistics F
  pub cancelled : Option String

module _ {F : Type 0} (float : Float F) (abs : F → F) where
  abbrev pub millis : ℤ → F
  millis d = float.div (float.of_int d) (float.of_int (pos 1_000_000))

  -- The loop over consecutive round trips; `abs` is math.Abs.
  unfoldable pub total_diff : F → List ℤ → F
  total_diff total [] = total
  total_diff total (a ∷ []) = total
  total_diff total (a ∷ b ∷ rest) = total_diff (float.add total (abs (millis (b -ℤ a)))) (b ∷ rest)

  unfoldable pub compute_jitter : List ℤ → F
  compute_jitter [] = float.of_int (pos 0)
  compute_jitter (a ∷ []) = float.of_int (pos 0)
  compute_jitter (a ∷ b ∷ rest) =
      float.div (total_diff (float.of_int (pos 0)) (a ∷ b ∷ rest))
        (float.of_int (pos (length (b ∷ rest))))

  unfoldable pub metrics_of : Statistics F → Metrics F
  metrics_of stats = record {
    rtt_min = millis stats.min_rtt;
    rtt_avg = millis stats.avg_rtt;
    rtt_max = millis stats.max_rtt;
    rtt_std_dev = millis stats.std_dev_rtt;
    packet_loss = float.div stats.packet_loss (float.of_int (pos 100));
    jitter = compute_jitter stats.rtts;
    packets_sent = stats.packets_sent;
    packets_recv = stats.packets_recv;
  }

  -- The end of Execute; `marshal` encodes the metrics, if they encode.
  unfoldable pub report :
      (Metrics F → Option Payload) → ℕ → ℕ → TestDefinition → Statistics F → String ⊎ Result F
  report marshal now elapsed test stats =
      let metrics = metrics_of stats in
      elim (marshal metrics) [
        | none ↦ inl "ping: marshal metrics"
        | some bytes ↦ inr (record {
          test_id = test.id;
          agent_id = "";
          pop_name = "";
          test_type = "ping";
          target = test.target;
          timestamp = now;
          duration_ms = float.of_int (pos elapsed);
          success = float.lt metrics.packet_loss (float.of_int (pos 1));
          metrics = bytes;
          error = "";
          metadata = [];
        })
      ]

  -- What the pinger is run with, if it is run.
  unfoldable pub settings_of : TestDefinition → Raw Fields → Option PingerSettings
  settings_of test raw = elim (configured raw) [
    | none ↦ none
    | some cfg ↦ some (record { target = test.target; config = cfg; timeout = test.timeout })
  ]

  unfoldable pub execute :
      (Metrics F → Option Payload)
      → Pinger F
      → ℕ
      → ℕ
      → TestDefinition
      → Raw Fields
      → String ⊎ Result F
  execute marshal pinger now elapsed test raw = elim (settings_of test raw) [
    | none ↦ inl "ping: parse config"
    | some settings ↦ elim (pinger.create test.target) [
      | some e ↦ inl ("ping: create pinger for " ++ (test.target ++ (": " ++ e)))
      | none ↦ elim pinger.cancelled [
        | some e ↦ inl e
        | none ↦ elim (pinger.run settings) [
          | inl e ↦ inl ("ping: run failed for " ++ (test.target ++ (": " ++ e)))
          | inr stats ↦ report marshal now elapsed test stats
        ]
      ]
    ]
  ]
