-- ===== src/Transport/Kafka/Config.antt =====
-- internal/transport/kafka/kafka.go: the configuration and what the client library is given of it, New,
-- and the start of Subscribe. `Pool` and `Cert` are the types of crypto/x509 and crypto/tls, and the
-- functions on files are parameters, with the text of their error as `inl`.
use Prim.Native.String.{◌++◌}
use netvantage.Prelude.{
  Bool, true, false, Option, none, some, List, [], ◌∷◌, ℤ, pos, String, ◌⊎◌, inl, inr, ◌&&◌, not,
  is_empty, ◌==◌, int_eq, string_eq, if◌then◌else◌,
}
use netvantage.Transport.Types.{Payload, TransportError, failed}
use netvantage.Transport.Kafka.{Transport}

-- Durations are in nanoseconds.
pub record Config : Type 0 where
  pub brokers : List String
  pub topic_prefix : String
  pub consumer_group : String
  pub sasl_enabled : Bool
  pub sasl_mechanism : String
  pub sasl_username : String
  pub sasl_password : String
  pub tls_enabled : Bool
  pub tls_cert : String
  pub tls_key : String
  pub tls_ca_cert : String
  pub tls_skip_verify : Bool
  pub required_acks : ℤ
  pub max_retries : ℤ
  pub flush_frequency : ℤ
  pub flush_messages : ℤ
  pub initial_offset : ℤ

-- The constants WaitForAll and OffsetNewest of the client library are parameters.
pub default_config : ℤ → ℤ → List String → Config
default_config wait_for_all offset_newest brokers = record {
  brokers = brokers;
  topic_prefix = "netvantage";
  consumer_group = "netvantage-processor";
  sasl_enabled = false;
  sasl_mechanism = "";
  sasl_username = "";
  sasl_password = "";
  tls_enabled = false;
  tls_cert = "";
  tls_key = "";
  tls_ca_cert = "";
  tls_skip_verify = false;
  required_acks = wait_for_all;
  max_retries = pos 3;
  flush_frequency = pos 100_000_000;
  flush_messages = pos 100;
  initial_offset = offset_newest;
}

pub data Mechanism : Type 0 where
  scram_sha_256 : Mechanism
  scram_sha_512 : Mechanism

pub record Sasl : Type 0 where
  pub user : String
  pub password : String
  pub mechanism : Mechanism

pub record TlsConfig (Pool Cert : Type 0) : Type 0 where
  pub insecure_skip_verify : Bool
  pub root_cas : Option Pool
  pub certificates : List Cert

-- What is set of the client library's configuration, besides the version, the client's id, the
-- strategy and Return.Successes, which are constants.
pub record SaramaConfig (Pool Cert : Type 0) : Type 0 where
  pub required_acks : ℤ
  pub retry_max : ℤ
  pub flush_frequency : ℤ
  pub flush_messages : ℤ
  pub sasl : Option Sasl
  pub tls : Option (TlsConfig Pool Cert)

abbrev or_if_zero : ℤ → ℤ → ℤ
or_if_zero n d = if n == pos 0 then d else n

-- The SASL settings, or the text of the error.
unfoldable pub build_sasl : Config → String ⊎ Option Sasl
build_sasl cfg =
    let sasl : Mechanism → String ⊎ Option Sasl = λ m.
      inr
        (some (record { user = cfg.sasl_username; password = cfg.sasl_password; mechanism = m })) in
    if not cfg.sasl_enabled
    then inr none
    else if cfg.sasl_mechanism == "SCRAM-SHA-256"
    then sasl scram_sha_256
    else if cfg.sasl_mechanism == "SCRAM-SHA-512"
    then sasl scram_sha_512
    else inl (
        "unsupported SASL mechanism: "
        ++ (cfg.sasl_mechanism ++ " (use SCRAM-SHA-256 or SCRAM-SHA-512)"))

module _ {Pool Cert : Type 0} (wait_for_all : ℤ) (read_file : String → String ⊎ Payload)
    (append_certs : Payload → Option Pool) (load_key_pair : String → String → String ⊎ Cert) where
  -- The CA pool of the configuration, if it names a file.
  unfoldable pub load_pool : Config → String ⊎ Option Pool
  load_pool cfg = if cfg.tls_ca_cert == "" then inr none else elim (read_file cfg.tls_ca_cert) [
    | inl e ↦ inl ("read CA cert " ++ (cfg.tls_ca_cert ++ (": " ++ e)))
    | inr bytes ↦ elim (append_certs bytes) [
      | none ↦ inl ("failed to parse CA cert " ++ cfg.tls_ca_cert)
      | some pool ↦ inr (some pool)
    ]
  ]

  -- The client's certificate, if the configuration names both files.
  unfoldable pub load_certificates : Config → String ⊎ List Cert
  load_certificates cfg =
      if not (cfg.tls_cert == "") && not (cfg.tls_key == "")
      then (elim (load_key_pair cfg.tls_cert cfg.tls_key) [
        | inl e ↦ inl ("load client cert: " ++ e)
        | inr cert ↦ inr (cert ∷ [])
      ])
      else inr []

  unfoldable pub build_tls : Config → String ⊎ Option (TlsConfig Pool Cert)
  build_tls cfg = if not cfg.tls_enabled then inr none else elim (load_pool cfg) [
    | inl e ↦ inl e
    | inr pool ↦ elim (load_certificates cfg) [
      | inl e ↦ inl e
      | inr certificates ↦ inr (
          some (record {
            insecure_skip_verify = cfg.tls_skip_verify;
            root_cas = pool;
            certificates = certificates;
          }))
    ]
  ]

  unfoldable pub build_sarama_config : Config → String ⊎ SaramaConfig Pool Cert
  build_sarama_config cfg = elim (build_sasl cfg) [
    | inl e ↦ inl e
    | inr sasl ↦ elim (build_tls cfg) [
      | inl e ↦ inl e
      | inr tls ↦ inr (record {
        required_acks = or_if_zero cfg.required_acks wait_for_all;
        retry_max = or_if_zero cfg.max_retries (pos 3);
        flush_frequency = cfg.flush_frequency;
        flush_messages = cfg.flush_messages;
        sasl = sasl;
        tls = tls;
      })
    ]
  ]

  -- `connect` stands for NewClient and `produce` for NewSyncProducerFromClient; `show` is the verb %v.
  -- The last part is whether the client is closed again.
  unfoldable pub new :
      (List String → String)
      → (List String → SaramaConfig Pool Cert → Option String)
      → Option String
      → Config
      → (String ⊎ Transport) × Bool
  new show connect produce cfg =
      if is_empty cfg.brokers
      then (inl "kafka: at least one broker address is required", false)
      else elim (build_sarama_config cfg) [
        | inl e ↦ (inl ("kafka: config: " ++ e), false)
        | inr sarama ↦ elim (connect cfg.brokers sarama) [
          | some e ↦ (inl ("kafka: connect to " ++ (show cfg.brokers ++ (": " ++ e))), false)
          | none ↦ elim produce [
            | some e ↦ (inl ("kafka: create producer: " ++ e), true)
            | none ↦ (inr (record { closed = false }), false)
          ]
        ]
      ]

  -- The start of Subscribe, before its loop: the consumer group's settings with their initial offset.
  -- `group` stands for NewConsumerGroup.
  unfoldable pub subscribe :
      (List String → String → SaramaConfig Pool Cert → ℤ → Option String)
      → Transport
      → Config
      → Option TransportError
  subscribe group t cfg =
      if t.closed then some TransportError.closed else elim (build_sarama_config cfg) [
        | inl e ↦ some (failed ("kafka: consumer config: " ++ e))
        | inr sarama ↦ elim (group cfg.brokers cfg.consumer_group sarama cfg.initial_offset) [
          | some e ↦ some (failed ("kafka: create consumer group: " ++ e))
          | none ↦ none
        ]
      ]
