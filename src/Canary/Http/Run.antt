-- ===== src/Canary/Http/Run.antt =====
-- internal/agent/canary/http/http.go: the metrics of a response, and the result of a test.
use Prim.Native.String.{◌++◌}
use netvantage.Prelude.{
  ℕ, suc, Bool, true, false, Option, none, some, List, [], ◌∷◌, ℤ, pos, pos_part, String, ◌⊎◌, inl,
  inr, ◌&&◌, not, ◌-ℤ◌, ◌==◌, int_eq, nat_eq, if◌then◌else◌,
}
use netvantage.Prelude.Decimal.{itoa}
use netvantage.Transport.{Payload}
use netvantage.Canary.{TestDefinition, Result}
use netvantage.Canary.Float.{Float}
use netvantage.Canary.Traceroute.{Raw}
use netvantage.Canary.Http.{
  Config, Fields, TlsState, Response, Fetched, Outcome, Certificate, client_do, content_matches,
  configured,
}
use netvantage.Canary.Http.Timing.{Hook, started, traced}

pub record Metrics (F : Type 0) : Type 0 where
  pub dns_ms : F
  pub tcp_ms : F
  pub tls_ms : F
  pub ttfb_ms : F
  pub total_ms : F
  pub transfer_ms : F
  pub status_code : ℤ
  pub content_length : ℤ
  pub protocol : String
  pub tls_version : String
  pub tls_cipher : String
  pub cert_subject : String
  pub cert_issuer : String
  pub cert_expiry_days : F
  pub redirect_count : ℕ
  pub redirect_chain : List String
  pub content_matched : Bool

-- What the canary takes from elsewhere: `micros` is Duration.Microseconds, `hours` Duration.Hours,
-- `hex` the verb %04x. The request starts at `request_start`, its body is read at `request_done`, and
-- `calls` are those of the callbacks.
pub record World (F : Type 0) : Type 0 where
  pub build_error : Option String
  pub fetch : String → Fetched
  pub request_start : ℤ
  pub calls : List (Hook × ℤ)
  pub request_done : ℤ
  pub micros : ℤ → ℤ
  pub hours : ℤ → F
  pub floor : F → F
  pub cipher_suite_name : ℕ → String
  pub hex : ℕ → String
  pub compile : String → Option (String → Bool)

module _ {F : Type 0} (float : Float F) (world : World F) where
  abbrev pub zero_ms : F
  zero_ms = float.of_int (pos 0)

  pub ms_elapsed : ℤ → ℤ → F
  ms_elapsed start end =
      float.div (float.of_int (world.micros (end -ℤ start))) (float.of_int (pos 1_000))

  -- The time between two moments, 0 unless both are there.
  pub between : Option ℤ → Option ℤ → F
  unfolding ms_elapsed
  between none end = zero_ms
  between (some start) none = zero_ms
  between (some start) (some end) = ms_elapsed start end

  pub tls_version_string : ℕ → String
  tls_version_string version =
      if version == 0x0301
      then "TLS 1.0"
      else if version == 0x0302
      then "TLS 1.1"
      else if version == 0x0303
      then "TLS 1.2"
      else if version == 0x0304
      then "TLS 1.3"
      else "0x" ++ world.hex version

  -- math.Floor(hours/24*10) / 10
  pub expiry_days : ℤ → F
  expiry_days left =
      let ten = float.of_int (pos 10) in
      let days = float.div (world.hours left) (float.of_int (pos 24)) in
      float.div (world.floor (float.mul days ten)) ten

  unfoldable pub with_certificate : List Certificate → Metrics F → Metrics F
  unfolding expiry_days
  with_certificate [] m = m
  with_certificate (cert ∷ certs) m = record m {
    cert_subject = cert.subject;
    cert_issuer = cert.issuer;
    cert_expiry_days = expiry_days cert.expires_in;
  }

  unfoldable pub with_tls : Option TlsState → Metrics F → Metrics F
  unfolding with_certificate tls_version_string
  with_tls none m = m
  with_tls (some state) m = with_certificate state.peer_certificates (record m {
    tls_version = tls_version_string state.version;
    tls_cipher = world.cipher_suite_name state.cipher_suite;
  })

  -- The metrics of a response whose body is read.
  unfoldable pub build_metrics : Config → Outcome → Response → String → Metrics F
  unfolding with_tls between ms_elapsed
  build_metrics cfg outcome resp body =
      let trace = traced world.calls (started world.request_start) in
      let done = some world.request_done in
      let metrics : Metrics F = record {
        dns_ms = between trace.dns_start trace.dns_done;
        tcp_ms = between trace.connect_start trace.connect_done;
        tls_ms = between trace.tls_start trace.tls_done;
        ttfb_ms = between (some trace.request_start) trace.got_first_byte;
        total_ms = ms_elapsed trace.request_start world.request_done;
        transfer_ms = between trace.got_first_byte done;
        status_code = resp.status_code;
        content_length = resp.content_length;
        protocol = resp.proto;
        tls_version = "";
        tls_cipher = "";
        cert_subject = "";
        cert_issuer = "";
        cert_expiry_days = zero_ms;
        redirect_count = outcome.redirect_count;
        redirect_chain = outcome.redirect_chain;
        content_matched = true;
      } in
      record (with_tls resp.tls metrics) {
        content_matched = content_matches world.compile cfg body;
      }

  -- What doRequest makes of the outcome.
  unfoldable pub read_response : Config → Outcome → String ⊎ Response → String ⊎ Metrics F
  read_response cfg outcome (inl e) = inl ("request failed: " ++ e)
  read_response cfg outcome (inr resp) = elim resp.body [
    | inl e ↦ inl ("read response body: " ++ e)
    | inr body ↦ inr (build_metrics cfg outcome resp body)
  ]

  -- The fuel is one more than the limit of redirects.
  unfoldable pub do_request : Config → String → Option (String ⊎ Metrics F)
  do_request cfg target = elim world.build_error [
    | some e ↦ some (inl ("build request: " ++ e))
    | none ↦ elim (client_do world.fetch (suc (pos_part cfg.max_redirects)) cfg target 0 []) [
      | none ↦ none
      | some outcome ↦ some (read_response cfg outcome outcome.answer)
    ]
  ]

  -- Whether the metrics are a success, and the text of what is wrong.
  unfoldable pub verdict : Config → Metrics F → Bool × String
  verdict cfg m =
      let status_ok = m.status_code == cfg.expected_status in
      (
        status_ok && m.content_matched,
        if not status_ok
            then "expected status "
              ++ (itoa cfg.expected_status ++ (", got " ++ itoa m.status_code))
            else if not m.content_matched
            then "content match failed"
            else "",
      )

  -- The result; `marshal` encodes the metrics, and metrics that do not encode are left out.
  unfoldable pub result_of :
      (Metrics F → Option Payload) → ℕ → ℕ → TestDefinition → Config → String ⊎ Metrics F → Result F
  result_of marshal now elapsed test cfg outcome =
      let result : Bool × String → Payload → Result F = λ (success, error) bytes. record {
        test_id = test.id;
        agent_id = "";
        pop_name = "";
        test_type = "http";
        target = test.target;
        timestamp = now;
        duration_ms = float.of_int (pos elapsed);
        success = success;
        metrics = bytes;
        error = error;
        metadata = [];
      } in
      elim outcome [
        | inl e ↦ result (false, e) []
        | inr m ↦ result (verdict cfg m) (elim (marshal m) [ none ↦ [] | some bytes ↦ bytes ])
      ]

  -- `inl` is the error of Execute.
  unfoldable pub execute :
      (Metrics F → Option Payload)
      → ℕ
      → ℕ
      → TestDefinition
      → Raw Fields
      → Option (String ⊎ Result F)
  execute marshal now elapsed test raw = elim (configured raw) [
    | none ↦ some (inl "parse http config")
    | some cfg ↦ elim (do_request cfg test.target) [
      | none ↦ none
      | some outcome ↦ some (inr (result_of marshal now elapsed test cfg outcome))
    ]
  ]
