-- ===== src/Canary/Traceroute.antt =====
-- internal/agent/canary/traceroute: the canary that runs mtr or scamper and reads their reports. A
-- configuration or a report is what json.Unmarshal makes of it; the two programs, net.ParseIP and
-- net.LookupHost are parameters.

pub mod Parse
pub mod Run
pub mod AsPath
pub mod Checks
use Prim.Native.String.{◌++◌}
use netvantage.Prelude.{
  ℕ, Bool, true, false, Option, none, some, List, [], ◌∷◌, ◌++◌ as append, ℤ, pos, String, ◌&&◌,
  ◌||◌, not, ltb_ℤ, is_empty, last_or, snoc, ◌==◌, string_eq, int_eq, if◌then◌else◌,
}
use netvantage.Prelude.Text.{to_lower}
use netvantage.Prelude.Decimal.{itoa}
use netvantage.Canary.Float.{Float}

pub record Config (F : Type 0) : Type 0 where
  pub backend : String
  pub cycles : ℤ
  pub max_hops : ℤ
  pub packet_size : ℤ
  pub protocol : String
  pub port : ℤ
  pub interval_sec : F
  pub resolve_asn : Option Bool
  pub resolve_hostnames : Option Bool

pub record Hop (F : Type 0) : Type 0 where
  pub hop_number : ℤ
  pub ip : String
  pub hostname : String
  pub asn : ℤ
  pub as_name : String
  pub rtt_min : F
  pub rtt_avg : F
  pub rtt_max : F
  pub rtt_std_dev : F
  pub packet_loss : F
  pub sent : ℤ
  pub received : ℤ

-- Why a configuration is refused.
pub data Refusal : Type 0 where
  bad_json : Refusal
  bad_backend : Refusal
  bad_cycles : Refusal
  bad_max_hops : Refusal
  bad_protocol : Refusal
  bad_interval : Refusal

-- A configuration's bytes: none (or null), or what they decode to.
pub data Raw {ℓ} (A : Type ℓ) : Type ℓ where
  absent : Raw A
  undecodable : Raw A
  decoded : A → Raw A

abbrev pub is_protocol : String → Bool
is_protocol p = p == "icmp" || p == "udp" || p == "tcp"

abbrev pub or_text : String → String → String
or_text s d = if s == "" then d else s

abbrev pub or_int : ℤ → ℤ → ℤ
or_int n d = if n == pos 0 then d else n

abbrev pub or_bool : Option Bool → Option Bool → Option Bool
or_bool none d = d
or_bool (some b) d = some b

pub any_is : String → List String → Bool
any_is ip [] = false
any_is ip (j ∷ js) = j == ip || any_is ip js

-- The addresses of the target: its own in ParseIP's canonical form, or those that a lookup gives.
pub target_ips : (String → Option String) → (String → Option (List String)) → String → List String
target_ips parse_ip lookup_host target = elim (parse_ip target) [
  | some ip ↦ ip ∷ []
  | none ↦ elim (lookup_host target) [ none ↦ [] | some ips ↦ ips ]
]

module _ {F : Type 0} where
  port_args : Config F → List String
  port_args cfg = if ltb_ℤ (pos 0) cfg.port then "-P" ∷ itoa cfg.port ∷ [] else []

  protocol_args : Config F → List String
  protocol_args cfg =
      let p = to_lower cfg.protocol in
      if p == "tcp"
      then "--tcp" ∷ port_args cfg
      else if p == "udp"
      then "--udp" ∷ port_args cfg
      else []

  dns_args : Config F → List String
  dns_args cfg = elim cfg.resolve_hostnames [
    | none ↦ []
    | some b ↦ if not b then "--no-dns" ∷ [] else []
  ]

module _ {F : Type 0} (float : Float F) where
  unfoldable pub default_config : Config F
  default_config = record {
    backend = "mtr";
    cycles = pos 10;
    max_hops = pos 30;
    packet_size = pos 64;
    protocol = "icmp";
    port = pos 0;
    interval_sec = float.of_ratio (pos 1) (pos 4);
    resolve_asn = some true;
    resolve_hostnames = some true;
  }

  unfoldable pub check_config : Config F → Option Refusal
  check_config cfg =
      if not (cfg.backend == "") && not (cfg.backend == "mtr") && not (cfg.backend == "scamper")
      then some bad_backend
      else if ltb_ℤ cfg.cycles (pos 0)
      then some bad_cycles
      else if ltb_ℤ cfg.max_hops (pos 0) || ltb_ℤ (pos 255) cfg.max_hops
      then some bad_max_hops
      else if not (cfg.protocol == "") && not (is_protocol (to_lower cfg.protocol))
      then some bad_protocol
      else if float.lt cfg.interval_sec (float.of_int (pos 0))
      then some bad_interval
      else none

  unfoldable pub validate : Raw (Config F) → Option Refusal
  validate absent = none
  validate undecodable = some bad_json
  validate (decoded cfg) = check_config cfg

  unfoldable pub merge_defaults : Config F → Config F
  merge_defaults cfg = record cfg {
    backend = or_text cfg.backend default_config.backend;
    cycles = or_int cfg.cycles default_config.cycles;
    max_hops = or_int cfg.max_hops default_config.max_hops;
    packet_size = or_int cfg.packet_size default_config.packet_size;
    protocol = or_text cfg.protocol default_config.protocol;
    interval_sec =
        if float.eq cfg.interval_sec (float.of_int (pos 0))
        then default_config.interval_sec
        else cfg.interval_sec;
    resolve_asn = or_bool cfg.resolve_asn default_config.resolve_asn;
    resolve_hostnames = or_bool cfg.resolve_hostnames default_config.resolve_hostnames;
  }

  pub build_mtr_args : String → Config F → List String
  build_mtr_args target cfg =
      append
        ("--json"
          ∷ "--report"
          ∷ "-c"
          ∷ itoa cfg.cycles
          ∷ "-m"
          ∷ itoa cfg.max_hops
          ∷ "-s"
          ∷ itoa cfg.packet_size
          ∷ "-i"
          ∷ float.two_decimals cfg.interval_sec
          ∷ [])
        (append (dns_args cfg) (append (protocol_args cfg) (target ∷ [])))

module _ {F : Type 0} where
  scamper_port : Config F → String
  scamper_port cfg =
      if ltb_ℤ (pos 0) cfg.port && (cfg.protocol == "tcp" || cfg.protocol == "udp")
      then " -d " ++ itoa cfg.port
      else ""

  pub build_scamper_args : String → Config F → List String
  build_scamper_args target cfg =
      let trace_cmd =
        "trace -P "
        ++ (to_lower cfg.protocol
            ++ (" -q " ++ (itoa cfg.cycles ++ (" -m " ++ itoa cfg.max_hops)))) in
      "-O" ∷ "json" ∷ "-c" ∷ (trace_cmd ++ scamper_port cfg) ∷ "-i" ∷ target ∷ []

  -- The loop of buildASPath, with the path so far.
  unfoldable pub as_path_loop : List (Hop F) → List ℤ → List ℤ
  as_path_loop [] path = path
  as_path_loop (h ∷ hs) path =
      let asn = h.asn in
      let next =
        if is_empty path || not (last_or path (pos 0) == asn) then snoc path asn else path in
      as_path_loop hs (if asn == pos 0 then path else next)

  unfoldable pub build_as_path : List (Hop F) → List ℤ
  build_as_path hops = as_path_loop hops []

  -- The last hop with an IP.
  pub last_ip : List (Hop F) → Option String
  last_ip [] = none
  last_ip (h ∷ hs) = elim (last_ip hs) [
    | some ip ↦ some ip
    | none ↦ if h.ip == "" then none else some h.ip
  ]

  unfoldable pub did_reach_target :
      (String → Option String) → (String → Option (List String)) → List (Hop F) → String → Bool
  did_reach_target parse_ip lookup_host hops target = elim (last_ip hops) [
    | none ↦ false
    | some ip ↦ any_is ip (target_ips parse_ip lookup_host target)
  ]
