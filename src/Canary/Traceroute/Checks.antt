-- ===== src/Canary/Traceroute/Checks.antt =====
-- The configurations that the traceroute canary accepts, and what Execute makes of them.
use netvantage.Prelude.{
  ◌≡◌, ◌≢◌, ◌↔◌, ◌⊎◌, inl, inr, false, none, pos, ◌≤ℤ◌, String, string_eq, int_eq, eq_iff, arith,
}
use netvantage.Prelude.Text.{to_lower}
use netvantage.Canary.Float.{Float}
use netvantage.Canary.Traceroute.Run.{World, run_backend}
use netvantage.Canary.Traceroute.{Config, default_config, check_config, merge_defaults}

abbrev pub IsBackend : String → Type 0
IsBackend b = (b ≡ "mtr") ⊎ (b ≡ "scamper")

abbrev pub IsProtocol : String → Type 0
IsProtocol p = (p ≡ "icmp") ⊎ (p ≡ "udp") ⊎ (p ≡ "tcp")

module _ {F : Type 0} (float : Float F) where
  -- A backend of mtr or scamper, a number of cycles that is not negative, 0 to 255 hops, a protocol
  -- which is icmp, udp or tcp in lower case, and an interval that is not below 0; the two texts may be
  -- left out.
  abbrev pub IsAccepted : Config F → Type 0
  IsAccepted cfg =
      ((cfg.backend ≡ "") ⊎ IsBackend cfg.backend)
      × (pos 0 ≤ℤ cfg.cycles)
      × (pos 0 ≤ℤ cfg.max_hops)
      × (cfg.max_hops ≤ℤ pos 255)
      × ((cfg.protocol ≡ "") ⊎ IsProtocol (to_lower cfg.protocol))
      × (float.lt cfg.interval_sec (float.of_int (pos 0)) ≡ false)

  -- Validate accepts a configuration exactly if its backend is mtr or scamper or left out, its cycles
  -- are not negative, its hops are 0 to 255, its protocol is left out or icmp, udp or tcp in lower
  -- case, and its interval is not below 0.
  pub check_config_iff : (cfg : Config F) → (check_config float cfg ≡ none) ↔ IsAccepted cfg
  unfolding check_config
  check_config_iff cfg = ground (
    arith,
    eq_iff cfg.backend "",
    eq_iff cfg.backend "mtr",
    eq_iff cfg.backend "scamper",
    eq_iff cfg.protocol "",
    eq_iff (to_lower cfg.protocol) "icmp",
    eq_iff (to_lower cfg.protocol) "udp",
    eq_iff (to_lower cfg.protocol) "tcp",
  )

  -- Filling in the defaults makes a configuration that Validate accepts one whose backend Execute has.
  pub merge_defaults-backend :
      (cfg : Config F)
      → check_config float cfg ≡ none
      → IsBackend (merge_defaults float cfg).backend
  unfolding merge_defaults default_config
  merge_defaults-backend cfg h = ground (arith, (check_config_iff cfg).0 h, eq_iff cfg.backend "")

  -- If Validate accepts a configuration, Execute does not refuse its backend, once the defaults are
  -- filled in, whatever the world answers.
  pub check_config-runs :
      (world : World F) (target : String) (cfg : Config F)
      → check_config float cfg ≡ none
      → run_backend float world target (merge_defaults float cfg) ≢ none
  unfolding run_backend
  check_config-runs world target cfg h e = elim (merge_defaults-backend cfg h) [
    | inl mtr ↦ cc (rw mtr at e)
    | inr scamper ↦ cc (rw scamper at e)
  ]
