-- ===== src/Canary/Ping/Accepted.antt =====
-- What the ping canary of internal/agent/canary/ping runs with.
use netvantage.Prelude.{
  ◌<◌, ◌≤◌, ◌≡◌, refl, Bool, true, false, Option, none, some, ℤ, pos, negsuc, not, ltb_ℤ, ◌||◌,
  pos_part, arith,
}
use netvantage.Canary.{TestDefinition}
use netvantage.Canary.Float.{Float}
use netvantage.Canary.Traceroute.{Raw, absent, undecodable, decoded}
use netvantage.Canary.Dns.{or_keep}
use netvantage.Canary.Ping.{Config, Fields, PingerSettings, validate, configured, settings_of}

-- A number of bytes that fits a packet.
abbrev pub IsSize : ℤ → Type 0
IsSize (pos n) = n ≤ 65_535
IsSize (negsuc n) = ⊥

-- At least one packet, of a size that fits.
abbrev pub IsRunnable : Config → Type 0
IsRunnable cfg = (0 < pos_part cfg.count) × IsSize cfg.payload_size

count_lem : (n : ℤ) → ltb_ℤ n (pos 1) ≡ false → 0 < pos_part n
count_lem (pos n) h = ground arith
count_lem (negsuc n) h = ground arith

-- Fields that pass onto a zero configuration pass onto the defaults.
kept_count :
    (count : Option ℤ)
    → ltb_ℤ (or_keep count (pos 0)) (pos 1) ≡ false
    → ltb_ℤ (or_keep count (pos 5)) (pos 1) ≡ false
kept_count none h = ground arith
kept_count (some n) h = h

abbrev fits : ℤ → Bool
fits size = not (ltb_ℤ size (pos 0) || ltb_ℤ (pos 65_535) size)

kept_size :
    (size : Option ℤ) → fits (or_keep size (pos 0)) ≡ true → fits (or_keep size (pos 56)) ≡ true
kept_size none h = ground arith
kept_size (some n) h = h

fits-IsSize : (size : ℤ) → fits size ≡ true → IsSize size
fits-IsSize (pos n) h = ground arith
fits-IsSize (negsuc n) h = ground arith

module _ {F : Type 0} (float : Float F) (abs : F → F) where
  -- If Validate accepts a configuration, Execute runs the pinger with settings that send at least one
  -- packet, with a payload of 0 to 65,535 bytes, although it fills what the configuration leaves out
  -- from other values than Validate.
  pub validate-runs :
      (test : TestDefinition) (raw : Raw Fields)
      → validate raw ≡ true
      → (settings : PingerSettings) × (settings_of float abs test raw ≡ some settings)
        × IsRunnable settings.config
  unfolding validate settings_of configured
  validate-runs test absent h = (_, refl, (omega arith, omega arith))
  validate-runs test undecodable h = cc
  validate-runs test (decoded fields) h =
      let count = kept_count fields.count (ground arith) in
      let size = kept_size fields.payload_size (ground arith) in
      (
        _,
        refl,
        (
          count_lem (or_keep fields.count (pos 5)) count,
          fits-IsSize (or_keep fields.payload_size (pos 56)) size,
        ),
      )
