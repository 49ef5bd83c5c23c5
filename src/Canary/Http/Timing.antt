-- ===== src/Canary/Http/Timing.antt =====
-- internal/agent/canary/http: the moments of a request that the callbacks of net/http/httptrace note
-- down, in nanoseconds. A later call of a callback, on the way of a redirect, replaces what an earlier
-- one noted. RequestDone is noted and never read.
use netvantage.Prelude.{All, Option, none, some, List, [], ◌∷◌, ℤ}

-- The times of TimingTrace, none for one that is zero.
pub record TimingTrace : Type 0 where
  pub dns_start : Option ℤ
  pub dns_done : Option ℤ
  pub connect_start : Option ℤ
  pub connect_done : Option ℤ
  pub tls_start : Option ℤ
  pub tls_done : Option ℤ
  pub got_first_byte : Option ℤ
  pub request_start : ℤ
  pub request_done : Option ℤ

-- The callbacks of the ClientTrace.
pub data Hook : Type 0 where
  dns_start_hook : Hook
  dns_done_hook : Hook
  connect_start_hook : Hook
  connect_done_hook : Hook
  tls_handshake_start : Hook
  tls_handshake_done : Hook
  got_first_response_byte : Hook
  wrote_request : Hook

-- The trace before the request, and at its start.
abbrev pub started : ℤ → TimingTrace
started now = record {
  dns_start = none;
  dns_done = none;
  connect_start = none;
  connect_done = none;
  tls_start = none;
  tls_done = none;
  got_first_byte = none;
  request_start = now;
  request_done = none;
}

-- The call of a callback at a moment.
unfoldable pub noted : Hook → ℤ → TimingTrace → TimingTrace
noted dns_start_hook now trace = record trace { dns_start = some now }
noted dns_done_hook now trace = record trace { dns_done = some now }
noted connect_start_hook now trace = record trace { connect_start = some now }
noted connect_done_hook now trace = record trace { connect_done = some now }
noted tls_handshake_start now trace = record trace { tls_start = some now }
noted tls_handshake_done now trace = record trace { tls_done = some now }
noted got_first_response_byte now trace = record trace { got_first_byte = some now }
noted wrote_request now trace = record trace { request_done = some now }

-- The calls of a request, in their order.
unfoldable pub traced : List (Hook × ℤ) → TimingTrace → TimingTrace
traced [] trace = trace
traced ((hook, now) ∷ calls) trace = traced calls (noted hook now trace)

module _ (P : ℤ → Type 0) where
  abbrev pub Holds : Option ℤ → Type 0
  Holds none = Unit
  Holds (some now) = P now

  -- A trace all of whose moments have the property.
  abbrev pub IsTimed : TimingTrace → Type 0
  IsTimed trace =
      P trace.request_start
      × Holds trace.dns_start
      × Holds trace.dns_done
      × Holds trace.connect_start
      × Holds trace.connect_done
      × Holds trace.tls_start
      × Holds trace.tls_done
      × Holds trace.got_first_byte
      × Holds trace.request_done

  started-IsTimed : (now : ℤ) → P now → IsTimed (started now)
  started-IsTimed now p = (p, tt, tt, tt, tt, tt, tt, tt, tt)

  noted-IsTimed :
      (hook : Hook) (now : ℤ) (trace : TimingTrace)
      → P now
      → IsTimed trace
      → IsTimed (noted hook now trace)
  unfolding noted
  noted-IsTimed dns_start_hook now trace p (rs, ds, dd, cs, cd, ts, td, fb, rd) =
      (rs, p, dd, cs, cd, ts, td, fb, rd)
  noted-IsTimed dns_done_hook now trace p (rs, ds, dd, cs, cd, ts, td, fb, rd) =
      (rs, ds, p, cs, cd, ts, td, fb, rd)
  noted-IsTimed connect_start_hook now trace p (rs, ds, dd, cs, cd, ts, td, fb, rd) =
      (rs, ds, dd, p, cd, ts, td, fb, rd)
  noted-IsTimed connect_done_hook now trace p (rs, ds, dd, cs, cd, ts, td, fb, rd) =
      (rs, ds, dd, cs, p, ts, td, fb, rd)
  noted-IsTimed tls_handshake_start now trace p (rs, ds, dd, cs, cd, ts, td, fb, rd) =
      (rs, ds, dd, cs, cd, p, td, fb, rd)
  noted-IsTimed tls_handshake_done now trace p (rs, ds, dd, cs, cd, ts, td, fb, rd) =
      (rs, ds, dd, cs, cd, ts, p, fb, rd)
  noted-IsTimed got_first_response_byte now trace p (rs, ds, dd, cs, cd, ts, td, fb, rd) =
      (rs, ds, dd, cs, cd, ts, td, p, rd)
  noted-IsTimed wrote_request now trace p (rs, ds, dd, cs, cd, ts, td, fb, rd) =
      (rs, ds, dd, cs, cd, ts, td, fb, p)

  traced-IsTimed :
      (calls : List (Hook × ℤ)) (trace : TimingTrace)
      → All (λ call. P call.1) calls
      → IsTimed trace
      → IsTimed (traced calls trace)
  unfolding traced
  traced-IsTimed [] trace all h = h
  traced-IsTimed ((hook, now) ∷ calls) trace (p, all) h =
      traced-IsTimed calls (noted hook now trace) all (noted-IsTimed hook now trace p h)
