-- ===== src/Server/RateLimit/Cleanup/Budget.antt =====
-- How many requests of one address the limiter admits over time, with its rounds of cleanup.
use netvantage.Prelude.{ℕ, ◌+◌, ◌-◌, ◌*◌, ◌/◌, ◌^◌, ◌≤◌, ◌<◌, ◌≡◌, Bool, some, List, pos, String}
use netvantage.Server.RateLimit.{RateLimiter, new_rate_limiter, max_duration, stale_after}
use netvantage.Server.RateLimit.Bound.{admitted, InOrder as InTime, run-bound}
use netvantage.Server.RateLimit.Cleanup.{Event, run_events, requests_of, InOrder}
use netvantage.Server.RateLimit.Cleanup.Answers.{run_events-cleanup}

-- A limiter with a burst of `n`, at least 1, and `r` tokens per interval above 0, which fill it within
-- ten minutes and whose longest refill an int64 can hold, answers every series of requests with any rounds
-- of cleanup between them, if the times do not decrease. Of one address it admits at most `n` of them
-- and `r` more for each whole interval between `from` and `end`, where the requests stand. That
-- number too is one that an int64 can hold.
pub run_events-bound :
    (r n interval from end : ℕ) (key : String) (events : List Event)
    → 0 < n
    → 0 < interval
    → n ≤ stale_after / interval * r
    → n + max_duration / interval * r < 2 ^ 63
    → n + (end - from) / interval * r < 2 ^ 63
    → InOrder from events
    → InTime from end (requests_of events)
    → (final : RateLimiter) × (oks : List Bool) × (run_events
          (new_rate_limiter (pos r) interval (pos n))
          events
        ≡ some (final, oks))
      × (admitted key (requests_of events) oks ≤ n + (end - from) / interval * r)
run_events-bound r n interval from end key events n_positive positive full fits small order
      in_time =
    let (oks, all, final, ran, cleaned) =
      run_events-cleanup r n interval from events n_positive positive full fits order in
    let (all', oks', ran', bound) =
      run-bound r n interval from end key (requests_of events) n_positive positive small in_time in
    let same : oks' ≡ oks = cc in (final, oks, cleaned, rw same at bound)
