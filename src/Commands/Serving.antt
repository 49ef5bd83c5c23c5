-- ===== src/Commands/Serving.antt =====
-- When the server of cmd/server/main.go serves, and how it ends.
use netvantage.Prelude.{◌≡◌, ◌↔◌, inl, inr, Bool, true, none, String, arith, Option-cases}
use netvantage.Server.Config.{load, validate}
use netvantage.Commands.{Stop, signalled, server_main}

-- The server ends with status 0 exactly if its configuration is valid, the pool opens and answers to a
-- ping, and a signal comes before an error of the listener; only then is the pool closed.
pub server_main-clean_iff :
    (getenv : String → String) (open_pool ping_pool : String → Bool) (stop : Stop)
    → ((server_main getenv open_pool ping_pool stop).1.status ≡ 0) ↔ (
        (validate (load getenv) ≡ none)
        × (open_pool (load getenv).database_url ≡ true)
        × (ping_pool (load getenv).database_url ≡ true)
        × (stop ≡ signalled)
        × ((server_main getenv open_pool ping_pool stop).1.closed ≡ true))
unfolding server_main
server_main-clean_iff getenv open_pool ping_pool stop =
    elim (Option-cases (validate (load getenv))) [
      | inr (err, bad) ↦ rw (bad, server_main) (ground arith)
      | inl good ↦ rw (good, server_main) (ground arith)
    ]
