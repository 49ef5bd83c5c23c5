-- ===== src/Server/Database/Sync.antt =====
-- From the Create handler to the ConfigSync handler of internal/server/api/handler, over the repositories
-- of internal/server/repository/postgres.
use netvantage.Prelude.{string_eq}
use netvantage.Server.Database.{Database}
