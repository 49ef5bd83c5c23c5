-- ===== src/Lib.antt =====
-- NetVantage: a network monitor in Go. Agents at points of presence (POPs) run tests (ping, DNS, HTTP,
-- traceroute) and publish the results; a processor turns them into Prometheus metrics and correlates
-- the paths that traceroutes observe with those that BGP announces; a server keeps the definitions of
-- the tests and hands them to the agents.
--
-- The files, by the code that they model:
--   Prelude: what the modules share: Boolean tests, lists, integers with the 64-bit wrap-around of
--     Go's int and int64, maps with text keys (association lists), and what is used of the package
--     `strings`.
--   Correlation: internal/processor/correlation/correlation.go. Correlation.antt and Correlation/Path
--     compare two paths (evaluate, isSubsequence, pathOverlap); Correlation/Engine holds the three maps
--     and the handlers. A handler returns the engine and the metric calls that it makes. A step is an
--     event that reaches the engine, with its time.
--   Transport: internal/transport. Transport/Memory is the in-memory one (Publish, Subscribe, Close),
--     Transport/Kafka that of Kafka, with its topics, its configuration and the claims of a consumer,
--     and Transport/Nats that of NATS.
--   Canary: internal/agent/canary, with the traceroute canary (Validate, Execute, the parsers of mtr and
--     scamper, buildASPath, didReachTarget) in Canary/Traceroute, and the DNS, HTTP and ping canaries in
--     Canary/Dns, Canary/Http and Canary/Ping. Canary/Float is what the code uses of float64.
--   Agent: internal/agent/agent.go (executeTest, publishResult, the drain loop, the heartbeat), with the
--     buffer of internal/agent/buffer/buffer.go in Agent/Buffer and the configuration in Agent/Config.
--     Agent/Lifecycle is Run: the loops that it starts, as steps that interleave, and the shutdown.
--   Processor: internal/processor/processor.go, the four handlers of results. The traceroute handler
--     feeds the correlation engine. Processor/Pipeline is Run's subscriptions, over the in-memory
--     transport, Processor/Run its end, and Processor/Metrics the vectors that New registers.
--   Server: internal/server/api. Server/RateLimit, Server/Auth and Server/Audit are the middleware,
--     Server/Tests the handlers of test definitions and of the agents' config sync, Server/Response the
--     answers and the statuses of errors; Server/Agents, Server/Pops and Server/AuditLog are the
--     handlers of agents, POPs and the audit log. Server/Database is internal/server/repository/postgres
--     on the tables of migrations/001_initial_schema.sql, as lists of rows (Server/Table), and
--     Server/Config internal/server/config/config.go. Server/Router is api/router/router.go: the whole
--     server, from the limiter to the tables, one request after the other.
--   Commands: cmd/agent, cmd/processor and cmd/server, what each main does around its loop.
--   Examples: theorems applied to concrete inputs.
--
-- How the code is read. Code that mutates an object is a function from the old state to the new one;
-- times are passed in where the code asks for the time, as nanoseconds of a clock. What a JSON message
-- decodes to is the input of a handler. Handlers passed as closures are functions on a state of the
-- caller. Databases, DNS, external programs and SHA-256 are parameters, about which nothing is assumed
-- but what a theorem names. A lock makes each operation of an object one step, and so is a tick of one of
-- an agent's loops: a failed publish and the buffering that follows it are not interrupted.
-- Loops are structural recursion; the loop of isSubsequence counts its starting points, and the digits
-- of a number are written with the number itself as fuel, which is at least the number of steps needed,
-- and a redirected HTTP request has one step more than its limit of redirects as fuel.
-- Numbers of type int stay integers where the code only stores or compares them, and wrap around where
-- it computes with them.
--
-- The repositories' SQL is read as the source has it: a statement is a function on the lists of rows, with
-- the keys, references, defaults and triggers of the schema. A lost connection is left out, and the
-- order of rows that ORDER BY leaves open is a parameter.
--
-- Left out: log lines, locks as such, the HTTP and Prometheus servers, chi's search for a route, the
-- SCRAM client of the Kafka transport, whose methods do nothing, and the BGP analyzer, which is written
-- in Python.
pub mod Prelude
pub mod Correlation
pub mod Transport
pub mod Canary
pub mod Agent
pub mod Server
pub mod Processor
pub mod Commands
pub mod Examples
