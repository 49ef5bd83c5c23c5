-- ===== src/Server.antt =====
-- internal/server: the middleware and the handlers of the control plane's API.
pub mod RateLimit
pub mod Auth
pub mod Audit
pub mod Response
pub mod Tests
pub mod Table
pub mod Pops
pub mod Agents
pub mod Database
pub mod AuditLog
pub mod Config
pub mod Router
pub mod Routes
