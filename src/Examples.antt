-- ===== src/Examples.antt =====
-- The theorems at concrete inputs.
mod Correlation
mod Agent
mod Server
mod Canary
mod Database
mod Probes
mod Lifecycle
mod Wiring
