-- ===== src/Fleet.antt =====
-- orchestrator/fleet: who is on the fleet, which node serves a request, and who has gone silent.
pub mod Registry
pub mod Router
pub mod Heartbeat
pub mod Ready
pub mod Sweep
mod Tests
