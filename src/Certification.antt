-- ===== src/Certification.antt =====
-- The certification of a recorded session, engine/certification-validator.ts: the checks of its events
-- and artifacts, and the verdict over them.
pub mod Event
pub mod Contract
pub mod Match
pub mod Checks
pub mod Artifacts
pub mod Spawns
pub mod Steering
pub mod Validate
mod Tests
