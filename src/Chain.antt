-- ===== src/Chain.antt =====
-- The runner of a chain of steps, engine/chain-runner.ts: the children model its checks of a step
-- (TillDone), its deterministic steps (Deterministic), the orchestrator's actions (Actions) and the
-- end of a step (Feedback).
pub mod TillDone
pub mod Deterministic
pub mod Actions
pub mod Feedback
mod Tests
